-- ===== src/Ds/System/Tags/Delivery.antt =====
-- How tags get from `queue_tcp` to the encoder of the TCP task that `udp_conn` of src/ds/conn.rs uses.
use ds_rs.Prelude.{
  ℕ, suc, ◌≤◌, ◌≡◌, ◌≢◌, refl, sym, ap, ◌∙◌, List, [], ◌∷◌, ◌++◌, append-nil, append_assoc, ok, inl,
  inr, Bool-cases, if◌then◌else◌, arith,
}
use ds_rs.Crates.{BytesCrate, Bitflags, Float32}
use ds_rs.Proto.Tcp.{TcpTag}
use ds_rs.Proto.Tcp.Frames.{fits}
use ds_rs.Ds.State.{queue_tcp}
use ds_rs.Ds.Conn.Tcp.Tasks.{starting, running, ended, Tasks, is_open, tag_step}
use ds_rs.Ds.Conn.Tcp.Passed.{for_task, for_task-append, passed, Step-passed, Step-ended}
use ds_rs.Ds.Conn.Tcp.Fitting.{
  fitting, lost, all_fit, lost-fits, lost-long, fitting-long, fitting-behind, after_tag, tag-fits,
  tag-panics,
}
use ds_rs.Ds.System.Tags.{
  Station, tasks_of, with_tasks, Step, system_step, task_step, Run, here, next,
}
use ds_rs.Ds.System.Tags.Kept.{IsInUse, Step-KeepsLink}
use ds_rs.Ds.System.Tags.Served.{IsServed, IsServed-after, move-begun, move-IsServed}

-- What a step leaves of the task `k`, if it has begun: the numbers given out, that it has begun, and
-- whether it runs and is in use.
abbrev KeepsTask : ℕ → Station → Station → Type 0
KeepsTask k st st' =
    (st.sys.receiver.spawned ≤ st'.sys.receiver.spawned)
    × (st'.phase k ≢ starting)
    × (st'.phase k ≡ running → st.phase k ≡ running)
    × (suc k ≡ st.sys.receiver.spawned → IsInUse k st'.sys → IsInUse k st.sys)

module _ (b : BytesCrate) (g : Bitflags) (f : Float32) where
  Step-KeepsTask :
      (k : ℕ) {st st' : Station} {log : List (ℕ × TcpTag)}
      → Step b g f st log st'
      → st.phase k ≢ starting
      → KeepsTask k st st'
  Step-KeepsTask k {st} (system_step sys' move outside) begun =
      let (more, back, kept) = Step-KeepsLink b g f k move outside in
      (more, begun, λ runs. runs, back)
  Step-KeepsTask k {st} (task_step log ts move allowed) begun =
      let (begun', back) = move-begun k move begun in
      (
        omega arith,
        begun',
        back,
        λ latest in_use. record {
          latest = latest;
          runs = in_use.runs;
          connected = in_use.connected;
        },
      )

  Step-IsServed :
      (k : ℕ) {st st' : Station} {log : List (ℕ × TcpTag)}
      → Step b g f st log st'
      → IsServed k st
      → IsInUse k st.sys
      → st'.phase k ≡ running
      → IsServed k st'
  Step-IsServed k {st} (system_step sys' move outside) served in_use runs =
      IsServed-after k st _ served (Step-KeepsLink b g f k move outside).2 (λ j h. h) runs
  Step-IsServed k {st} (task_step log ts move allowed) served in_use runs =
      move-IsServed k st move allowed served in_use runs

  Step-adds :
      (k : ℕ) {st st' : Station} {log : List (ℕ × TcpTag)}
      → Step b g f st log st'
      → st'.phase k ≢ ended
      → passed k (tasks_of st') ≡ passed k (tasks_of st) ++ for_task k log
  Step-adds k {st} (system_step sys' move outside) lives = sym (append-nil (passed k (tasks_of st)))
  Step-adds k {st} (task_step log ts move allowed) lives = Step-passed k move lives

  stays_ended :
      (k : ℕ) {st st' : Station} {log : List (ℕ × TcpTag)}
      → Step b g f st log st'
      → st.phase k ≡ ended
      → st'.phase k ≡ ended
  stays_ended k (system_step sys' move outside) over = over
  stays_ended k (task_step log ts move allowed) over = Step-ended k move over

  Run-adds :
      (k : ℕ) {st end : Station} {log : List (ℕ × TcpTag)}
      → Run b g f st log end
      → end.phase k ≢ ended
      → passed k (tasks_of end) ≡ passed k (tasks_of st) ++ for_task k log
  Run-adds k {st} here lives = sym (append-nil (passed k (tasks_of st)))
  Run-adds k {st} (next {log} {more} r move) lives =
      rw
        (
          Step-adds k move lives,
          Run-adds k r (λ e. lives (stays_ended k move e)),
          for_task-append k log more,
        )
        (append_assoc (passed k (tasks_of st)) (for_task k log) (for_task k more))

  Run-begun :
      (k : ℕ) {st end : Station} {log : List (ℕ × TcpTag)}
      → Run b g f st log end
      → st.phase k ≢ starting
      → (st.sys.receiver.spawned ≤ end.sys.receiver.spawned) × (end.phase k ≢ starting)
  Run-begun k here begun = (omega arith, begun)
  Run-begun k (next r move) begun =
      let (more, begun') = Run-begun k r begun in
      let (more', begun'', back, used) = Step-KeepsTask k move begun' in
      (omega (arith, more, more'), begun'')

  Run-IsServed :
      (k : ℕ) {st end : Station} {log : List (ℕ × TcpTag)}
      → Run b g f st log end
      → IsServed k st
      → suc k ≡ st.sys.receiver.spawned
      → IsInUse k end.sys
      → end.phase k ≡ running
      → IsServed k end
  Run-IsServed k here served latest in_use runs = served
  Run-IsServed k {st} (next r move) served latest in_use runs =
      let (more, begun') =
        Run-begun k r (λ e. let clash : running ≡ starting = sym served.runs ∙ e in cc clash) in
      let (more', begun'', back, use_back) = Step-KeepsTask k move begun' in
      let in_use' = use_back (omega (arith, latest, more, more', in_use.latest)) in_use in
      Step-IsServed k move (Run-IsServed k r served latest in_use' (back runs)) in_use' runs

  before :
      {st mid end : Station} {log : List (ℕ × TcpTag)}
      → Step b g f st [] mid
      → Run b g f mid log end
      → Run b g f st log end
  before move here = next here move
  before move (next r move') = next (before move r) move'

  -- What a task that runs can do with all that waits for it.
  Drains : ℕ → Station → Type 0
  Drains k st =
      (last : Station) × Run b g f st [] last
      × (last.waiting k ≡ lost (st.waiting k))
      × (last.handed k ≡ st.handed k ++ fitting (st.waiting k))
      × (last.phase k ≡ (if all_fit (st.waiting k) then running else ended))

  drain :
      (k : ℕ) (tags : List TcpTag) (st : Station)
      → st.phase k ≡ running
      → st.waiting k ≡ tags
      → Drains k st
  unfolding Drains
  drain k [] st runs w = (st, here, rw w refl, rw w (sym (append-nil (st.handed k))), rw w runs)
  drain k (t ∷ tags) st runs w =
      let ts : Tasks = tasks_of st in
      let mid : Station = with_tasks (after_tag k t tags ts) st in
      let move : Step b g f st [] mid = task_step [] _ (tag_step k t tags runs w) tt in
      elim (Bool-cases (fits t)) [
        | inl fit ↦
            let (runs', waits, handed) = tag-fits k t tags ts fit runs in
            let (last, r, left, all, phase) = drain k tags mid runs' waits in
            (
              last,
              before move r,
              left ∙ ap lost waits ∙ sym (ap lost w ∙ lost-fits t tags fit),
              all
                  ∙ fitting-behind t tags fit (st.handed k) handed waits
                  ∙ sym (ap (λ us. st.handed k ++ fitting us) w),
              phase
                  ∙ ap (λ us. if all_fit us then running else ended) waits
                  ∙ sym (ap (λ us. if all_fit us then running else ended) w ∙ rw fit refl),
            )
        | inr long ↦
            let (stopped, left, handed) = tag-panics k t tags ts long in
            (
              mid,
              next here move,
              left ∙ sym (ap lost w ∙ lost-long t tags long),
              handed ∙ sym (ap (λ us. st.handed k ++ us) (ap fitting w ∙ fitting-long t tags long)),
              stopped ∙ sym (ap (λ us. if all_fit us then running else ended) w ∙ rw long refl),
            )
      ]

  -- The TCP task that `udp_conn` uses runs, its channel is the one for tags, and all tasks before it
  -- have ended. Then any steps of the tasks and the interface may follow, in any order: if `udp_conn`
  -- still uses the same task, and it still runs, every tag that is queued is accepted for it, and what
  -- it has handed to its encoder and what waits are the tags of before and those accepted for it since,
  -- all of them and in order. From there the task can go on so that its encoder gets all that waits,
  -- and it still runs; or if a tag is among them that does not fit in its frame, those before the
  -- first such tag, on which the task ends, and what is behind it is lost.
  pub Run-delivers :
      (k : ℕ) (t : TcpTag) (st end : Station) (log : List (ℕ × TcpTag))
      → Run b g f st log end
      → IsServed k st
      → suc k ≡ st.sys.receiver.spawned
      → IsInUse k end.sys
      → end.phase k ≡ running
      → (queue_tcp (is_open (tasks_of end)) t end.sys.shared.tcp ≡ ok (k, t))
        × (passed k (tasks_of end) ≡ passed k (tasks_of st) ++ for_task k log)
        × (last : Station) × Run b g f end [] last
        × (last.waiting k ≡ lost (end.waiting k))
        × (last.handed k ≡ end.handed k ++ fitting (end.waiting k))
        × (last.phase k ≡ (if all_fit (end.waiting k) then running else ended))
  unfolding queue_tcp Drains
  Run-delivers k t st end log r served latest in_use runs =
      let served' = Run-IsServed k r served latest in_use runs in
      let adds = Run-adds k r (λ e. let clash : running ≡ ended = sym runs ∙ e in cc clash) in
      let (last, r', left, all, phase) = drain k (end.waiting k) end runs refl in
      (rw (served'.channel, runs) refl, adds, last, r', left, all, phase)
