-- ===== src/Ds/System/Tags/Served.antt =====
-- The TCP task that `udp_conn` of src/ds/conn.rs uses, under the steps of all TCP tasks.
use ds_rs.Prelude.{
  ℕ, ◌+◌, ◌<◌, ◌≡◌, ◌≢◌, refl, sym, ◌∙◌, inl, inr, Bool, true, false, if◌then◌else◌, ◌==◌, ==_iff,
  Bool-cases, ltb, ltb→lt, some, List, arith,
}
use ds_rs.Proto.Tcp.{TcpTag}
use ds_rs.Proto.Tcp.Frames.{fits}
use ds_rs.Ds.Conn.Tcp.{packet, undecoded, stream_end, told, tag, tags_end, panics, on_event}
use ds_rs.Ds.Conn.Tcp.Tasks
use ds_rs.Ds.Conn.Tcp.Tasks.{
  Phase, starting, running, ended, Tasks, put, connect_step, refused_step, event_step, tag_step,
  tags_end_step, queue_step, consumer_step,
}
use ds_rs.Ds.Conn.Tcp.Phases.{put_self, put_ne, put-begun, put-ended, round-begun, round-ended}
use ds_rs.Ds.System.Tags.{Station, tasks_of, with_tasks, IsAllowed}
use ds_rs.Ds.System.Tags.Kept.{IsInUse}

-- The TCP task `k` runs, its channel is the one for tags, and all before it have ended.
pub record IsServed (k : ℕ) (st : Station) : Type 0 where
  pub runs : st.phase k ≡ running
  pub channel : st.sys.shared.tcp.pending_tcp ≡ some k
  pub older : (j : ℕ) → j < k → st.phase j ≡ ended

put-running : (k j : ℕ) (phase : ℕ → Phase) → put j ended phase k ≡ running → phase k ≡ running
put-running k j phase h = elim (Bool-cases (k == j)) [
  | inl same ↦
      let here : k ≡ j = (==_iff k j).0 same in
      let clash : ended ≡ running = rw (here, put_self j ended phase) at h in absurd (cc clash)
  | inr other ↦ sym (put_ne j k ended phase other) ∙ h
]

round-running :
    (k j : ℕ) (goes_on : Bool) (phase : ℕ → Phase)
    → (if goes_on then phase else put j ended phase) k ≡ running
    → phase k ≡ running
round-running k j true phase h = h
round-running k j false phase h = put-running k j phase h

connect-running :
    (k j : ℕ) (phase : ℕ → Phase)
    → phase j ≡ starting
    → phase k ≢ starting
    → put j running phase k ≡ running
    → phase k ≡ running
connect-running k j phase at_start begun h = elim (Bool-cases (k == j)) [
  | inl same ↦ let here : k ≡ j = (==_iff k j).0 same in absurd (begun (rw here at_start))
  | inr other ↦ sym (put_ne j k running phase other) ∙ h
]

-- A task that has begun does not go back, and does not run again after its end.
pub move-begun :
    (k : ℕ) {ts ts' : Tasks} {log : List (ℕ × TcpTag)}
    → Tasks.Step ts log ts'
    → ts.phase k ≢ starting
    → (ts'.phase k ≢ starting) × (ts'.phase k ≡ running → ts.phase k ≡ running)
unfolding on_event
move-begun k {ts} (connect_step j h) begun =
    (put-begun k j running ts.phase (λ e. cc e) begun, connect-running k j ts.phase h begun)
move-begun k {ts} (refused_step j h) begun =
    (put-begun k j ended ts.phase (λ e. cc e) begun, put-running k j ts.phase)
move-begun k (event_step j (packet p) other h) begun = (begun, λ runs. runs)
move-begun k (event_step j undecoded other h) begun = (begun, λ runs. runs)
move-begun k {ts} (event_step j stream_end other h) begun =
    (put-begun k j ended ts.phase (λ e. cc e) begun, put-running k j ts.phase)
move-begun k (event_step j told other h) begun = (begun, λ runs. runs)
move-begun k (event_step j (tag t) other h) begun = absurd other
move-begun k (event_step j tags_end other h) begun = absurd other
move-begun k {ts} (event_step j panics other h) begun =
    (put-begun k j ended ts.phase (λ e. cc e) begun, put-running k j ts.phase)
move-begun k {ts} (tag_step j t rest h w) begun =
    (round-begun k j (fits t) ts.phase begun, round-running k j (fits t) ts.phase)
move-begun k {ts} (tags_end_step j h w gone) begun =
    (put-begun k j ended ts.phase (λ e. cc e) begun, put-running k j ts.phase)
move-begun k (queue_step j t t' e) begun = (begun, λ runs. runs)
move-begun k (consumer_step c) begun = (begun, λ runs. runs)

-- A task that was spawned has begun already, when the last one is served.
served-begun :
    (k j : ℕ) (st : Station)
    → IsServed k st
    → IsInUse k st.sys
    → j < st.sys.receiver.spawned
    → st.phase j ≢ starting
served-begun k j st served in_use h e = elim (Bool-cases (ltb j k)) [
  | inl before ↦
      let clash : ended ≡ starting = sym (served.older j (ltb→lt j k before)) ∙ e in cc clash
  | inr not_before ↦
      let same : j ≡ k = ground (arith, not_before, h, in_use.latest) in
      let clash : running ≡ starting = sym served.runs ∙ rw same at e in cc clash
]

-- A step that leaves the channel in use and revives no task.
pub IsServed-after :
    (k : ℕ) (st st' : Station)
    → IsServed k st
    → st'.sys.shared.tcp.pending_tcp ≡ st.sys.shared.tcp.pending_tcp
    → ((j : ℕ) → st.phase j ≡ ended → st'.phase j ≡ ended)
    → st'.phase k ≡ running
    → IsServed k st'
IsServed-after k st st' served channel over runs = record {
  runs = runs;
  channel = channel ∙ served.channel;
  older = λ j h. over j (served.older j h);
}

-- The served task ends only by itself, and only an older one takes its channel away.
pub move-IsServed :
    (k : ℕ) (st : Station) {log : List (ℕ × TcpTag)} {ts : Tasks}
    (move : Tasks.Step (tasks_of st) log ts)
    → IsAllowed st move
    → IsServed k st
    → IsInUse k st.sys
    → ts.phase k ≡ running
    → IsServed k (with_tasks ts st)
unfolding on_event
move-IsServed k st (connect_step j h) allowed served in_use runs =
    absurd (served-begun k j st served in_use allowed h)
move-IsServed k st (refused_step j h) allowed served in_use runs =
    absurd (served-begun k j st served in_use allowed h)
move-IsServed k st (event_step j (packet p) other h) allowed served in_use runs =
    IsServed-after k st _ served refl (λ i h. h) runs
move-IsServed k st (event_step j undecoded other h) allowed served in_use runs =
    IsServed-after k st _ served refl (λ i h. h) runs
move-IsServed k st (event_step j stream_end other h) allowed served in_use runs =
    IsServed-after k st _ served refl (λ i h. put-ended i j st.phase h) runs
move-IsServed k st (event_step j told other h) allowed served in_use runs =
    let stops : j + 1 < st.sys.receiver.spawned = rw (in_use.runs, in_use.connected) at allowed in
    let clash : ended ≡ running = sym (served.older j (omega (arith, stops, in_use.latest))) ∙ h in
    absurd (cc clash)
move-IsServed k st (event_step j (tag t) other h) allowed served in_use runs = absurd other
move-IsServed k st (event_step j tags_end other h) allowed served in_use runs = absurd other
move-IsServed k st (event_step j panics other h) allowed served in_use runs =
    IsServed-after k st _ served refl (λ i h. put-ended i j st.phase h) runs
move-IsServed k st (tag_step j t rest h w) allowed served in_use runs =
    IsServed-after k st _ served refl (λ i h. round-ended i j (fits t) st.phase h) runs
move-IsServed k st (tags_end_step j h w gone) allowed served in_use runs =
    IsServed-after k st _ served refl (λ i h. put-ended i j st.phase h) runs
move-IsServed k st (queue_step j t t' e) allowed served in_use runs =
    IsServed-after k st _ served refl (λ i h. h) runs
move-IsServed k st (consumer_step c) allowed served in_use runs = absurd allowed
