-- ===== src/Ds/Conn/Tcp/Closing.antt =====
-- What becomes of a task of src/ds/conn.rs that is told to disconnect, and of the tags for it.
use ds_rs.Prelude.{
  ℕ, ◌≡◌, ◌≢◌, refl, sym, ap, ◌∙◌, inl, inr, Bool, ◌==◌, ==_iff, Bool-cases, Option, none, some,
  List, [], ◌∷◌, ◌++◌, append-nil, ok, err, message,
}
use ds_rs.Proto.Tcp.{TcpTag}
use ds_rs.Proto.Tcp.Frames.{fits}
use ds_rs.Ds.State.{TcpState, set_tcp_tx, set_tcp_consumer, send_on, queue_tcp}
use ds_rs.Ds.Conn.Tcp.{
  Event, packet, undecoded, stream_end, told, tag, tags_end, panics, begin, on_event,
}
use ds_rs.Ds.Conn.Tcp.Tasks.{
  starting, running, ended, Tasks, is_open, after_round, Step, connect_step, refused_step,
  event_step, tag_step, tags_end_step, queue_step, consumer_step, Run, here, next,
}
use ds_rs.Ds.Conn.Tcp.Phases.{put_self, put-begun, round-begun}
use ds_rs.Ds.Conn.Tcp.Fitting.{
  fitting, lost, lost-fits, lost-long, fitting-long, fitting-behind, after_tag, tag-fits,
  tag-panics,
}
use ds_rs.Ds.Conn.Tcp.Passed.{for_task, for_task-append, passed, round-passed, Run-passed}

-- The task has begun, and its channel is no longer in use.
abbrev IsClosed : ℕ → Tasks → Type 0
IsClosed k sys = (sys.phase k ≢ starting) × (sys.shared.pending_tcp ≢ some k)

round-IsClosed :
    (k j : ℕ) (e : Event) (sys : Tasks)
    → IsClosed k sys
    → IsClosed k (after_round j (on_event e sys.shared) sys)
unfolding on_event set_tcp_tx
round-IsClosed k j (packet p) sys h = h
round-IsClosed k j undecoded sys h = h
round-IsClosed k j stream_end sys h = (put-begun k j ended sys.phase (λ e. cc e) h.0, h.1)
round-IsClosed k j told sys h = (h.0, λ e. cc e)
round-IsClosed k j (tag t) sys h = (round-begun k j (fits t) sys.phase h.0, h.1)
round-IsClosed k j panics sys h = (put-begun k j ended sys.phase (λ e. cc e) h.0, h.1)
round-IsClosed k j tags_end sys h = (put-begun k j ended sys.phase (λ e. cc e) h.0, h.1)

send_on-in_use :
    (opened : ℕ → Bool) (t t' : TcpTag) (k : ℕ) (tx : Option ℕ)
    → send_on opened t tx ≡ ok (k, t')
    → tx ≡ some k
send_on-in_use opened t t' k none e = cc e
send_on-in_use opened t t' k (some j) e = elim (Bool-cases (opened j)) [
  | inl o ↦ let e' : ok (j, t) ≡ ok (k, t') = rw o at e in let same : j ≡ k = cc e' in rw same refl
  | inr o ↦ let e' : err message ≡ ok (k, t') = rw o at e in cc e'
]

queue_tcp-in_use :
    (opened : ℕ → Bool) (t t' : TcpTag) (k : ℕ) (tcp : TcpState)
    → queue_tcp opened t tcp ≡ ok (k, t')
    → tcp.pending_tcp ≡ some k
unfolding queue_tcp
queue_tcp-in_use opened t t' k tcp e = send_on-in_use opened t t' k tcp.pending_tcp e

Step-IsClosed :
    {sys end : Tasks} {log : List (ℕ × TcpTag)} (k : ℕ)
    → Step sys log end
    → IsClosed k sys
    → IsClosed k end × (for_task k log ≡ [])
unfolding set_tcp_consumer begin set_tcp_tx
Step-IsClosed {sys} k (connect_step j at_start) h = (
  (
    put-begun k j running sys.phase (λ e. cc e) h.0,
    λ e. h.0 (let same : j ≡ k = cc e in rw same at at_start),
  ),
  refl,
)
Step-IsClosed {sys} k (refused_step j at_start) h =
    ((put-begun k j ended sys.phase (λ e. cc e) h.0, h.1), refl)
Step-IsClosed {sys} k (event_step j e other at_run) h = (round-IsClosed k j e sys h, refl)
Step-IsClosed {sys} k (tag_step j t rest at_run w) h = (round-IsClosed k j (tag t) sys h, refl)
Step-IsClosed {sys} k (tags_end_step j at_run w gone) h = (round-IsClosed k j tags_end sys h, refl)
Step-IsClosed {sys} k (queue_step j t t' e) h = (
  h,
  elim (Bool-cases (k == j)) [
    | inl same ↦ absurd (
        h.1 (
          let here : k ≡ j = (==_iff k j).0 same in
          rw here (queue_tcp-in_use (is_open sys) t t' j sys.shared e)))
    | inr other ↦ rw other refl
  ],
)
Step-IsClosed {sys} k (consumer_step c) h = (h, refl)

Run-IsClosed :
    {sys end : Tasks} {log : List (ℕ × TcpTag)} (k : ℕ)
    → Run sys log end
    → IsClosed k sys
    → IsClosed k end × (for_task k log ≡ [])
Run-IsClosed k here h = (h, refl)
Run-IsClosed k (next {log} {more} r st) h =
    let (closed, none_before) = Run-IsClosed k r h in
    let (closed', none_then) = Step-IsClosed k st closed in
    (closed', rw (for_task-append k log more, none_before, none_then) refl)

before :
    {sys mid end : Tasks} {log : List (ℕ × TcpTag)}
    → Step sys [] mid
    → Run mid log end
    → Run sys log end
before st here = next here st
before st (next r st') = next (before st r) st'

-- The task `k` has ended in a state that the tasks can reach: its encoder has got the tags that
-- waited, up to the first that does not fit.
abbrev pub EndsWith : ℕ → Tasks → Type 0
EndsWith k sys =
    (last : Tasks) × Run sys [] last
    × (last.phase k ≡ ended)
    × (last.waiting k ≡ lost (sys.waiting k))
    × (last.handed k ≡ sys.handed k ++ fitting (sys.waiting k))

IsClosed-EndsWith :
    (k : ℕ) (tags : List TcpTag) (sys : Tasks)
    → sys.phase k ≡ running
    → sys.shared.pending_tcp ≢ some k
    → sys.waiting k ≡ tags
    → EndsWith k sys
unfolding on_event
IsClosed-EndsWith k [] sys runs gone w = (
  after_round k (on_event tags_end sys.shared) sys,
  next here (tags_end_step k runs w gone),
  put_self k ended sys.phase,
  rw w refl,
  rw w (put_self k (sys.handed k ++ []) sys.handed),
)
IsClosed-EndsWith k (t ∷ tags) sys runs gone w =
    let mid : Tasks = after_tag k t tags sys in
    elim (Bool-cases (fits t)) [
      | inl fit ↦
          let (runs', waits, handed) = tag-fits k t tags sys fit runs in
          let (last, r, stopped, left, all) = IsClosed-EndsWith k tags mid runs' gone waits in
          (
            last,
            before (tag_step k t tags runs w) r,
            stopped,
            left ∙ ap lost waits ∙ sym (ap lost w ∙ lost-fits t tags fit),
            all
                ∙ fitting-behind t tags fit (sys.handed k) handed waits
                ∙ sym (ap (λ ts. sys.handed k ++ fitting ts) w),
          )
      | inr long ↦
          let (stopped, left, handed) = tag-panics k t tags sys long in
          (
            mid,
            next here (tag_step k t tags runs w),
            stopped,
            left ∙ sym (ap lost w ∙ lost-long t tags long),
            handed ∙ sym (ap (λ ts. sys.handed k ++ ts) (ap fitting w ∙ fitting-long t tags long)),
          )
    ]

-- When a TCP task takes a disconnect, the channel of every task that has begun is closed for good,
-- also that of a newer one: whatever steps follow, in any order, no tag is accepted for such a task.
-- While it still runs, what it has handed to its encoder and what waits stay the same tags in the
-- same order, and it can go on to its end: the encoder then gets all that waits, or if a tag is among
-- them that does not fit in its frame, those before the first such tag, on which it panics, and what
-- is behind it is lost.
pub told-EndsWith :
    (sys : Tasks) {end : Tasks} {log : List (ℕ × TcpTag)} (j k : ℕ)
    → sys.phase k ≢ starting
    → Run (after_round j (on_event told sys.shared) sys) log end
    → end.phase k ≡ running
    → (end.shared.pending_tcp ≢ some k)
      × (for_task k log ≡ [])
      × (passed k end ≡ passed k sys)
      × EndsWith k end
unfolding on_event set_tcp_tx
told-EndsWith sys {end} {log} j k begun r runs =
    let told_sys : Tasks = after_round j (on_event told sys.shared) sys in
    let (closed, none_accepted) = Run-IsClosed k r (begun, λ e. cc e) in
    let same : passed k end ≡ passed k sys =
      Run-passed k r (λ e. let clash : running ≡ ended = sym runs ∙ e in cc clash)
      ∙ rw none_accepted (
          append-nil (passed k told_sys)
          ∙ round-passed k j told sys refl
          ∙ append-nil (passed k sys)) in
    (closed.1, none_accepted, same, IsClosed-EndsWith k (end.waiting k) end runs closed.1 refl)
