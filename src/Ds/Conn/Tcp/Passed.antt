-- ===== src/Ds/Conn/Tcp/Passed.antt =====
-- What becomes of the tags that `queue_tcp` of src/ds/state.rs accepts for the tasks `tcp_conn` of
-- src/ds/conn.rs.
use ds_rs.Prelude.{
  ℕ, ◌≡◌, ◌≢◌, refl, sym, ap, ◌∙◌, inl, inr, ◌==◌, ==_iff, Bool-cases, Option, none, some, List, [],
  ◌∷◌, ◌++◌, append-nil, append_assoc, if◌then◌else◌,
}
use ds_rs.Proto.Tcp.{TcpTag}
use ds_rs.Proto.Tcp.Frames.{fits}
use ds_rs.Ds.State.{TcpState}
use ds_rs.Ds.Conn.Tcp.{
  Event, packet, undecoded, stream_end, told, tag, tags_end, panics, consume, on_event,
}
use ds_rs.Ds.Conn.Tcp.Tasks.{
  starting, running, ended, Tasks, put, tags_of, after_round, IsOther, Step, connect_step,
  refused_step, event_step, tag_step, tags_end_step, queue_step, consumer_step, Run, here, next,
}
use ds_rs.Ds.Conn.Tcp.Phases.{put_self, put_ne, put_same, put-ended, round-ended}

-- The tags of a task among those accepted.
abbrev pub for_task : ℕ → List (ℕ × TcpTag) → List TcpTag
for_task k [] = []
for_task k ((j, t) ∷ log) = if k == j then t ∷ for_task k log else for_task k log

-- What a task has handed to its encoder, and what waits behind it.
abbrev pub passed : ℕ → Tasks → List TcpTag
passed k sys = sys.handed k ++ sys.waiting k

tags_of-consume : (consumer : Option ℕ) (p : _) → tags_of (consume consumer p) ≡ []
tags_of-consume none p = refl
tags_of-consume (some consumer) p = refl

pub round-passed :
    (k j : ℕ) (e : Event) (sys : Tasks)
    → tags_of (on_event e sys.shared).effects ≡ []
    → passed k (after_round j (on_event e sys.shared) sys) ≡ passed k sys ++ []
round-passed k j e sys quiet =
    rw
      (
        put_same j k _ sys.handed (ap (λ ts. sys.handed j ++ ts) quiet ∙ append-nil (sys.handed j)),
        append-nil (passed k sys),
      )
      refl

on_event-quiet : (e : Event) (tcp : TcpState) → IsOther e → tags_of (on_event e tcp).effects ≡ []
unfolding on_event
on_event-quiet (packet p) tcp other = tags_of-consume tcp.tcp_consumer p
on_event-quiet undecoded tcp other = refl
on_event-quiet stream_end tcp other = refl
on_event-quiet told tcp other = refl
on_event-quiet (tag t) tcp other = absurd other
on_event-quiet tags_end tcp other = absurd other
on_event-quiet panics tcp other = refl

fitting-passed :
    (k j : ℕ) (t : TcpTag) (rest : List TcpTag) (sys : Tasks)
    → sys.waiting j ≡ t ∷ rest
    → put j (sys.handed j ++ t ∷ []) sys.handed k ++ put j rest sys.waiting k ≡ passed k sys ++ []
fitting-passed k j t rest sys e = elim (Bool-cases (k == j)) [
  | inl same ↦
      let here : k ≡ j = (==_iff k j).0 same in
      rw
        (
          here,
          put_self j (sys.handed j ++ t ∷ []) sys.handed,
          put_self j rest sys.waiting,
          e,
          append-nil (sys.handed j ++ t ∷ rest),
        )
        (append_assoc (sys.handed j) (t ∷ []) rest)
  | inr other ↦
      rw (put_ne j k (sys.handed j ++ t ∷ []) sys.handed other, put_ne j k rest sys.waiting other)
        (sym (append-nil (passed k sys)))
]

tag-passed :
    (k j : ℕ) (t : TcpTag) (rest : List TcpTag) (sys : Tasks)
    → sys.waiting j ≡ t ∷ rest
    → (let end =
          after_round j
            (on_event (tag t) sys.shared)
            (record sys { waiting = put j rest sys.waiting }) in
        end.phase k ≢ ended → passed k end ≡ passed k sys ++ [])
unfolding on_event
tag-passed k j t rest sys e lives = elim (Bool-cases (fits t)) [
  | inl fit ↦ rw fit (fitting-passed k j t rest sys e)
  | inr long ↦ elim (Bool-cases (k == j)) [
    | inl same ↦
        let here : k ≡ j = (==_iff k j).0 same in
        absurd (lives (rw (long, here) (put_self j ended sys.phase)))
    | inr other ↦
        rw (put_ne j k (sys.handed j ++ _) sys.handed other, put_ne j k rest sys.waiting other)
          (sym (append-nil (passed k sys)))
  ]
]

queue-passed :
    (k j : ℕ) (t : TcpTag) (sys : Tasks)
    → sys.handed k ++ put j (sys.waiting j ++ t ∷ []) sys.waiting k
      ≡ passed k sys ++ for_task k ((j, t) ∷ [])
queue-passed k j t sys = elim (Bool-cases (k == j)) [
  | inl same ↦
      let here : k ≡ j = (==_iff k j).0 same in
      rw (same, here, put_self j (sys.waiting j ++ t ∷ []) sys.waiting)
        (sym (append_assoc (sys.handed j) (sys.waiting j) (t ∷ [])))
  | inr other ↦
      rw (other, put_ne j k (sys.waiting j ++ t ∷ []) sys.waiting other)
        (sym (append-nil (passed k sys)))
]

pub Step-passed :
    {sys end : Tasks} {log : List (ℕ × TcpTag)} (k : ℕ)
    → Step sys log end
    → end.phase k ≢ ended
    → passed k end ≡ passed k sys ++ for_task k log
unfolding on_event
Step-passed {sys} k (connect_step j h) lives = sym (append-nil (passed k sys))
Step-passed {sys} k (refused_step j h) lives = sym (append-nil (passed k sys))
Step-passed {sys} k (event_step j e other h) lives =
    round-passed k j e sys (on_event-quiet e sys.shared other)
Step-passed {sys} k (tag_step j t rest h w) lives = tag-passed k j t rest sys w lives
Step-passed {sys} k (tags_end_step j h w gone) lives = round-passed k j tags_end sys refl
Step-passed {sys} k (queue_step j t t' e) lives = queue-passed k j t' sys
Step-passed {sys} k (consumer_step c) lives = sym (append-nil (passed k sys))

-- A task that has ended stays so.
pub Step-ended :
    {sys end : Tasks} {log : List (ℕ × TcpTag)} (k : ℕ)
    → Step sys log end
    → sys.phase k ≡ ended
    → end.phase k ≡ ended
Step-ended {sys} k (connect_step j at_start) h = elim (Bool-cases (k == j)) [
  | inl same ↦
      let here : k ≡ j = (==_iff k j).0 same in
      let clash : starting ≡ ended = sym at_start ∙ rw here at h in absurd (cc clash)
  | inr other ↦ put_ne j k running sys.phase other ∙ h
]
Step-ended {sys} k (refused_step j at_start) h = put-ended k j sys.phase h
Step-ended {sys} k (event_step j e other at_run) h =
    round-ended k j (on_event e sys.shared).goes_on sys.phase h
Step-ended {sys} k (tag_step j t rest at_run w) h =
    round-ended k j (on_event (tag t) sys.shared).goes_on sys.phase h
Step-ended {sys} k (tags_end_step j at_run w gone) h =
    round-ended k j (on_event tags_end sys.shared).goes_on sys.phase h
Step-ended k (queue_step j t t' e) h = h
Step-ended k (consumer_step c) h = h

pub for_task-append :
    (k : ℕ) (log more : List (ℕ × TcpTag))
    → for_task k (log ++ more) ≡ for_task k log ++ for_task k more
for_task-append k [] more = refl
for_task-append k ((j, t) ∷ log) more = elim (Bool-cases (k == j)) [
  | inl same ↦ rw (same, for_task-append k log more) refl
  | inr other ↦ rw (other, for_task-append k log more) refl
]

pub Run-passed :
    {sys end : Tasks} {log : List (ℕ × TcpTag)} (k : ℕ)
    → Run sys log end
    → end.phase k ≢ ended
    → passed k end ≡ passed k sys ++ for_task k log
Run-passed {sys} k here lives = sym (append-nil (passed k sys))
Run-passed {sys} k (next {log} {more} r st) lives =
    rw
      (
        Step-passed k st lives,
        Run-passed k r (λ e. lives (Step-ended k st e)),
        for_task-append k log more,
      )
      (append_assoc (passed k sys) (for_task k log) (for_task k more))
