-- ===== src/Ds/Conn/Tcp/Tasks.antt =====
-- All the tasks `tcp_conn` of src/ds/conn.rs together, with the channels for tags between
-- `TcpState::queue_tcp` of src/ds/state.rs and them. A task and its channel have one number.

use ds_rs.Prelude.{
  ℕ, ◌≡◌, ◌≢◌, Bool, true, false, ◌==◌, some, List, [], ◌∷◌, ◌++◌, ok, if◌then◌else◌,
}
use ds_rs.Proto.Tcp.{TcpTag}
use ds_rs.Ds.State.{TcpState, set_tcp_consumer, queue_tcp}
use ds_rs.Ds.Conn.Tcp.{
  Event, packet, undecoded, stream_end, told, tag, tags_end, panics, Effect, consumed, sent, Round,
  begin, on_event,
}

pub data Phase : Type 0 where
  starting running ended : Phase

-- `waiting` has what is in the channel of each task, `handed` what each has handed to its encoder.
pub record Tasks : Type 0 where
  pub shared : TcpState
  pub phase : ℕ → Phase
  pub waiting : ℕ → List TcpTag
  pub handed : ℕ → List TcpTag

-- A function with the value at `k` replaced.
unfoldable pub put {ℓ} : {A : Type ℓ} → ℕ → A → (ℕ → A) → ℕ → A
put k a m j = if j == k then a else m j

-- The receiver of a channel is there while its task runs.
abbrev runs : Phase → Bool
runs starting = false
runs running = true
runs ended = false

abbrev pub is_open : Tasks → ℕ → Bool
is_open sys k = runs (sys.phase k)

abbrev pub tags_of : List Effect → List TcpTag
tags_of [] = []
tags_of (sent t ∷ effects) = t ∷ tags_of effects
tags_of (consumed consumer p ∷ effects) = tags_of effects

-- The tasks after a round of the task `k`.
abbrev pub after_round : ℕ → Round → Tasks → Tasks
after_round k r sys = record sys {
  shared = r.tcp;
  phase = if r.goes_on then sys.phase else put k ended sys.phase;
  handed = put k (sys.handed k ++ tags_of r.effects) sys.handed;
}

-- What does not come from the channel for tags.
abbrev pub IsOther : Event → Type 0
IsOther (packet p) = Unit {0}
IsOther undecoded = Unit {0}
IsOther stream_end = Unit {0}
IsOther told = Unit {0}
IsOther (tag t) = ⊥
IsOther tags_end = ⊥
IsOther panics = Unit {0}

-- One step; a tag that does not fit in its frame is taken from its channel, and the panic of the
-- encoder ends the task. The index has the tags that `queue_tcp` accepts, each for the task whose
-- channel is in use.
-- The only sender of a channel is the one in the shared state, so a channel has ended when that one
-- is gone and nothing waits.
pub data Step (sys : Tasks) : List (ℕ × TcpTag) → Tasks → Type 0 where
  connect_step :
      (k : ℕ)
      → sys.phase k ≡ starting
      → Step sys [] (record sys { shared = begin k sys.shared; phase = put k running sys.phase })
  refused_step :
      (k : ℕ) → sys.phase k ≡ starting → Step sys [] (record sys { phase = put k ended sys.phase })
  event_step :
      (k : ℕ) (e : Event)
      → IsOther e
      → sys.phase k ≡ running
      → Step sys [] (after_round k (on_event e sys.shared) sys)
  tag_step :
      (k : ℕ) (t : TcpTag) (rest : List TcpTag)
      → sys.phase k ≡ running
      → sys.waiting k ≡ t ∷ rest
      → Step sys [] (
          after_round k
            (on_event (tag t) sys.shared)
            (record sys { waiting = put k rest sys.waiting }))
  tags_end_step :
      (k : ℕ)
      → sys.phase k ≡ running
      → sys.waiting k ≡ []
      → sys.shared.pending_tcp ≢ some k
      → Step sys [] (after_round k (on_event tags_end sys.shared) sys)
  queue_step :
      (k : ℕ) (t t' : TcpTag)
      → queue_tcp (is_open sys) t sys.shared ≡ ok (k, t')
      → Step sys
          ((k, t') ∷ [])
          (record sys { waiting = put k (sys.waiting k ++ t' ∷ []) sys.waiting })
  consumer_step :
      (consumer : ℕ) → Step sys [] (record sys { shared = set_tcp_consumer consumer sys.shared })

-- Steps in any order, with all the tags accepted in them.
pub data Run (sys : Tasks) : List (ℕ × TcpTag) → Tasks → Type 0 where
  here : Run sys [] sys
  next :
      {log more : List (ℕ × TcpTag)} {mid end : Tasks}
      → Run sys log mid
      → Step mid more end
      → Run sys (log ++ more) end
