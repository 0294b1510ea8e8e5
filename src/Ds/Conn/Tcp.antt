-- ===== src/Ds/Conn/Tcp.antt =====
-- The task `tcp_conn` of src/ds/conn.rs. It is known by a number, as its channel for tags is.
pub mod Run
pub mod Tasks
pub mod Phases
pub mod Fitting
pub mod Passed
pub mod Closing
use ds_rs.Prelude.{
  ℕ, ◌≡◌, refl, Bool, true, false, Option, none, some, List, [], ◌∷◌, err, message, if◌then◌else◌,
}
use ds_rs.Proto.Tcp.{TcpTag, TcpPacket}
use ds_rs.Proto.Tcp.Frames.{fits}
use ds_rs.Ds.State.{TcpState, set_tcp_tx, queue_tcp}

-- What the `select!` of the loop delivers: a packet, a frame that does not decode, the end of the
-- stream, anything on the channel from `udp_conn` or its end, a tag to send, the end of the tags; or
-- that the decoder or the consumer panics, on a frame that comes.
pub data Event : Type 0 where
  packet : TcpPacket → Event
  undecoded : Event
  stream_end : Event
  told : Event
  tag : TcpTag → Event
  tags_end : Event
  panics : Event

-- A call of the consumer with a packet, and a tag handed to the encoder.
pub data Effect : Type 0 where
  consumed : ℕ → TcpPacket → Effect
  sent : TcpTag → Effect

pub record Round : Type 0 where
  pub tcp : TcpState
  pub effects : List Effect
  pub goes_on : Bool

-- The start of the task, once it is connected.
unfoldable pub begin : ℕ → TcpState → TcpState
begin task tcp = set_tcp_tx (some task) tcp

abbrev pub consume : Option ℕ → TcpPacket → List Effect
consume none p = []
consume (some consumer) p = consumed consumer p ∷ []

-- A round of the loop. A panic ends the task; the encoder panics on a tag that does not fit in its
-- frame.
unfoldable pub on_event : Event → TcpState → Round
on_event (packet p) tcp = record { tcp = tcp; effects = consume tcp.tcp_consumer p; goes_on = true }
on_event undecoded tcp = record { tcp = tcp; effects = []; goes_on = true }
on_event stream_end tcp = record { tcp = tcp; effects = []; goes_on = false }
on_event told tcp = record { tcp = set_tcp_tx none tcp; effects = []; goes_on = true }
on_event (tag t) tcp = record {
  tcp = tcp;
  effects = if fits t then sent t ∷ [] else [];
  goes_on = fits t;
}
on_event tags_end tcp = record { tcp = tcp; effects = []; goes_on = false }
on_event panics tcp = record { tcp = tcp; effects = []; goes_on = false }

-- What later events, of any of the tasks, leave of the shared state.
run_events : List Event → TcpState → TcpState
run_events [] tcp = tcp
run_events (e ∷ events) tcp = run_events events (on_event e tcp).tcp

run_events-none :
    (events : List Event) (tcp : TcpState)
    → tcp.pending_tcp ≡ none
    → (run_events events tcp).pending_tcp ≡ none
unfolding run_events on_event set_tcp_tx
run_events-none [] tcp h = h
run_events-none (told ∷ events) tcp h = run_events-none events (set_tcp_tx none tcp) refl
run_events-none (packet p ∷ events) tcp h = run_events-none events tcp h
run_events-none (undecoded ∷ events) tcp h = run_events-none events tcp h
run_events-none (stream_end ∷ events) tcp h = run_events-none events tcp h
run_events-none (tag t ∷ events) tcp h = run_events-none events tcp h
run_events-none (tags_end ∷ events) tcp h = run_events-none events tcp h
run_events-none (panics ∷ events) tcp h = run_events-none events tcp h

-- A task that is told to stop takes away the channel in use, also that of a task that began after
-- it: from then on, whatever the tasks go through until another one begins, a tag that is queued is
-- refused, however many channels are open.
queue_tcp-told :
    (newer : ℕ) (is_open : ℕ → Bool) (t : TcpTag) (later : List Event) (tcp : TcpState)
    → queue_tcp is_open t (run_events (told ∷ later) (begin newer tcp)) ≡ err message
unfolding queue_tcp run_events on_event begin set_tcp_tx
queue_tcp-told newer is_open t later tcp =
    rw (run_events-none later (on_event told (begin newer tcp)).tcp refl) refl
