-- ===== src/Ds/Conn/Receiver/Lifetime.antt =====
-- How long the loop of `udp_conn` in src/ds/conn.rs runs, and what `DriverStation::new` in src/ds.rs
-- waits for.
use ds_rs.Prelude.{
  ℕ, ◌≡◌, refl, Bool, true, Option, none, some, List, [], ◌∷◌, ◌++◌, append-nil, All, Outcome, ok,
  err, panicked, arith,
}
use ds_rs.Crates.{BytesCrate, Bitflags, Float32}
use ds_rs.Proto.Inbound.{UdpResponsePacket}
use ds_rs.Proto.Udp.{decode_datagram}
use ds_rs.Proto.Udp.Codec.{decode_datagram-again}
use ds_rs.Ds.Mode.{normal, simulation}
use ds_rs.Ds.State.{DsState}
use ds_rs.Ds.Signal.{new_mode}
use ds_rs.Ds.Conn.Receiver.{
  Receiver, UtcNow, Event, packet, undecoded, decoder_panics, silence, signal, Flow, continue,
  return, fail, panic, Round, receive,
}

-- What is left of the loop after a round, given the loop on the events that follow.
abbrev goes_on : Round → (Receiver → DsState → Round) → Flow → Round
goes_on r rest continue =
    let r' = rest r.task r.shared in record r' { effects = r.effects ++ r'.effects }
goes_on r rest return = r
goes_on r rest fail = r
goes_on r rest panic = r

-- The loop over a list of events, each with whether the sending task listens. It is still running
-- after them if its flow is `continue`. The events are any; behind a packet, the socket delivers what
-- `poll` makes of the bytes that the codec has left.
unfoldable pub run_loop : Bitflags → List (Bool × Event) → Receiver → DsState → Round
run_loop g [] task sh = record { task = task; shared = sh; effects = []; flow = continue }
run_loop g ((listening, e) ∷ events) task sh =
    let r = receive g listening e task sh in goes_on r (run_loop g events) r.flow

-- What a poll of the socket delivers, given the bytes that the codec is called on: those of a new
-- datagram, or what it has left of one, as `UdpFramed` calls it until it answers that there is no
-- further packet, on which the socket is silent.
abbrev pub delivered : UtcNow → Outcome (Option UdpResponsePacket × List ℕ) → Event
delivered now (ok (some p, rest)) = packet now p
delivered now (ok (none, rest)) = silence
delivered now (err e) = undecoded
delivered now panicked = decoder_panics

unfoldable pub poll : BytesCrate → Bitflags → Float32 → UtcNow → List ℕ → Event
poll b g f now src = delivered now (decode_datagram b g f src)

-- The events without a datagram that can happen while `DriverStation::new` is waiting: its caller has
-- no handle yet, so the only signals are those of the simulator task.
abbrev pub IsEarly : Bool × Event → Type 0
IsEarly (listening, silence) = Unit {0}
IsEarly (listening, signal (new_mode m)) = listening ≡ true
IsEarly _ = ⊥

receive-early :
    (g : Bitflags) (listening : Bool) (e : Event) (task : Receiver) (sh : DsState)
    → IsEarly (listening, e)
    → (receive g listening e task sh).flow ≡ continue
unfolding receive
receive-early g listening silence task sh h = ground arith
receive-early g listening (signal (new_mode normal)) task sh h = rw h (ground arith)
receive-early g listening (signal (new_mode simulation)) task sh h = rw h (ground arith)
receive-early g listening _ task sh h = absurd h

-- The loop behind such events ends as the loop on what follows, from some state.
pub run_loop-early :
    (g : Bitflags) (early : List (Bool × Event)) (task : Receiver) (sh : DsState)
    → All IsEarly early
    → (task' : Receiver) × (sh' : DsState) × ((later : List (Bool × Event))
        → (run_loop g (early ++ later) task sh).flow ≡ (run_loop g later task' sh').flow)
unfolding run_loop
run_loop-early g [] task sh h = (task, sh, λ later. refl)
run_loop-early g ((listening, e) ∷ early) task sh (first, rest) =
    let r = receive g listening e task sh in
    let (task', sh', same) = run_loop-early g early r.task r.shared rest in
    (task', sh', λ later. rw (receive-early g listening e task sh first) (same later))

-- So on such events alone it does not end.
pub run_loop-waits :
    (g : Bitflags) (early : List (Bool × Event)) (task : Receiver) (sh : DsState)
    → All IsEarly early
    → (run_loop g early task sh).flow ≡ continue
unfolding run_loop
run_loop-waits g early task sh h =
    let (task', sh', same) = run_loop-early g early task sh h in rw (append-nil early) at (same [])

module _ (b : BytesCrate) (g : Bitflags) (f : Float32) where
  -- A datagram that decodes, and any such events before the socket is polled again: the loop panics.
  pub run_loop-datagram :
      (now now' : UtcNow) (src rest : List ℕ) (answer : Option UdpResponsePacket)
      (between later : List (Bool × Event)) (l l' : Bool) (task : Receiver) (sh : DsState)
      → decode_datagram b g f src ≡ ok (answer, rest)
      → All IsEarly between
      → (run_loop g
          ((l, poll b g f now src) ∷ (between ++ (l', poll b g f now' rest) ∷ later))
          task
          sh).flow
        ≡ panic
  unfolding poll run_loop receive
  run_loop-datagram now now' src rest answer between later l l' task sh e early =
      let ((p, some_p), whole, again) = decode_datagram-again b g f src rest answer e in
      let first : poll b g f now src ≡ packet now p = rw (e, some_p) refl in
      let second : poll b g f now' rest ≡ decoder_panics = rw again refl in
      let r = receive g l (packet now p) task sh in
      let (task', sh', same) = run_loop-early g between r.task r.shared early in
      let behind : (run_loop g (between ++ (l', decoder_panics) ∷ later) r.task r.shared).flow
          ≡ panic =
        same ((l', decoder_panics) ∷ later) in
      rw (first, second) behind
