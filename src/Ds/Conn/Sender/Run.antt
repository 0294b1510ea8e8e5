-- ===== src/Ds/Conn/Sender/Run.antt =====
-- The loop of the sending task of src/ds/conn.rs: what it takes to stop it.
use ds_rs.Prelude.{
  ℕ, suc, ◌+◌, ◌%◌, ◌^◌, ◌≤◌, ◌<◌, ◌≡◌, refl, true, Option, none, some, List, [], ◌∷◌, All, length,
  Outcome, ok, ◌>>=◌, arith,
}
use ds_rs.Crates.{BytesCrate, Bitflags, Float32}
use ds_rs.Proto.Outbound.Datagram.{all_fit}
use ds_rs.Ds.Mode.{normal, simulation}
use ds_rs.Ds.SendState.{disable, reset_seqnum}
use ds_rs.Ds.Backoff
use ds_rs.Ds.Backoff.{Attempt, succeeded, failed}
use ds_rs.Ds.Backoff.Waits.{after_failures}
use ds_rs.Ds.State.{DsState}
use ds_rs.Ds.Signal.{Address, Signal, disconnect, new_target, new_mode}
use ds_rs.Ds.Conn.Sender.{Sender, SendError, max_wait, start, tick, on_signal}
use ds_rs.Ds.Conn.Sender.Ticks.{failures_after, recv_after, tick_lem}

-- What happens to the task: a tick at a time of the supplier, with a send that ends as given; a signal;
-- or a change of the shared state by the other tasks or the interface.
pub data Input : Type 0 where
  ticked : ℕ → Attempt (Unit {0}) SendError → Input
  signalled : Option Signal → Input
  changed : DsState → Input

module _ (b : BytesCrate) (g : Bitflags) (f : Float32) where
  -- The loop, while every bind and connect succeeds.
  unfoldable pub run_inputs : List Input → Sender → DsState → Outcome (Sender × DsState)
  run_inputs [] task sh = ok (task, sh)
  run_inputs (ticked now sent ∷ inputs) task sh = do
    t ← tick b g f now sent task sh
    run_inputs inputs t.task t.shared
  run_inputs (signalled s ∷ inputs) task sh = do
    (task', sh') ← on_signal true s task sh
    run_inputs inputs task' sh'
  run_inputs (changed sh' ∷ inputs) task sh = run_inputs inputs task sh'

-- A state from which a packet can be made and encoded.
abbrev pub IsSendable : DsState → Type 0
IsSendable sh = (sh.send.udp_seqnum < 65536) × (all_fit sh.send.pending_udp ≡ true)

-- The others leave such a state.
abbrev pub IsFair : Input → Type 0
IsFair (ticked now sent) = Unit {0}
IsFair (signalled s) = Unit {0}
IsFair (changed sh) = IsSendable sh

pub failures_after-le :
    (k : ℕ) (sent : Attempt (Unit {0}) SendError) → failures_after k sent ≤ suc k
failures_after-le k (succeeded u) = omega arith
failures_after-le k (failed e) = omega arith

-- What a signal leaves.
pub on_signal-ok :
    (s : Option Signal) (task : Sender) (sh : DsState) (k : ℕ)
    → task.backoff ≡ after_failures max_wait k
    → IsSendable sh
    → (task' : Sender) × (sh' : DsState) × (j : ℕ) × (on_signal true s task sh ≡ ok (task', sh'))
      × (task'.backoff ≡ after_failures max_wait j)
      × (j ≤ k)
      × IsSendable sh'
unfolding on_signal reset_seqnum disable Backoff.reset
on_signal-ok none task sh k e h = (task, sh, k, refl, e, omega arith, h)
on_signal-ok (some disconnect) task sh k e h = (task, sh, k, refl, e, omega arith, h)
on_signal-ok (some (new_mode normal)) task sh k e h = (task, sh, k, refl, e, omega arith, h)
on_signal-ok (some (new_mode simulation)) task sh k e h =
    (_, _, 0, refl, rw e refl, omega arith, (omega arith, h.1))
on_signal-ok (some (new_target ip)) task sh k e h =
    (_, _, 0, refl, rw e refl, omega arith, (omega arith, h.1))

module _ (b : BytesCrate) (g : Bitflags) (f : Float32) where
  run_inputs-from :
      (inputs : List Input) (task : Sender) (sh : DsState) (k : ℕ)
      → task.backoff ≡ after_failures max_wait k
      → k + length inputs < 2 ^ 32
      → IsSendable sh
      → All IsFair inputs
      → (task' : Sender) × (sh' : DsState) × (run_inputs b g f inputs task sh ≡ ok (task', sh'))
  unfolding run_inputs
  run_inputs-from [] task sh k e few h fair = (task, sh, refl)
  run_inputs-from (changed sh1 ∷ inputs) task sh k e few h (fair, fairs) =
      run_inputs-from inputs task sh1 k e (omega arith) fair fairs
  run_inputs-from (signalled s ∷ inputs) task sh k e few h (fair, fairs) =
      let (task1, sh1, j, made, back, less, ready) = on_signal-ok s task sh k e h in
      let (task2, sh2, ran) = run_inputs-from inputs task1 sh1 j back (omega arith) ready fairs in
      (task2, sh2, rw made ran)
  run_inputs-from (ticked now sent ∷ inputs) task sh k e few h (fair, fairs) =
      let (bytes, made, received) = tick_lem b g f now k sent task sh e (omega arith) h.0 h.1 in
      let task1 : Sender = record task {
        backoff = after_failures max_wait (failures_after k sent);
      } in
      let sh1 : DsState = record sh {
        send = record sh.send {
          pending_udp = [];
          pending_request = none;
          udp_seqnum = (sh.send.udp_seqnum + 1) % 65536;
        };
        recv = recv_after k sent sh.recv;
      } in
      let (task2, sh2, ran) =
        run_inputs-from inputs task1 sh1 (failures_after k sent) refl
          (omega (arith, failures_after-le k sent)) (omega arith, refl) fairs in
      (task2, sh2, rw made ran)

  -- From its start on, the sending task panics on no sequence of ticks, whose sends end in any way, of
  -- signals and of changes of the shared state, fewer than 2 ^ 32 of them, as long as every bind and
  -- connect succeeds and every state that the others leave has a 16-bit sequence number and queued
  -- tags that fit in their frames.
  run_inputs_lem :
      (ip : Address) (sh : DsState) (inputs : List Input)
      → IsSendable sh
      → length inputs < 2 ^ 32
      → All IsFair inputs
      → (task' : Sender) × (sh' : DsState) × (run_inputs b g f inputs (start ip) sh
          ≡ ok (task', sh'))
  unfolding Backoff.new
  run_inputs_lem ip sh inputs h few fair =
      run_inputs-from inputs (start ip) sh 0 refl (omega arith) h fair
