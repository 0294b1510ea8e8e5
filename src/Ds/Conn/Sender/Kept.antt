-- ===== src/Ds/Conn/Sender/Kept.antt =====
-- What a tick and a signal of the sending task of src/ds/conn.rs leave as it was.
use ds_rs.Prelude.{
  ℕ, ◌+◌, ◌%◌, ◌≡◌, refl, Option, none, List, [], Outcome, ok, err, panicked, ◌>>=◌,
}
use ds_rs.Crates.{BytesCrate, Bitflags, Float32}
use ds_rs.Proto.Outbound.{encode}
use ds_rs.Ds.SendState.{SendState, increment_seqnum}
use ds_rs.Ds.SendState.Packet.{packet_of, control_lem}
use ds_rs.Ds.Backoff.{ExponentialBackoff, Attempt, Ran, run}
use ds_rs.Ds.State.{DsState}
use ds_rs.Ds.Conn.Sender.{Sender, SendError, Tick, after_send, tick}

-- The state that a tick sends from, after it.
abbrev pub sent_state : SendState → SendState
sent_state s = record s {
  pending_udp = [];
  pending_request = none;
  udp_seqnum = (s.udp_seqnum + 1) % 65536;
}

abbrev finish :
    Sender → DsState → List ℕ → ExponentialBackoff × Option ℕ × Ran (Unit {0}) SendError → Tick
finish task sh v (backoff, slept, result) = record {
  task = record task { backoff = backoff };
  shared = record sh { send = sent_state sh.send; recv = after_send result sh.recv };
  datagram = v;
  slept = slept;
}

abbrev KeepsTick : Sender → DsState → Tick → Type 0
KeepsTick task sh t =
    (t.task.target ≡ task.target) × (t.shared.send ≡ sent_state sh.send) × (t.shared.tcp ≡ sh.tcp)

run-KeepsTick :
    (task : Sender) (sh : DsState) (v : List ℕ)
    (o : Outcome (ExponentialBackoff × Option ℕ × Ran (Unit {0}) SendError)) (t : Tick)
    → (do r ← o; ok (finish task sh v r)) ≡ ok t
    → KeepsTick task sh t
run-KeepsTick task sh v (ok r) t e =
    let same : finish task sh v r ≡ t = cc e in rw (← same) (refl, refl, refl)
run-KeepsTick task sh v (err x) t e = absurd (cc e)
run-KeepsTick task sh v panicked t e = absurd (cc e)

encode-KeepsTick :
    (task : Sender) (sh : DsState) (sent : Attempt (Unit {0}) SendError) (o : Outcome (List ℕ))
    (t : Tick)
    → (do v ← o; r ← run task.backoff sent; ok (finish task sh v r)) ≡ ok t
    → KeepsTick task sh t
encode-KeepsTick task sh sent (ok v) t e = run-KeepsTick task sh v (run task.backoff sent) t e
encode-KeepsTick task sh sent (err x) t e = absurd (cc e)
encode-KeepsTick task sh sent panicked t e = absurd (cc e)

-- A tick that ends keeps the address and the state of TCP, and of the state that it sends from it
-- changes the queue, the request and the sequence number only.
pub tick-KeepsTick :
    (b : BytesCrate) (g : Bitflags) (f : Float32) (now : ℕ) (sent : Attempt (Unit {0}) SendError)
    (task : Sender) (sh : DsState) (t : Tick)
    → tick b g f now sent task sh ≡ ok t
    → KeepsTick task sh t
unfolding tick increment_seqnum
tick-KeepsTick b g f now sent task sh t e =
    encode-KeepsTick task sh sent (encode b (packet_of g f now sh.send)) t
      (rw (control_lem g f now sh.send) at e)
