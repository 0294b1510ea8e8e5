-- ===== src/Ds/System/Ticks.antt =====
-- That the sending task of src/ds/conn.rs can tick in every state of the driver station.
use ds_rs.Prelude.{ℕ, suc, ◌+◌, ◌^◌, ◌≤◌, ◌<◌, ◌≡◌, refl, ap, ◌∙◌, true, some, List, ok, arith}
use ds_rs.Crates.{BytesCrate, Bitflags, Float32}
use ds_rs.Proto.Control.{Alliance}
use ds_rs.Proto.Outbound.Datagram.{Datagram, receive}
use ds_rs.Ds.SendState
use ds_rs.Ds.SendState.{SendState, control_bits}
use ds_rs.Ds.Backoff
use ds_rs.Ds.Backoff.{Attempt}
use ds_rs.Ds.Backoff.Waits.{after_failures, wait_after}
use ds_rs.Ds.State
use ds_rs.Ds.State.{DsState}
use ds_rs.Ds.Signal.{Address, Signal}
use ds_rs.Ds.Conn.Receiver.{signal}
use ds_rs.Ds.Conn.Sender.{Sender, SendError, Tick, max_wait, tick, on_signal}
use ds_rs.Ds.Conn.Sender.Ticks.{failures_after, recv_after, tick_lem}
use ds_rs.Ds.Conn.Sender.Kept.{sent_state}
use ds_rs.Ds.Conn.Sender.Run.{failures_after-le, on_signal-ok}
use ds_rs.Ds.System.{
  System, new, handle, Step, Reach, tick_step, panic_step, forward_step, traffic_step, part_step,
  signal_step, heard_step, begin_step, tcp_step, call_step, drop_step, here, next,
}
use ds_rs.Ds.System.Calls.{Reach-Called}
use ds_rs.Ds.System.Fit.{IsFit, receive-IsFit, take_part-IsFit, QueuesFit, perform-IsFit}

module _ (b : BytesCrate) (g : Bitflags) (f : Float32) where
  abbrev pub StepFits : {sys sys' : System} → Step b g f sys sys' → Type 0
  StepFits (call_step c ds e) = QueuesFit c
  StepFits _ = Unit {0}

  -- So many steps from the start, in which the interface queues tags that fit only.
  pub data Run (sys : System) : ℕ → System → Type 0 where
    at_start : Run sys 0 sys
    after :
        {n : ℕ} {mid end : System}
        → Run sys n mid
        → (st : Step b g f mid end) → StepFits st
        → Run sys (suc n) end

  pub Run-Reach : {sys end : System} {n : ℕ} → Run sys n end → Reach b g f sys end
  Run-Reach at_start = here
  Run-Reach (after r st fits) = next (Run-Reach r) st

  -- The backoff is that of some failures in a row, no more than there were steps.
  pub record Ready (n : ℕ) (sys : System) : Type 0 where
    pub failures : ℕ
    pub few : failures ≤ n
    pub backoff : sys.sender.backoff ≡ after_failures max_wait failures
    pub fit : IsFit sys.shared
    pub lives : sys.alive ≡ true

  -- What a tick leaves, by the theorem on it.
  abbrev ticked : ℕ → Attempt (Unit {0}) SendError → Sender → DsState → List ℕ → Tick
  ticked k sent task sh bytes = record {
    task = record task { backoff = after_failures max_wait (failures_after k sent) };
    shared = record sh { send = sent_state sh.send; recv = recv_after k sent sh.recv };
    datagram = bytes;
    slept = wait_after max_wait k;
  }

  tick-Ready :
      (n now : ℕ) (sent : Attempt (Unit {0}) SendError) (sys : System) (t : Tick)
      → n + 1 < 2 ^ 32
      → sys.shared.send.udp_seqnum < 65536
      → tick b g f now sent sys.sender sys.shared ≡ ok t
      → Ready n sys
      → Ready (suc n) (record sys { sender = t.task; shared = t.shared })
  tick-Ready n now sent sys t small seq e v =
      let (bytes, made, received) =
        tick_lem b g f now v.failures sent sys.sender sys.shared v.backoff (omega (arith, v.few))
          seq v.fit in
      let same : ticked v.failures sent sys.sender sys.shared bytes ≡ t = cc (made, e) in
      record {
        failures = failures_after v.failures sent;
        few = omega (arith, v.few, failures_after-le v.failures sent);
        backoff = rw (← same) refl;
        fit = rw (← same) refl;
        lives = v.lives;
      }

  forward-Ready :
      (n : ℕ) (s : Signal) (rest : List Signal) (task : Sender) (sh : DsState) (sys : System)
      → sys.shared.send.udp_seqnum < 65536
      → on_signal true (some s) sys.sender sys.shared ≡ ok (task, sh)
      → Ready n sys
      → Ready (suc n) (record sys { sender = task; shared = sh; forwards = rest })
  forward-Ready n s rest task sh sys seq e v =
      let (task', sh', j, made, back, less, ready) =
        on_signal-ok (some s) sys.sender sys.shared v.failures v.backoff (seq, v.fit) in
      let same : task' ≡ task = cc (made, e) in
      let same_shared : sh' ≡ sh = cc (made, e) in
      record {
        failures = j;
        few = omega (arith, v.few, less);
        backoff = rw (← same) back;
        fit = rw (← same_shared) ready.1;
        lives = v.lives;
      }

  -- A step that leaves the sending task alone.
  kept-Ready :
      (n : ℕ) (sys sys' : System)
      → sys'.sender ≡ sys.sender
      → sys'.alive ≡ sys.alive
      → IsFit sys'.shared
      → Ready n sys
      → Ready (suc n) sys'
  kept-Ready n sys sys' same alive fit v = record {
    failures = v.failures;
    few = omega (arith, v.few);
    backoff = ap (λ (task : Sender). task.backoff) same ∙ v.backoff;
    fit = fit;
    lives = alive ∙ v.lives;
  }

  Step-Ready :
      (n : ℕ) {sys sys' : System} (st : Step b g f sys sys')
      → StepFits st
      → n + 1 < 2 ^ 32
      → sys.shared.send.udp_seqnum < 65536
      → Ready n sys
      → Ready (suc n) sys'
  Step-Ready n {sys} (tick_step now sent t lives e) fits small seq v =
      tick-Ready n now sent sys t small seq e v
  Step-Ready n {sys} (panic_step now sent s p lives made e) fits small seq v =
      let (bytes, ticks, received) =
        tick_lem b g f now v.failures sent sys.sender sys.shared v.backoff (omega (arith, v.few))
          seq v.fit in
      absurd (cc (ticks, e))
  Step-Ready n {sys} (forward_step s rest task sh lives taken e) fits small seq v =
      forward-Ready n s rest task sh sys seq e v
  Step-Ready n {sys} (traffic_step e traffic runs) fits small seq v =
      kept-Ready n sys _ refl refl (receive-IsFit g sys.alive e sys.receiver sys.shared v.fit) v
  Step-Ready n {sys} (part_step p runs) fits small seq v =
      kept-Ready n sys _ refl refl (take_part-IsFit p sys.receiver sys.shared v.fit) v
  Step-Ready n {sys} (signal_step s rest runs taken) fits small seq v =
      kept-Ready n sys _ refl refl
        (receive-IsFit g sys.alive (signal s) sys.receiver sys.shared v.fit) v
  Step-Ready n {sys} (heard_step h m sent e) fits small seq v = kept-Ready n sys _ refl refl v.fit v
  Step-Ready n {sys} (begin_step k lt) fits small seq v = kept-Ready n sys _ refl refl v.fit v
  Step-Ready n {sys} (tcp_step e) fits small seq v = kept-Ready n sys _ refl refl v.fit v
  Step-Ready n {sys} (call_step c ds e) fits small seq v =
      kept-Ready n sys _ refl refl (perform-IsFit sys.running c (handle sys) ds e fits v.fit) v
  Step-Ready n {sys} drop_step fits small seq v = kept-Ready n sys _ refl refl v.fit v

module _ (b : BytesCrate) (g : Bitflags) (f : Float32) (ip : Address) (alliance : Alliance)
    (team_number : ℕ) where
  Run-seqnum :
      {n : ℕ} {sys : System}
      → Run b g f (new ip alliance team_number) n sys
      → sys.shared.send.udp_seqnum < 65536
  Run-seqnum r = (Reach-Called b g f ip alliance team_number here (Run-Reach b g f r)).2

  pub Run-Ready :
      {n : ℕ} {sys : System}
      → Run b g f (new ip alliance team_number) n sys
      → n < 2 ^ 32
      → Ready b g f n sys
  unfolding new State.new SendState.new Backoff.new
  Run-Ready at_start small = record {
    failures = 0;
    few = omega arith;
    backoff = refl;
    fit = refl;
    lives = refl;
  }
  Run-Ready (after {n = n} r st fits) small =
      Step-Ready b g f n st fits (omega arith) (Run-seqnum r) (Run-Ready r (omega arith))

  -- In every state that fewer than 2 ^ 32 - 1 steps of the tasks and the interface can reach from the
  -- start, in any order, while the interface queues tags that fit in their frames only: the sending
  -- task can tick, however its send ends, and does not panic. A receiver reads from its datagram the
  -- sequence number and the control byte of the state.
  pub Run-tick :
      {n : ℕ} {sys : System} (now : ℕ) (sent : Attempt (Unit {0}) SendError)
      → Run b g f (new ip alliance team_number) n sys
      → n + 1 < 2 ^ 32
      → (t : Tick) × (d : Datagram) × (tick b g f now sent sys.sender sys.shared ≡ ok t)
        × (receive t.datagram ≡ some d)
        × (d.seqnum ≡ sys.shared.send.udp_seqnum)
        × (d.control ≡ control_bits g sys.shared.send)
  Run-tick {sys = sys} now sent r small =
      let v = Run-Ready r (omega arith) in
      let (bytes, made, received) =
        tick_lem b g f now v.failures sent sys.sender sys.shared v.backoff (omega (arith, v.few))
          (Run-seqnum r) v.fit in
      (_, _, made, received, refl, refl)
