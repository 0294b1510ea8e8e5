-- ===== src/Ds/System/Settle.antt =====
-- How the tasks of src/ds/conn.rs work off what waits in their channels.
use ds_rs.Prelude.{
  Bool, false, ◌⊎◌, inl, inr, ◌+◌, ◌<◌, ◌^◌, arith, ℕ, ◌≡◌, refl, sym, ap, ◌∙◌, true, some, List,
  [], ◌∷◌, All, ok, arith,
}
use ds_rs.Crates.{BytesCrate, Bitflags, Float32}
use ds_rs.Proto.Control.{Alliance}
use ds_rs.Ds.Mode.{normal, simulation}
use ds_rs.Ds.SendState
use ds_rs.Ds.State.{DsState}
use ds_rs.Ds.Signal.{Address, Signal, disconnect, new_target, new_mode}
use ds_rs.Ds.Conn.Receiver.{Receiver, signal, continue, receive}
use ds_rs.Ds.Conn.Sender.{Sender, on_signal}
use ds_rs.Ds.System.{
  System, new, keeps_running, after_round, Reach, forward_step, signal_step, here, next,
}
use ds_rs.Ds.System.Channels.{
  PointsAt, PointsAt-refl, chosen_after, chosen_after-append, receive-signal,
}
use ds_rs.Ds.System.Targets.{Reach-targets}
use ds_rs.Ds.System.Ticks.{Run, Run-Reach, Run-Ready}

-- A signal other than the one that ends `udp_conn`.
abbrev pub IsUseful : Signal → Type 0
IsUseful disconnect = ⊥
IsUseful (new_target ip) = Unit {0}
IsUseful (new_mode m) = Unit {0}

receive-IsUseful :
    (g : Bitflags) (listening : Bool) (s : Signal) (task : Receiver) (sh : DsState)
    → listening ≡ true
    → IsUseful s
    → (receive g listening (signal s) task sh).flow ≡ continue
unfolding receive
receive-IsUseful g listening disconnect task sh lives h = absurd h
receive-IsUseful g listening (new_target ip) task sh lives h = rw lives refl
receive-IsUseful g listening (new_mode normal) task sh lives h = rw lives (ground arith)
receive-IsUseful g listening (new_mode simulation) task sh lives h = rw lives (ground arith)

receive-chosen :
    (g : Bitflags) (listening : Bool) (s : Signal) (task : Receiver) (sh : DsState)
    → (receive g listening (signal s) task sh).task.target_ip ≡ chosen_after (s ∷ []) task.target_ip
receive-chosen g listening s task sh =
    (receive-signal g task sh listening s task.target_ip
      (λ lives. PointsAt-refl sh.send.dsmode task.target_ip)).1

on_signal-true :
    (s : Signal) (task : Sender) (sh : DsState)
    → (p : Sender × DsState) × (on_signal true (some s) task sh ≡ ok p)
      × (p.1.send.dsmode ≡ sh.send.dsmode)
unfolding on_signal SendState.disable SendState.reset_seqnum
on_signal-true disconnect task sh = (_, refl, refl)
on_signal-true (new_target ip) task sh = (_, refl, refl)
on_signal-true (new_mode normal) task sh = (_, refl, refl)
on_signal-true (new_mode simulation) task sh = (_, refl, refl)

module _ (b : BytesCrate) (g : Bitflags) (f : Float32) where
  Reach_trans :
      {sys mid end : System} → Reach b g f sys mid → Reach b g f mid end → Reach b g f sys end
  Reach_trans r here = r
  Reach_trans r (next r' st) = next (Reach_trans r r') st

  -- `udp_conn` takes all that waits, and has the target that was chosen last then.
  drain_signals :
      (signals : List Signal) (sys : System)
      → sys.signals ≡ signals
      → sys.running ≡ true
      → sys.alive ≡ true
      → All IsUseful signals
      → (end : System) × Reach b g f sys end
        × (end.signals ≡ [])
        × (end.running ≡ true)
        × (end.alive ≡ true)
        × (end.opmode ≡ sys.opmode)
        × (end.receiver.target_ip ≡ chosen_after signals sys.receiver.target_ip)
  drain_signals [] sys waits runs lives useful = (sys, here, waits, runs, lives, refl, refl)
  drain_signals (s ∷ rest) sys waits runs lives (first, useful) =
      let r = receive g sys.alive (signal s) sys.receiver sys.shared in
      let mid = after_round rest r sys in
      let runs1 : mid.running ≡ true =
        ap keeps_running (receive-IsUseful g sys.alive s sys.receiver sys.shared lives first) in
      let (end, r', none, runs2, lives2, same, chosen) =
        drain_signals rest mid refl runs1 lives useful in
      (
        end,
        Reach_trans (next here (signal_step s rest runs waits)) r',
        none,
        runs2,
        lives2,
        same,
        chosen
            ∙ ap (chosen_after rest) (receive-chosen g sys.alive s sys.receiver sys.shared)
            ∙ sym (chosen_after-append (s ∷ []) rest sys.receiver.target_ip),
      )

  -- The sending task takes all that is forwarded.
  drain_forwards :
      (forwards : List Signal) (sys : System)
      → sys.forwards ≡ forwards
      → sys.alive ≡ true
      → (end : System) × Reach b g f sys end
        × (end.forwards ≡ [])
        × (end.signals ≡ sys.signals)
        × (end.running ≡ sys.running)
        × (end.alive ≡ true)
        × (end.opmode ≡ sys.opmode)
        × (end.receiver ≡ sys.receiver)
  drain_forwards [] sys waits lives = (sys, here, waits, refl, refl, lives, refl, refl)
  drain_forwards (s ∷ rest) sys waits lives =
      let (p, made, mode) = on_signal-true s sys.sender sys.shared in
      let mid : System = record sys { sender = p.0; shared = p.1; forwards = rest } in
      let (end, r, idle, none, runs, lives2, same, kept) = drain_forwards rest mid refl lives in
      (
        end,
        Reach_trans (next here (forward_step s rest p.0 p.1 lives waits made)) r,
        idle,
        none,
        runs,
        lives2,
        same,
        kept,
      )

  aimed : (sys : System) (P : Type 0) → sys.alive ≡ true → (sys.alive ≡ false) ⊎ P → P
  aimed sys P lives (inl dead) = absurd (cc (lives, dead))
  aimed sys P lives (inr at) = at

  -- From every state that fewer than 2 ^ 32 - 1 steps can reach, while the interface queues tags that
  -- fit in their frames only, in which `udp_conn` runs and no disconnect waits: the sending task has
  -- not panicked, and the tasks can work off their channels, if `udp_conn` takes the signals before it
  -- polls its socket again. In the state that they reach then nothing waits, both tasks still run, the
  -- mode of the shared state is that of the simulator task, and the packets go to the address that
  -- was chosen last or, in a simulation, to the local host or to that address.
  pub Reach-settles :
      (ip : Address) (alliance : Alliance) (team_number : ℕ) {n : ℕ} {sys : System}
      → Run b g f (new ip alliance team_number) n sys
      → n + 1 < 2 ^ 32
      → sys.running ≡ true
      → All IsUseful sys.signals
      → (sys.alive ≡ true)
        × (end : System) × Reach b g f sys end
        × (end.signals ≡ [])
        × (end.forwards ≡ [])
        × (end.running ≡ true)
        × (end.alive ≡ true)
        × (end.shared.send.dsmode ≡ sys.opmode)
        × PointsAt sys.opmode end.sender.target (chosen_after sys.signals sys.receiver.target_ip)
  Reach-settles ip alliance team_number {sys = sys} run few runs useful =
      let lives = (Run-Ready b g f ip alliance team_number run (omega arith)).lives in
      let r = Run-Reach b g f run in
      let (mid, r1, none, runs1, lives1, same1, chosen) =
        drain_signals sys.signals sys refl runs lives useful in
      let (end, r2, idle, none2, runs2, lives2, same2, kept) =
        drain_forwards mid.forwards mid refl lives1 in
      let (mode, at, choice) =
        Reach-targets b g f ip alliance team_number (Reach_trans (Reach_trans r r1) r2) in
      let settled : end.shared.send.dsmode ≡ sys.opmode =
        rw (none2 ∙ none) at mode ∙ same2 ∙ same1 in
      let last : end.receiver.target_ip ≡ chosen_after sys.signals sys.receiver.target_ip =
        ap (λ (task : Receiver). task.target_ip) kept ∙ chosen in
      (
        lives,
        end,
        Reach_trans r1 r2,
        none2 ∙ none,
        idle,
        runs2 ∙ runs1,
        lives2,
        settled,
        rw (idle, settled, last) at (aimed end _ lives2 at),
      )
