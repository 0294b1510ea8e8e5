-- ===== src/Ds/System/Targets.antt =====
-- Where the packets of the driver station of src/ds.rs and src/ds/conn.rs go, and in which mode, over
-- all the ways in which its tasks and its interface can interleave.
use ds_rs.Prelude.{false, ◌⊎◌, Bool-cases, ℕ, ◌≡◌, refl, sym, ap, ◌∙◌, inl, inr, true, append-nil}
use ds_rs.Crates.{BytesCrate, Bitflags, Float32}
use ds_rs.Proto.Control.{Alliance}
use ds_rs.Ds.SendState.Packet.{control-left}
use ds_rs.Ds.SendState
use ds_rs.Ds.State
use ds_rs.Ds.Signal.{Address}
use ds_rs.Ds.Conn.Receiver.{signal, receive}
use ds_rs.Ds.Conn.Sender.Kept.{tick-KeepsTick}
use ds_rs.Ds.System.{
  System, new, handle, forwarded, Step, Reach, tick_step, panic_step, forward_step, traffic_step,
  part_step, signal_step, heard_step, begin_step, tcp_step, call_step, drop_step, here, next,
}
use ds_rs.Ds.System.Channels.{
  target_after, mode_after, chosen_after, target_after-append, mode_after-append,
  chosen_after-append, target_after_taken, mode_after_taken, chosen_after_taken, PointsAt,
  receive-signal, receive-traffic,
}
use ds_rs.Ds.System.Choices.{
  IsChoice, on_signal-target, watch-mode, perform-KeepsCall, take_part-target, drop-after,
}

record Inv (first : Address) (sys : System) : Type 0 where
  mode : mode_after sys.signals sys.shared.send.dsmode ≡ sys.opmode
  target :
      sys.alive ≡ true
      → PointsAt sys.shared.send.dsmode
          (target_after sys.forwards sys.sender.target)
          sys.receiver.target_ip
  choice : IsChoice first sys.team_number (chosen_after sys.signals sys.receiver.target_ip)

module _ (b : BytesCrate) (g : Bitflags) (f : Float32) (first : Address) where
  Step-Inv : {sys sys' : System} → Step b g f sys sys' → Inv first sys → Inv first sys'
  Step-Inv {sys} (tick_step now sent t lives e) v =
      let kept = tick-KeepsTick b g f now sent sys.sender sys.shared t e in
      record {
        mode = rw kept.1 v.mode;
        target = λ alive. rw (kept.0, kept.1) (v.target alive);
        choice = v.choice;
      }
  Step-Inv {sys} (panic_step now sent s p lives made e) v =
      let left = control-left g f now sys.shared.send s p made in
      record { mode = rw left v.mode; target = λ alive. absurd (cc alive); choice = v.choice }
  Step-Inv {sys} (forward_step s rest task sh lives taken e) v =
      let (at, mode) = on_signal-target s sys.sender task sys.shared sh e in
      let moved : target_after sys.forwards sys.sender.target ≡ target_after rest task.target =
        target_after_taken sys.forwards s rest sys.sender.target taken
        ∙ ap (target_after rest) (sym at) in
      record {
        mode = rw mode v.mode;
        target = λ alive. rw (mode, ← moved) (v.target alive);
        choice = v.choice;
      }
  Step-Inv {sys} (traffic_step e traffic runs) v =
      let (mode, ip, none) = receive-traffic g sys.receiver sys.shared sys.alive e traffic in
      record {
        mode = rw mode v.mode;
        target = λ alive. rw (mode, ip, none, append-nil sys.forwards) (v.target alive);
        choice = rw ip v.choice;
      }
  Step-Inv {sys} (part_step p runs) v =
      let (ip, mode) = take_part-target p sys.receiver sys.shared in
      record {
        mode = rw mode v.mode;
        target = λ alive. rw (mode, ip) (v.target alive);
        choice = rw ip v.choice;
      }
  Step-Inv {sys} (signal_step s rest runs taken) v =
      let (mode, ip, at) =
        receive-signal g sys.receiver sys.shared sys.alive s
          (target_after sys.forwards sys.sender.target) v.target in
      record {
        mode = rw (mode, ← mode_after_taken sys.signals s rest sys.shared.send.dsmode taken) v.mode;
        target = λ alive.
            rw
              (target_after-append sys.forwards
                (forwarded (receive g sys.alive (signal s) sys.receiver sys.shared).effects)
                sys.sender.target)
              (at alive);
        choice =
            rw (ip, ← chosen_after_taken sys.signals s rest sys.receiver.target_ip taken) v.choice;
      }
  Step-Inv {sys} (heard_step h m sent e) v =
      let (mode, chosen) = watch-mode sys.running h sys.opmode m sent e in
      record {
        mode = rw (mode_after-append sys.signals sent sys.shared.send.dsmode, v.mode) mode;
        target = v.target;
        choice =
            rw
              (
                chosen_after-append sys.signals sent sys.receiver.target_ip,
                chosen (chosen_after sys.signals sys.receiver.target_ip),
              )
              v.choice;
      }
  Step-Inv {sys} (begin_step k h) v = record { mode = v.mode; target = v.target; choice = v.choice }
  Step-Inv {sys} (tcp_step e) v = record { mode = v.mode; target = v.target; choice = v.choice }
  Step-Inv {sys} (call_step c ds e) v =
      let (mode, after, choice) =
        perform-KeepsCall first sys.receiver.target_ip sys.running c (handle sys) ds e v.choice in
      record {
        mode = rw (mode, after sys.shared.send.dsmode) v.mode;
        target = λ alive. rw mode (v.target alive);
        choice = choice;
      }
  Step-Inv {sys} drop_step v =
      let (mode, chosen) = drop-after sys.running (handle sys) in
      record {
        mode = rw (mode sys.shared.send.dsmode) v.mode;
        target = v.target;
        choice = rw (chosen sys.receiver.target_ip) v.choice;
      }

  Reach-Inv : {sys sys' : System} → Inv first sys → Reach b g f sys sys' → Inv first sys'
  Reach-Inv v here = v
  Reach-Inv v (next r st) = Step-Inv st (Reach-Inv v r)

module _ (b : BytesCrate) (g : Bitflags) (f : Float32) (ip : Address) (alliance : Alliance)
    (team_number : ℕ) where
  new-Inv : Inv ip (new ip alliance team_number)
  unfolding new State.new SendState.new
  new-Inv = record { mode = refl; target = λ alive. refl; choice = inl refl }

  -- In every state that the tasks and the interface can reach from the start, in any order of their
  -- steps: the mode of the shared state, once `udp_conn` has taken the signals that wait, is the mode
  -- of the simulator task; and the packets go, once the sending task has taken what is forwarded, to
  -- the target of `udp_conn` in the normal mode, and in a simulation to the local host or to that
  -- target, unless the sending task has panicked. That target, once the signals are taken, is the
  -- address of the team number that the interface shows, or the one of USB, or the one given at the
  -- start.
  pub Reach-targets :
      {sys : System}
      → Reach b g f (new ip alliance team_number) sys
      → (mode_after sys.signals sys.shared.send.dsmode ≡ sys.opmode)
        × ((sys.alive ≡ false)
            ⊎ PointsAt sys.shared.send.dsmode
                (target_after sys.forwards sys.sender.target)
                sys.receiver.target_ip)
        × IsChoice ip sys.team_number (chosen_after sys.signals sys.receiver.target_ip)
  Reach-targets {sys} r =
      let v = Reach-Inv b g f ip new-Inv r in (v.mode, aimed (Bool-cases sys.alive) v, v.choice)
    where
      aimed :
          (sys.alive ≡ true) ⊎ (sys.alive ≡ false)
          → Inv ip sys
          → (sys.alive ≡ false)
            ⊎ PointsAt sys.shared.send.dsmode
                (target_after sys.forwards sys.sender.target)
                sys.receiver.target_ip
      aimed (inl lives) v = inr (v.target lives)
      aimed (inr dead) v = inl dead
