-- ===== src/Tests/Systems.antt =====
-- Instances for the composed driver station of src/ds.rs and src/ds/conn.rs.
use ds_rs.Prelude.{◌⊎◌, ◌<◌, ◌≡◌, refl, Bool, true, false, ◌&&◌, some, [], ◌∷◌, ok, arith}
use ds_rs.Crates.Reference.{bytes, flags, float}
use ds_rs.Proto.Control.{Alliance, control_estop}
use ds_rs.Ds.Mode.{simulation}
use ds_rs.Ds.SendState
use ds_rs.Ds.SendState.{SendState, control_bits}
use ds_rs.Ds.Backoff.{failed}
use ds_rs.Ds.State
use ds_rs.Ds.Signal.{Address, new_target, new_mode}
use ds_rs.Ds.Conn.Receiver
use ds_rs.Ds.Conn.Receiver.{Receiver}
use ds_rs.Ds.Conn.Sender.{Tick, refused, tick}
use ds_rs.Ds.Conn.Simulator.{something, watch}
use ds_rs.Ds.DriverStation
use ds_rs.Ds.DriverStation.{DriverStation, usb_address, set_use_usb}
use ds_rs.Ds.DriverStation.Requests.{call_set_use_usb, call_estop, call_enable, perform}
use ds_rs.Ds.System
use ds_rs.Ds.System.{System, Reach, call_step, heard_step, signal_step, here, next}
use ds_rs.Ds.System.Calls.{Called, Reach-Called}
use ds_rs.Ds.System.Channels.{mode_after, chosen_after, target_after, PointsAt}
use ds_rs.Ds.System.Choices.{IsChoice}
use ds_rs.Ds.System.Targets.{Reach-targets}
use ds_rs.Ds.System.Settle.{Reach-settles}
use ds_rs.Ds.System.Ticks.{Run, at_start, after, Run-tick}
use ds_rs.Proto.Outbound.Datagram.{Datagram, receive}

abbrev pub robot : Address
robot = b'r' ∷ []

abbrev pub blue : Alliance
blue = record { station = 3 }

abbrev fresh : System
fresh = System.new robot blue 1

-- The interface chooses USB, and the simulator task hears a simulator.
abbrev chosen : System
chosen = record fresh { signals = new_target usb_address ∷ [] }

abbrev heard : System
heard = record chosen {
  opmode = simulation;
  signals = new_target usb_address ∷ new_mode simulation ∷ [];
}

choose : Reach bytes flags float fresh chosen
unfolding System.new perform set_use_usb
choose = next here (call_step (call_set_use_usb true) _ refl)

hear : Reach bytes flags float fresh heard
unfolding System.new watch
hear = next choose (heard_step something simulation (new_mode simulation ∷ []) refl)

-- `udp_conn` takes both signals, and the sending task none yet.
abbrev moved : System
moved = record heard {
  receiver = record heard.receiver { target_ip = usb_address };
  signals = new_mode simulation ∷ [];
  forwards = new_target usb_address ∷ [];
}

abbrev taken : System
taken = record moved {
  shared = record moved.shared { send = record moved.shared.send { dsmode = simulation } };
  signals = [];
  forwards = new_target usb_address ∷ new_mode simulation ∷ [];
}

take_both : Reach bytes flags float fresh taken
unfolding System.new State.new SendState.new SendState.set_ds_mode Receiver.receive
take_both =
    next (next hear (signal_step (new_target usb_address) (new_mode simulation ∷ []) refl refl))
      (signal_step (new_mode simulation) [] refl refl)

Reach-targets_example :
    (mode_after [] simulation ≡ simulation)
    × ((true ≡ false) ⊎ PointsAt simulation (target_after taken.forwards robot) usb_address)
    × IsChoice robot 1 (chosen_after taken.signals usb_address)
unfolding System.new
Reach-targets_example = Reach-targets bytes flags float robot blue 1 take_both

-- The same two steps, counted.
hear_run : Run bytes flags float fresh 2 heard
unfolding System.new perform set_use_usb watch
hear_run =
    after (after at_start (call_step (call_set_use_usb true) _ refl) tt)
      (heard_step something simulation (new_mode simulation ∷ []) refl) tt

Reach-settles_example :
    (◌≡◌ {A = Bool} true true)
    × (end : System) × Reach bytes flags float heard end
    × (end.signals ≡ [])
    × (end.forwards ≡ [])
    × (end.running ≡ true)
    × (end.alive ≡ true)
    × (end.shared.send.dsmode ≡ simulation)
    × PointsAt simulation end.sender.target usb_address
unfolding System.new
Reach-settles_example =
    Reach-settles bytes flags float robot blue 1 hear_run (omega arith) refl (tt, (tt, tt))

-- One step from the start.
choose_run : Run bytes flags float fresh 1 chosen
unfolding System.new perform set_use_usb
choose_run = after at_start (call_step (call_set_use_usb true) _ refl) tt

Run-tick_example :
    (t : Tick) × (d : Datagram) × (tick bytes flags float 7
        (failed refused)
        chosen.sender
        chosen.shared
      ≡ ok t)
    × (receive t.datagram ≡ some d)
    × (d.seqnum ≡ 0)
    × (d.control ≡ control_bits flags (SendState.new blue))
unfolding System.new State.new SendState.new
Run-tick_example =
    Run-tick bytes flags float robot blue 1 7 (failed refused) choose_run (omega arith)

-- An emergency stop, and a call that enables the robot after it.
abbrev stopped : System
stopped = record fresh {
  shared = record fresh.shared {
    send = record fresh.shared.send { enabled = false; estopped = true };
  };
}

abbrev enabled_again : System
enabled_again = record stopped {
  shared = record stopped.shared { send = record stopped.shared.send { enabled = true } };
}

stop : Reach bytes flags float fresh stopped
unfolding perform DriverStation.estop SendState.estop
stop = next here (call_step call_estop _ refl)

enable_again : Reach bytes flags float stopped enabled_again
unfolding perform DriverStation.enable SendState.enable
enable_again = next here (call_step call_enable _ refl)

Reach-Called_example :
    Called flags float (SendState.new blue) stopped.shared.send
    × Called flags float stopped.shared.send enabled_again.shared.send
    × (enabled_again.shared.send.udp_seqnum < 65536)
    × ((true && false) ≡ false)
    × (flags.contains (control_bits flags enabled_again.shared.send) control_estop ≡ true)
Reach-Called_example = Reach-Called bytes flags float robot blue 1 stop enable_again
