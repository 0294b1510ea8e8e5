-- ===== src/Tests/Running.antt =====
-- Instances for a driver station of src/ds.rs that runs, for its tasks and for its constructors.
use ds_rs.Prelude.{ℕ, ◌≡◌, refl, Bool, true, false, none, some, List, [], ◌∷◌, ok, panicked}
use ds_rs.Crates.Reference.{bytes, flags, float}
use ds_rs.Proto.Control.{control_enabled}
use ds_rs.Proto.Tcp.{TcpTag, game_data}
use ds_rs.Ds.Mode.{teleoperated, normal, simulation}
use ds_rs.Ds.SendState
use ds_rs.Ds.SendState.{SendState, control_bits}
use ds_rs.Ds.Backoff
use ds_rs.Ds.Backoff.{Attempt, succeeded, failed}
use ds_rs.Ds.Backoff.Waits.{after_failures}
use ds_rs.Ds.State
use ds_rs.Ds.State.{new_recv}
use ds_rs.Ds.Signal.{disconnect, new_target, new_mode}
use ds_rs.Ds.Conn.Receiver
use ds_rs.Ds.Conn.Receiver.{UtcNow, Event, silence, signal}
use ds_rs.Ds.Conn.Receiver.Lifetime.{poll}
use ds_rs.Ds.Conn.Sender.{SendError, refused, max_wait, on_signal}
use ds_rs.Ds.DriverStation.Start.{new_team, new_team-early}
use ds_rs.Ds.System.{System, forward_step, after_round}
use ds_rs.Ds.System.Drop.{dropped}
use ds_rs.Ds.System.Disabled.{Calm, still, calmly, Calm-disabled}
use ds_rs.Proto.Inbound.Header.{header_bytes}
use ds_rs.Tests.Wire.{header, response, decode_response}
use ds_rs.Tests.Systems.{robot, blue}

-- A driver station whose robot is enabled.
abbrev pub running : System
running = record {
  receiver = record {
    tcp_connected = true;
    tcp_tx = some 0;
    target_ip = robot;
    connected = true;
    spawned = 1;
  };
  running = true;
  sender = record { target = robot; backoff = after_failures max_wait 1 };
  opmode = normal;
  shared = record {
    send = record {
      mode = teleoperated;
      udp_seqnum = 65534;
      enabled = true;
      estopped = false;
      alliance = blue;
      pending_udp = [];
      joystick_provider = none;
      pending_request = none;
      dsmode = normal;
    };
    recv = new_recv;
    tcp = record { tcp_consumer = some 9; pending_tcp = some 0 };
  };
  signals = [];
  forwards = [];
  team_number = 1;
  alive = true;
}

abbrev two_ticks : List (ℕ × Attempt (Unit {0}) SendError)
two_ticks = (0, failed refused) ∷ (1, succeeded tt) ∷ []

-- What `udp_conn` leaves when it takes the disconnect.
abbrev left_over : System
left_over =
    after_round [] (Receiver.receive flags true (signal disconnect) running.receiver running.shared)
      (dropped running)

abbrev switching : System
switching =
    after_round []
      (Receiver.receive flags true (signal (new_target (b's' ∷ []))) running.receiver
        running.shared)
      running

abbrev switched : System
switched = record switching {
  sender = record { target = b's' ∷ []; backoff = after_failures max_wait 0 };
  shared = record running.shared {
    send = record running.shared.send { udp_seqnum = 0; enabled = false };
    recv = new_recv;
  };
  forwards = [];
}

switch : Calm bytes flags float switching switched
unfolding Receiver.receive on_signal SendState.disable SendState.reset_seqnum State.reset
    Backoff.reset Backoff.new
switch = calmly still (forward_step (new_target (b's' ∷ [])) [] _ _ refl refl refl) tt

Calm-disabled_example :
    (switched.shared.send.enabled ≡ false)
    × (flags.contains (control_bits flags switched.shared.send) control_enabled ≡ false)
Calm-disabled_example =
    Calm-disabled bytes flags float (new_target (b's' ∷ [])) [] running switched tt switch refl

abbrev pub message_tag : TcpTag
message_tag = game_data (record { gsm = b'L' ∷ b'R' ∷ b'L' ∷ [] })

abbrev quiet : List (Bool × Event)
quiet = (true, silence) ∷ (true, signal (new_mode simulation)) ∷ []

abbrev noon : UtcNow
noon = record { micros = 0; second = 0; minute = 0; hour = 12; day = 1; month0 = 0; year = 2026 }

-- A datagram of the robot comes behind them, and the simulator is gone before the next poll.
new_team-early_example :
    (new_team flags false quiet 4069 blue ≡ panicked)
    × (new_team flags true quiet 4069 blue ≡ ok none)
    × (new_team flags true
          ((true, silence)
            ∷ (true, signal (new_mode simulation))
            ∷ (true, poll bytes flags float noon (header_bytes header))
            ∷ (true, signal (new_mode normal))
            ∷ (true, poll bytes flags float noon [])
            ∷ [])
          4069
          blue
        ≡ panicked)
new_team-early_example =
    new_team-early bytes flags float 4069 blue quiet noon noon (header_bytes header) []
      (some response) ((true, signal (new_mode normal)) ∷ []) [] true true decode_response
      (tt, (refl, tt)) (refl, tt)
