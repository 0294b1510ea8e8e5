-- ===== src/Tests/Tasks.antt =====
-- Instances for the tasks of src/ds/conn.rs and the interface of src/ds.rs.
use ds_rs.Prelude.{
  ◌≢◌, ◌↔◌, ◌<◌, ℕ, ◌≡◌, refl, Bool, true, false, none, some, List, [], ◌∷◌, ◌++◌, ok, ◌>>=◌, arith,
}
use ds_rs.Crates.Reference.{bytes, flags, float}
use ds_rs.Proto.Tags.{countdown, date_time}
use ds_rs.Proto.Outbound.Datagram.{receive, tag_views}
use ds_rs.Proto.Inbound.{UdpResponsePacket, emergency_stopped}
use ds_rs.Proto.Tcp.{TcpTag, game_data}
use ds_rs.Ds.Mode.{teleoperated, normal, simulation}
use ds_rs.Ds.SendState.{SendState, control_bits}
use ds_rs.Ds.Backoff.{failed}
use ds_rs.Ds.Backoff.Waits.{after_failures}
use ds_rs.Ds.State.{DsState, new_tcp}
use ds_rs.Ds.State
use ds_rs.Ds.Signal.{Address, new_target, new_mode}
use ds_rs.Ds.Conn.Receiver
use ds_rs.Ds.Conn.Receiver.{
  Receiver, UtcNow, Event, packet, undecoded, silence, signal, spawn_tcp, continue, localhost,
  date_tag,
}
use ds_rs.Ds.Conn.Receiver.Packets.{receive-packet}
use ds_rs.Ds.Conn.Receiver.TcpTasks
use ds_rs.Ds.Conn.Receiver.TcpTasks.{Told, Reach-Told}
use ds_rs.Ds.Conn.Sender.{Sender, refused, tick, max_wait}
use ds_rs.Ds.Conn.Sender.Ticks.{tick_lem}
use ds_rs.Ds.Conn.Sender.Switch.{deliver, switched, switch_mode, switch_target}
use ds_rs.Ds.Backoff
use ds_rs.Ds.Conn.Tcp.{told, tag, begin, on_event}
use ds_rs.Ds.Conn.Tcp.Tasks.{Tasks, running, put, after_round, tag_step, Run, here, next}
use ds_rs.Ds.Conn.Tcp.Closing.{EndsWith, told-EndsWith}
use ds_rs.Ds.Conn.Tcp.Passed.{for_task, passed}
use ds_rs.Ds.DriverStation.{DriverStation, set_team_number, usb_address, set_use_usb}
use ds_rs.Ds.DriverStation.Calls.{set_team_number_lem}
use ds_rs.Util.Address.{parse_dotted}

abbrev robot : Address
robot = b'r' ∷ []

abbrev enabled_state : SendState
enabled_state = record {
  mode = teleoperated;
  udp_seqnum = 65535;
  enabled = true;
  estopped = false;
  alliance = record { station = 3 };
  pending_udp = countdown (record { seconds_remaining = 0 }) ∷ [];
  joystick_provider = none;
  pending_request = some 4;
  dsmode = normal;
}

abbrev shared : DsState
shared = record {
  send = enabled_state;
  recv = record { battery_voltage = 12; trace = 0x20 };
  tcp = new_tcp;
}

abbrev task : Receiver
task = record {
  tcp_connected = true;
  tcp_tx = some 0;
  target_ip = robot;
  connected = true;
  spawned = 1;
}

abbrev sender : Sender
sender = record { target = robot; backoff = after_failures max_wait 0 }

tick_lem_example :
    (sent : List ℕ) × (tick bytes flags float 7 (failed refused) sender shared
      ≡ ok (record {
        task = record { target = robot; backoff = after_failures max_wait 1 };
        shared = record shared {
          send = record enabled_state { pending_udp = []; pending_request = none; udp_seqnum = 0 };
          recv = State.reset shared.recv;
        };
        datagram = sent;
        slept = none;
      }))
    × (receive sent
        ≡ some (record {
          seqnum = 65535;
          version = 0x01;
          control = control_bits flags enabled_state;
          request = 4;
          station = 3;
          tags = tag_views (countdown (record { seconds_remaining = 0 }) ∷ []);
        }))
tick_lem_example =
    tick_lem bytes flags float 7 0 (failed refused) sender shared refl (omega arith) (omega arith)
      refl

abbrev time : UtcNow
time = record { micros = 5; second = 1; minute = 2; hour = 3; day = 4; month0 = 5; year = 2026 }

abbrev stop_packet : UdpResponsePacket
stop_packet = record {
  seqnum = 9;
  status = 0b1000_0000;
  trace = 0x30;
  battery = 11;
  need_date = true;
}

abbrev fresh : Receiver
fresh = Receiver.start robot

abbrev after_stop : Receiver.Round
after_stop = Receiver.receive flags true (packet time stop_packet) fresh shared

receive-packet_example :
    (after_stop.shared.recv ≡ record { battery_voltage = 11; trace = 0x30 })
    × (after_stop.shared.send.estopped ≡ true)
    × (after_stop.shared.send.enabled ≡ false)
    × (after_stop.shared.send.pending_udp
        ≡ countdown (record { seconds_remaining = 0 }) ∷ date_time (date_tag time) ∷ [])
    × (after_stop.task.tcp_connected ≡ true)
    × (after_stop.task.connected ≡ true)
    × (after_stop.effects ≡ spawn_tcp 0 robot ∷ [])
    × (after_stop.flow ≡ continue)
unfolding emergency_stopped
receive-packet_example = receive-packet flags true time stop_packet fresh shared

abbrev quiet : Receiver.Round
quiet = Receiver.receive flags true silence task shared

abbrev simulated : Receiver.Round
simulated = Receiver.receive flags true (signal (new_mode simulation)) task shared

switch_mode_example :
    (deliver simulated.effects sender simulated.shared
      ≡ ok (
        record { target = localhost; backoff = Backoff.reset sender.backoff },
        switched simulation shared,
      ))
    × (simulated.flow ≡ continue)
    × (simulated.task.target_ip ≡ robot)
switch_mode_example = switch_mode flags task sender shared simulation refl

abbrev moved : Receiver.Round
moved = Receiver.receive flags true (signal (new_target (b's' ∷ []))) task shared

switch_target_example :
    (deliver moved.effects sender moved.shared
      ≡ ok (
        record { target = b's' ∷ []; backoff = Backoff.reset sender.backoff },
        switched normal shared,
      ))
    × (moved.flow ≡ continue)
    × (moved.task.target_ip ≡ b's' ∷ [])
switch_target_example = switch_target flags task sender shared (b's' ∷ [])

abbrev early : List (Bool × Event)
early =
    (true, packet time stop_packet)
    ∷ (true, undecoded)
    ∷ (true, signal (new_mode simulation))
    ∷ (true, silence)
    ∷ []

-- A packet connects the first TCP task, and a new target then gives it up.
abbrev one_packet : TcpTasks.Reach flags robot after_stop.task after_stop.effects
one_packet = TcpTasks.round TcpTasks.begin true (packet time stop_packet) shared

abbrev dropped : Receiver.Round
dropped = Receiver.receive flags true (signal (new_target (b's' ∷ []))) after_stop.task shared

Reach-Told_example : Told 0 (after_stop.effects ++ dropped.effects) ↔ (0 < 1)
unfolding Receiver.receive
Reach-Told_example =
    Reach-Told 0 (TcpTasks.round one_packet true (signal (new_target (b's' ∷ []))) shared)

abbrev message_tag : TcpTag
message_tag = game_data (record { gsm = b'L' ∷ b'R' ∷ b'L' ∷ [] })

-- Two TCP tasks run, and a tag waits for the newer one.
abbrev both_run : Tasks
both_run = record {
  shared = begin 1 new_tcp;
  phase = λ k. running;
  waiting = λ k. message_tag ∷ [];
  handed = λ k. [];
}

-- The older one takes a disconnect, and the newer one its tag.
abbrev cut_off : Tasks
cut_off = after_round 0 (on_event told both_run.shared) both_run

abbrev tag_taken : Tasks
tag_taken =
    after_round 1 (on_event (tag message_tag) cut_off.shared)
      (record cut_off { waiting = put 1 [] cut_off.waiting })

take_tag : Run cut_off [] tag_taken
unfolding on_event
take_tag = next here (tag_step 1 message_tag [] refl refl)

told-EndsWith_example :
    (tag_taken.shared.pending_tcp ≢ some 1)
    × (for_task 1 [] ≡ [])
    × (passed 1 tag_taken ≡ message_tag ∷ [])
    × EndsWith 1 tag_taken
told-EndsWith_example = told-EndsWith both_run 0 1 (λ e. cc e) take_tag (unfold on_event in refl)

abbrev idle : DriverStation
idle = record { thread_tx = []; team_number = 1; state = shared }

set_team_number_lem_example :
    (ds : DriverStation) × (ip : Address) × (set_team_number true 4069 idle ≡ ok ds)
    × (ds.team_number ≡ 4069)
    × (ds.thread_tx ≡ new_target ip ∷ [])
    × (parse_dotted 0 ip ≡ 10 ∷ 40 ∷ 69 ∷ 2 ∷ [])
    × ((do d ← set_use_usb true true ds; set_use_usb true false d)
        ≡ ok (record ds {
          thread_tx = (ds.thread_tx ++ new_target usb_address ∷ []) ++ new_target ip ∷ [];
        }))
set_team_number_lem_example = set_team_number_lem 4069 idle (omega arith)
