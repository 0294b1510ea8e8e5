-- ===== src/Ds/Conn/Receiver.antt =====
-- The task `udp_conn` of src/ds/conn.rs, which the roboRIO's datagrams and the interface's signals
-- drive.
pub mod Packets
pub mod Lifetime
pub mod TcpTasks
pub mod Parts
use ds_rs.Prelude.{
  ℕ, suc, ◌+◌, ◌-◌, ◌%◌, Bool, true, false, not, Option, none, some, List, [], ◌∷◌, ◌++◌,
  if◌then◌else◌,
}
use ds_rs.Crates.{Bitflags}
use ds_rs.Proto.Tags.{DateTime, date_time}
use ds_rs.Proto.Inbound.{UdpResponsePacket, emergency_stopped}
use ds_rs.Ds.Mode.{DsMode, normal, simulation, same_mode}
use ds_rs.Ds.SendState.{queue_udp, estop, set_ds_mode}
use ds_rs.Ds.State.{DsState, reset, set_trace, set_battery_voltage}
use ds_rs.Ds.Signal.{Address, Signal, disconnect, new_target, new_mode}

-- The variables of the loop. `tcp_tx` is the channel to the TCP task of that number; `spawned` counts
-- the TCP tasks so far, and is no variable of the source.
pub record Receiver : Type 0 where
  pub tcp_connected : Bool
  pub tcp_tx : Option ℕ
  pub target_ip : Address
  pub connected : Bool
  pub spawned : ℕ

abbrev pub start : Address → Receiver
start ip = record {
  tcp_connected = false;
  tcp_tx = none;
  target_ip = ip;
  connected = true;
  spawned = 0;
}

-- The clock of the crate `chrono` at the time of an event; `month0` counts from 0.
pub record UtcNow : Type 0 where
  pub micros : ℕ
  pub second : ℕ
  pub minute : ℕ
  pub hour : ℕ
  pub day : ℕ
  pub month0 : ℕ
  pub year : ℕ

-- What the `select!` of the loop delivers: a packet, a datagram that does not decode, the end of the
-- stream, a panic of the decoder, which is called until it answers that nothing is left, two seconds
-- of silence, a signal, or the end of the signals.
pub data Event : Type 0 where
  packet : UtcNow → UdpResponsePacket → Event
  undecoded : Event
  stream_end : Event
  decoder_panics : Event
  silence : Event
  signal : Signal → Event
  signals_end : Event

pub data Effect : Type 0 where
  spawn_tcp : ℕ → Address → Effect
  tell_tcp : ℕ → Signal → Effect
  forward : Signal → Effect

-- How the loop goes on: another round, a return with a result or an error, or a panic.
pub data Flow : Type 0 where
  continue : Flow
  return : Flow
  fail : Flow
  panic : Flow

pub record Round : Type 0 where
  pub task : Receiver
  pub shared : DsState
  pub effects : List Effect
  pub flow : Flow

-- `127.0.0.1`
abbrev pub localhost : Address
localhost = b'1' ∷ b'2' ∷ b'7' ∷ b'.' ∷ b'0' ∷ b'.' ∷ b'0' ∷ b'.' ∷ b'1' ∷ []

-- The casts `as u8` keep eight bits; `2048` keeps the difference of the years from stopping at 0.
unfoldable pub date_tag : UtcNow → DateTime
date_tag now = record {
  micros = now.micros;
  second = now.second % 256;
  minute = now.minute % 256;
  hour = now.hour % 256;
  day = now.day % 256;
  month = now.month0 % 256;
  year = (now.year + 2048 - 1900) % 256;
}

abbrev pub with_date : Bool → UtcNow → DsState → DsState
with_date need now sh =
    if need then record sh { send = queue_udp (date_time (date_tag now)) sh.send } else sh

-- `if !tcp_connected { … }`
abbrev pub connect_tcp : Receiver → DsState → Receiver × List Effect
connect_tcp task sh = if task.tcp_connected then (task, []) else (
  record task { tcp_connected = true; tcp_tx = some task.spawned; spawned = suc task.spawned },
  spawn_tcp task.spawned (if same_mode sh.send.dsmode normal then task.target_ip else localhost)
      ∷ [],
)

-- `if packet.status.emergency_stopped() { … }`
abbrev pub follow_estop : Bool → DsState → DsState
follow_estop stopped sh =
    if stopped
    then (if not sh.send.estopped then record sh { send = estop sh.send } else sh)
    else sh

unfoldable pub on_packet : Bitflags → UtcNow → UdpResponsePacket → Receiver → DsState → Round
unfolding date_tag
on_packet g now p task sh =
    let task1 : Receiver = record task { connected = true } in
    let sh1 = with_date p.need_date now sh in
    let (task2, effects) = connect_tcp task1 sh1 in
    let sh2 = follow_estop (emergency_stopped g p.status) sh1 in
    record {
      task = task2;
      shared = record sh2 { recv = set_battery_voltage p.battery (set_trace p.trace sh2.recv) };
      effects = effects;
      flow = continue;
    }

unfoldable pub on_silence : Receiver → DsState → Round
on_silence task sh =
    if task.connected
    then (record {
      task = record task { connected = false };
      shared = record sh { recv = reset sh.recv };
      effects = [];
      flow = continue;
    })
    else (record { task = task; shared = sh; effects = []; flow = continue })

-- `if let Some(ref tcp_tx) = tcp_tx { let _ = tcp_tx.send(Signal::Disconnect); tcp_connected = false; }`
abbrev pub drop_tcp : Option ℕ → Receiver → Receiver × List Effect
drop_tcp none task = (task, [])
drop_tcp (some tx) task = (record task { tcp_connected = false }, tell_tcp tx disconnect ∷ [])

-- `fwd_tx.send(…)?` of several signals, where `listening` says whether the sending task still listens: the
-- first send that fails returns from the loop.
abbrev pub forward_all : Bool → List Signal → List Effect × Flow
forward_all true [] = ([], continue)
forward_all true (s ∷ signals) =
    let (effects, flow) = forward_all true signals in (forward s ∷ effects, flow)
forward_all false [] = ([], continue)
forward_all false (s ∷ signals) = ([], fail)

unfoldable pub on_target : Bool → Address → Receiver → DsState → Round
on_target listening target task sh =
    let (task1, told) = drop_tcp task.tcp_tx task in
    let (sent, flow) = forward_all listening (new_target target ∷ []) in
    record {
      task = record task1 { target_ip = target };
      shared = sh;
      effects = told ++ sent;
      flow = flow;
    }

-- The signals that a change of mode forwards.
abbrev pub mode_signals : DsMode → Address → List Signal
mode_signals normal target = new_target target ∷ new_mode normal ∷ []
mode_signals simulation target = new_mode simulation ∷ []

unfoldable pub on_mode : Bool → DsMode → Receiver → DsState → Round
on_mode listening mode task sh =
    let (task1, told) = drop_tcp task.tcp_tx task in
    let (sent, flow) = forward_all listening (mode_signals mode task1.target_ip) in
    if same_mode mode sh.send.dsmode
    then (record { task = task; shared = sh; effects = []; flow = continue })
    else (record {
      task = task1;
      shared = record sh { send = set_ds_mode mode sh.send };
      effects = told ++ sent;
      flow = flow;
    })

-- One round of the loop.
unfoldable pub receive : Bitflags → Bool → Event → Receiver → DsState → Round
unfolding on_packet on_silence on_target on_mode
receive g listening (packet now p) task sh = on_packet g now p task sh
receive g listening undecoded task sh = record {
  task = task;
  shared = sh;
  effects = [];
  flow = continue;
}
receive g listening stream_end task sh = record {
  task = task;
  shared = sh;
  effects = [];
  flow = return;
}
receive g listening decoder_panics task sh = record {
  task = task;
  shared = sh;
  effects = [];
  flow = panic;
}
receive g listening silence task sh = on_silence task sh
receive g listening (signal disconnect) task sh = record {
  task = task;
  shared = sh;
  effects = [];
  flow = return;
}
receive g listening (signal (new_target target)) task sh = on_target listening target task sh
receive g listening (signal (new_mode mode)) task sh = on_mode listening mode task sh
receive g listening signals_end task sh = record {
  task = task;
  shared = sh;
  effects = [];
  flow = return;
}
