-- ===== src/Ds/State.antt =====
-- src/ds/state.rs and src/ds/state/recv.rs: the state that the tasks share. A task holds the lock of
-- a part while it reads or writes it, so each access is one step.
pub mod Getters
use ds_rs.Prelude.{ℕ, Bool, Option, none, some, Outcome, ok, err, message, if◌then◌else◌}
use ds_rs.Crates.{zero_f32}
use ds_rs.Proto.Control.{Alliance}
use ds_rs.Proto.Tcp.{TcpTag}
use ds_rs.Ds.SendState
use ds_rs.Ds.SendState.{SendState}

pub record RecvState : Type 0 where
  pub battery_voltage : ℕ
  pub trace : ℕ

-- `RecvState::new`; `Trace::empty()` has no bit.
abbrev pub new_recv : RecvState
new_recv = record { battery_voltage = zero_f32; trace = 0 }

unfoldable pub reset : RecvState → RecvState
reset s = record s { battery_voltage = zero_f32; trace = 0 }

unfoldable pub set_battery_voltage : ℕ → RecvState → RecvState
set_battery_voltage voltage s = record s { battery_voltage = voltage }

unfoldable pub set_trace : ℕ → RecvState → RecvState
set_trace trace s = record s { trace = trace }

-- A consumer is user code, and a channel a queue of tokio: each is known here by a number.
pub record TcpState : Type 0 where
  pub tcp_consumer : Option ℕ
  pub pending_tcp : Option ℕ

abbrev pub new_tcp : TcpState
new_tcp = record { tcp_consumer = none; pending_tcp = none }

unfoldable pub set_tcp_tx : Option ℕ → TcpState → TcpState
set_tcp_tx tx s = record s { pending_tcp = tx }

unfoldable pub set_tcp_consumer : ℕ → TcpState → TcpState
set_tcp_consumer consumer s = record s { tcp_consumer = some consumer }

-- A send on an unbounded channel fails exactly if its receiver is gone, which `is_open` says.
abbrev pub send_on : (ℕ → Bool) → TcpTag → Option ℕ → Outcome (ℕ × TcpTag)
send_on is_open tag none = err message
send_on is_open tag (some tx) = if is_open tx then ok (tx, tag) else err message

-- `queue_tcp`: the channel that takes the tag, or the error.
unfoldable pub queue_tcp : (ℕ → Bool) → TcpTag → TcpState → Outcome (ℕ × TcpTag)
queue_tcp is_open tag s = send_on is_open tag s.pending_tcp

pub record DsState : Type 0 where
  pub send : SendState
  pub recv : RecvState
  pub tcp : TcpState

unfoldable pub new : Alliance → DsState
new alliance = record { send = SendState.new alliance; recv = new_recv; tcp = new_tcp }
