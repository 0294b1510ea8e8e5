-- ===== src/Ds/State/Getters.antt =====
-- The methods of src/ds/state/recv.rs that only read, and those of src/ds/state.rs that give the locks.
use ds_rs.Prelude.{ℕ}
use ds_rs.Ds.SendState.{SendState}
use ds_rs.Ds.State.{DsState, RecvState, TcpState}

abbrev pub battery_voltage : RecvState → ℕ
battery_voltage s = s.battery_voltage

abbrev pub trace : RecvState → ℕ
trace s = s.trace

abbrev pub send : DsState → SendState
send sh = sh.send

abbrev pub recv : DsState → RecvState
recv sh = sh.recv

abbrev pub tcp : DsState → TcpState
tcp sh = sh.tcp
