-- ===== src/LibDs/Trace.antt =====
-- libDS/src/trace.rs: the masks of the trace byte for C.
use ds_rs.Prelude.{ℕ, ◌≡◌, refl}
use ds_rs.Crates.{Bitflags}
use ds_rs.Proto.Inbound.{
  is_autonomous, is_teleop, is_disabled, is_test, is_code_started, is_connected,
}

abbrev pub trace_robot_code : ℕ
trace_robot_code = 0b0010_0000

abbrev pub trace_is_roborio : ℕ
trace_is_roborio = 0b0001_0000

abbrev pub trace_test_mode : ℕ
trace_test_mode = 0b0000_1000

abbrev pub trace_autonomous : ℕ
trace_autonomous = 0b0000_0100

abbrev pub trace_teleop : ℕ
trace_teleop = 0b0000_0010

abbrev pub trace_disabled : ℕ
trace_disabled = 0b0000_0001

-- A mask is in the trace byte exactly if the driver station says so of the trace.
masks_lem :
    (g : Bitflags) (trace : ℕ)
    → (g.contains trace trace_robot_code ≡ is_code_started g trace)
      × (g.contains trace trace_is_roborio ≡ is_connected g trace)
      × (g.contains trace trace_test_mode ≡ is_test g trace)
      × (g.contains trace trace_autonomous ≡ is_autonomous g trace)
      × (g.contains trace trace_teleop ≡ is_teleop g trace)
      × (g.contains trace trace_disabled ≡ is_disabled g trace)
unfolding is_autonomous is_teleop is_disabled is_test is_code_started is_connected
masks_lem g trace = (refl, refl, refl, refl, refl, refl)
