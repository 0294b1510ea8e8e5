-- ===== src/Proto/Control.antt =====
-- src/proto/udp/outbound/types.rs: the flags of the control and request bytes, and the alliance.
pub mod Stations
use ds_rs.Prelude.{ℕ, ◌+◌, ◌-◌, ◌%◌, Bool, not, ◌&&◌, Outcome, ok, assert, ◌>>=◌, ltb, leb, ◌==◌}

-- `Control`
abbrev pub control_estop : ℕ
control_estop = 0b1000_0000

abbrev pub control_fms_connected : ℕ
control_fms_connected = 0b0000_1000

abbrev pub control_enabled : ℕ
control_enabled = 0b0000_0100

abbrev pub control_teleop : ℕ
control_teleop = 0b00

abbrev pub control_test : ℕ
control_test = 0b01

abbrev pub control_auto : ℕ
control_auto = 0b10

-- `Request`
abbrev pub request_reboot_roborio : ℕ
request_reboot_roborio = 0b0000_1000

abbrev pub request_restart_code : ℕ
request_restart_code = 0b0000_0100

pub record Alliance : Type 0 where
  pub station : ℕ

abbrev is_position : ℕ → Bool
is_position position = leb position 3 && not (position == 0)

unfoldable pub new_red : ℕ → Outcome Alliance
new_red position = do _ ← assert (is_position position); ok (record { station = position - 1 })

unfoldable pub new_blue : ℕ → Outcome Alliance
new_blue position = do _ ← assert (is_position position); ok (record { station = position + 2 })

unfoldable pub is_red : Alliance → Bool
is_red a = ltb a.station 3

unfoldable pub is_blue : Alliance → Bool
unfolding is_red
is_blue a = not (is_red a)

unfoldable pub position : Alliance → ℕ
position a = a.station % 3 + 1
