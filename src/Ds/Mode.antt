-- ===== src/Ds/Mode.antt =====
-- src/ds/state.rs: the modes, and their bits in the status and control bytes.
pub mod Status
use ds_rs.Prelude.{ℕ, Bool, true, false, Option, none, some, if◌then◌else◌}
use ds_rs.Crates.{Bitflags}
use ds_rs.Proto.Inbound.{status_teleop, status_auto, status_test}
use ds_rs.Proto.Control.{control_teleop, control_auto, control_test}

pub data DsMode : Type 0 where
  normal simulation : DsMode

-- The derived `PartialEq`.
abbrev pub same_mode : DsMode → DsMode → Bool
same_mode normal normal = true
same_mode simulation simulation = true
same_mode normal simulation = false
same_mode simulation normal = false

pub data Mode : Type 0 where
  autonomous teleoperated test : Mode

-- `Mode::from_status`
unfoldable pub from_status : Bitflags → ℕ → Option Mode
from_status g status =
    if g.contains status status_teleop
    then some teleoperated
    else if g.contains status status_auto
    then some autonomous
    else if g.contains status status_test
    then some test
    else none

unfoldable pub to_control : Mode → ℕ
to_control teleoperated = control_teleop
to_control autonomous = control_auto
to_control test = control_test
