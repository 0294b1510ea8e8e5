-- ===== src/LibDs/Modes.antt =====
-- libDS/src/lib.rs: the modes of the C interface, and their conversions.
use ds_rs.Ds
use ds_rs.Ds.Mode.{autonomous, teleoperated, test, normal, simulation}

pub data Mode : Type 0 where
  c_autonomous c_teleoperated c_test : Mode

pub data DsMode : Type 0 where
  c_normal c_simulation : DsMode

unfoldable pub to_ds : Mode → Ds.Mode.Mode
to_ds c_autonomous = autonomous
to_ds c_teleoperated = teleoperated
to_ds c_test = test

unfoldable pub from_ds : Ds.Mode.Mode → Mode
from_ds autonomous = c_autonomous
from_ds teleoperated = c_teleoperated
from_ds test = c_test

unfoldable pub ds_mode_from_ds : Ds.Mode.DsMode → DsMode
ds_mode_from_ds normal = c_normal
ds_mode_from_ds simulation = c_simulation
