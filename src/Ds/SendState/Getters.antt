-- ===== src/Ds/SendState/Getters.antt =====
-- The methods of src/ds/state/send.rs that only read.
use ds_rs.Prelude.{ℕ, Bool, List}
use ds_rs.Proto.Tags.{UdpTag}
use ds_rs.Ds.Mode.{Mode, DsMode}
use ds_rs.Ds.SendState.{SendState}

abbrev pub pending_udp : SendState → List UdpTag
pending_udp s = s.pending_udp

abbrev pub mode : SendState → Mode
mode s = s.mode

abbrev pub ds_mode : SendState → DsMode
ds_mode s = s.dsmode

abbrev pub seqnum : SendState → ℕ
seqnum s = s.udp_seqnum

abbrev pub enabled : SendState → Bool
enabled s = s.enabled

abbrev pub estopped : SendState → Bool
estopped s = s.estopped
