-- ===== src/Ds/Signal.antt =====
-- `Signal` of src/ds.rs: what the interface and the tasks tell one another. An address is its text.
use ds_rs.Prelude.{ℕ, List}
use ds_rs.Ds.Mode.{DsMode}

abbrev pub Address : Type 0
Address = List ℕ

pub data Signal : Type 0 where
  disconnect : Signal
  new_target : Address → Signal
  new_mode : DsMode → Signal
