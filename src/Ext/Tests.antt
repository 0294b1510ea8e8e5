-- ===== src/Ext/Tests.antt =====
-- Runs of the reads of src/ext.rs over the reference crate.
use ds_rs.Prelude.{◌≡◌, refl, [], ◌∷◌, ok, panicked}
use ds_rs.Crates.Reference.{bytes}
use ds_rs.Ext.{read_u16_be}

-- One byte is too short for a `u16`, and the read panics.
read_u16_be_short : read_u16_be bytes (7 ∷ []) ≡ panicked
unfolding read_u16_be
read_u16_be_short = refl

read_u16_be_big_endian : read_u16_be bytes (1 ∷ 2 ∷ 3 ∷ []) ≡ ok (258, 3 ∷ [])
unfolding read_u16_be
read_u16_be_big_endian = refl
