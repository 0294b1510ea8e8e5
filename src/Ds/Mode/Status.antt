-- ===== src/Ds/Mode/Status.antt =====
-- What `Mode::from_status` of src/ds/state.rs answers.
use ds_rs.Prelude.{ℕ, ◌<◌, ◌≡◌, refl, true, some, bit_and}
use ds_rs.Prelude.Bits.{same_table, same_table_lem}
use ds_rs.Crates.{Bitflags, contains_lem}
use ds_rs.Ds.Mode.{teleoperated, from_status}

no_bits_table : same_table (λ s. bit_and s 0) (λ s. 0) 256 ≡ true
unfolding same_table
no_bits_table = refl

no_bits : (s : ℕ) → s < 256 → bit_and s 0 ≡ 0
no_bits s h = same_table_lem (λ s. bit_and s 0) (λ s. 0) 256 s h no_bits_table

-- Every status byte, whatever mode its bits name, is taken for the teleoperated mode: the flag of that
-- mode has no bit, so each byte contains it.
from_status_lem :
    (g : Bitflags) (status : ℕ) → status < 256 → from_status g status ≡ some teleoperated
unfolding from_status
from_status_lem g status h = rw (contains_lem g status 0, no_bits status h) refl
