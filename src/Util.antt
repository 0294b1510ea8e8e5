-- ===== src/Util.antt =====
-- src/util.rs: the packing of joystick buttons, and the address of the roboRIO.
pub mod Fill
pub mod Buttons
pub mod Address
use ds_rs.Prelude.{
  ℕ, zero, suc, ◌+◌, ◌/◌, ◌%◌, ◌^◌, Bool, none, some, List, [], ◌∷◌, ◌++◌, reverse, length,
  get_elem?, bit_or, ltb, if◌then◌else◌,
}

-- The inner loop: `n` rounds are left, and `bit_pos` is the bit of this round. A `get` past the end
-- breaks off.
pub fill_byte : List Bool → ℕ → ℕ → ℕ → ℕ → ℕ
fill_byte vec_in chunk_start zero bit_pos byte = byte
fill_byte vec_in chunk_start (suc n) bit_pos byte =
    elim (get_elem? vec_in (chunk_start + bit_pos)) [
      | none ↦ byte
      | some value ↦
          fill_byte vec_in chunk_start n (bit_pos + 1)
            (if value then bit_or byte (2 ^ bit_pos) else byte)
    ]

-- The outer loop over `(0..vec_in.len()).step_by(8)`, on fuel.
pub fill_bytes : List Bool → ℕ → ℕ → List ℕ → List ℕ
unfolding fill_byte
fill_bytes vec_in zero chunk_start result = result
fill_bytes vec_in (suc fuel) chunk_start result =
    let rest =
      fill_bytes vec_in fuel (chunk_start + 8)
        (result ++ (fill_byte vec_in chunk_start 8 0 0 ∷ [])) in
    if ltb chunk_start (length vec_in) then rest else result

-- Each round passes eight of the buttons, so their number is fuel enough.
unfoldable pub to_u8_vec : List Bool → List ℕ
unfolding fill_bytes
to_u8_vec vec_in = reverse (fill_bytes vec_in (length vec_in) 0 [])

-- A `u16` in decimal, as `format!` writes it: at most `n + 1` digits, in ASCII.
pub show_digits : ℕ → ℕ → List ℕ
show_digits zero x = (x + b'0') ∷ []
show_digits (suc n) x =
    let more = show_digits n (x / 10) ++ (x % 10 + b'0') ∷ [] in
    if ltb x 10 then (x + b'0') ∷ [] else more

abbrev pub show_u16 : ℕ → List ℕ
show_u16 = show_digits 4

unfoldable pub ip_from_team_number : ℕ → List ℕ
unfolding show_digits
ip_from_team_number team =
    if ltb team 100
    then b'1' ∷ b'0' ∷ b'.' ∷ b'0' ∷ b'.' ∷ (show_u16 team ++ b'.' ∷ b'2' ∷ [])
    else (let te = team / 100 in
        let am = team % 100 in
        b'1' ∷ b'0' ∷ b'.' ∷ (show_u16 te ++ b'.' ∷ (show_u16 am ++ b'.' ∷ b'2' ∷ [])))
