-- ===== src/Proto/Tags/RoundTrip.antt =====
-- What a receiver makes of the joystick data of src/proto/udp/outbound/types.rs.
use ds_rs.Prelude.{
  Bool, suc, ℕ, ◌+◌, ◌*◌, ◌/◌, ◌<◌, ◌≡◌, refl, true, Option, none, some, List, [], ◌∷◌, ◌++◌,
  length, take, drop, take-append, drop-append, All, ok, ◌>>=◌, arith,
}
use ds_rs.Crates.{BytesCrate}
use ds_rs.Util.{to_u8_vec}
use ds_rs.Util.Buttons.{buttons_of, buttons_of-to_u8_vec, length-to_u8_vec}
use ds_rs.Proto.Tags.{Joysticks, joysticks_data}
use ds_rs.Proto.Tags.Layout.{be16_all, big_endian, counts_fit, joysticks_data_lem}

abbrev pub from_pairs : List ℕ → List ℕ
from_pairs [] = []
from_pairs (x ∷ []) = []
from_pairs (x ∷ y ∷ rest) = (x * 256 + y) ∷ from_pairs rest

-- The receiver reads a count and so many axes, a count and so many buttons, a count and the angles.
abbrev read_povs : List ℕ → List Bool → List ℕ → Option Joysticks
read_povs axes buttons [] = none
read_povs axes buttons (n ∷ rest) =
    some (record { axes = axes; buttons = buttons; povs = from_pairs (take (2 * n) rest) })

abbrev read_buttons : List ℕ → List ℕ → Option Joysticks
read_buttons axes [] = none
read_buttons axes (n ∷ rest) =
    read_povs axes (buttons_of n (take ((n + 7) / 8) rest)) (drop ((n + 7) / 8) rest)

abbrev pub read_joysticks : List ℕ → Option Joysticks
read_joysticks [] = none
read_joysticks (n ∷ rest) = read_buttons (take n rest) (drop n rest)

two_more : (n : ℕ) → 2 * suc n ≡ suc (suc (2 * n))
two_more n = omega arith

from_pairs-be16_all :
    (povs : List ℕ)
    → All (λ x. x < 65536) povs
    → from_pairs (take (2 * length povs) (be16_all povs)) ≡ povs
from_pairs-be16_all [] h = refl
from_pairs-be16_all (x ∷ povs) (lt, h) =
    rw (two_more (length povs)) (cc (big_endian x lt, from_pairs-be16_all povs h))

-- If each count of a joystick is at most 255 and its angles are 16-bit numbers, a receiver reads back
-- from its data the axes, the buttons and the angles, all of them and in order.
pub read_joysticks_lem :
    (b : BytesCrate) (j : Joysticks)
    → counts_fit j ≡ true
    → All (λ x. x < 65536) j.povs
    → (do data_bytes ← joysticks_data b j; ok (read_joysticks data_bytes)) ≡ ok (some j)
read_joysticks_lem b j fit small =
    let buttons = to_u8_vec j.buttons in
    let tail = length j.povs ∷ be16_all j.povs in
    rw (joysticks_data_lem b j, fit)
      (rw
        (
          take-append j.axes (length j.buttons ∷ (buttons ++ tail)),
          drop-append j.axes (length j.buttons ∷ (buttons ++ tail)),
          ← length-to_u8_vec j.buttons,
          take-append buttons tail,
          drop-append buttons tail,
          buttons_of-to_u8_vec j.buttons,
          from_pairs-be16_all j.povs small,
        )
        refl)
