-- ===== src/Ds/Joystick.antt =====
-- src/ds.rs: the values of a joystick, and in src/ds/state/send.rs the loop of `SendState::control`
-- that collects those of one joystick into a tag.
pub mod Entries
pub mod Values
pub mod Settings
use ds_rs.Prelude.{
  ℕ, ◌-◌, Bool, true, false, ◌&&◌, List, [], ◌∷◌, length, remove, insert, replicate, Outcome, ok,
  panicked, ◌>>=◌, ltb, leb, ◌==◌, if◌then◌else◌,
}
use ds_rs.Crates.{Float32, one_f32, epsilon_f32, f32_128}
use ds_rs.Proto.Tags.{Joysticks}

-- `i16` angles are bit patterns, `f32` values the numbers of their bits.
pub data JoystickValue : Type 0 where
  axis : ℕ → ℕ → JoystickValue
  button : ℕ → Bool → JoystickValue
  pov : ℕ → ℕ → JoystickValue

unfoldable pub id : JoystickValue → ℕ
id (axis i value) = i
id (button i pressed) = i
id (pov i angle) = i

unfoldable pub is_axis : JoystickValue → Bool
is_axis (axis i value) = true
is_axis _ = false

unfoldable pub is_button : JoystickValue → Bool
is_button (button i pressed) = true
is_button _ = false

unfoldable pub is_pov : JoystickValue → Bool
is_pov (pov i angle) = true
is_pov _ = false

-- `Vec::remove` and `Vec::insert`, which panic past the end.
abbrev pub vec_remove {ℓ} : {A : Type ℓ} → ℕ → List A → Outcome (List A)
vec_remove i xs = if ltb i (length xs) then ok (remove i xs) else panicked

abbrev pub vec_insert {ℓ} : {A : Type ℓ} → ℕ → A → List A → Outcome (List A)
vec_insert i v xs = if leb i (length xs) then ok (insert i v xs) else panicked

abbrev pub replace {ℓ} : {A : Type ℓ} → ℕ → A → List A → Outcome (List A)
replace i v xs = do rest ← vec_remove i xs; vec_insert i v rest

-- `-1i16`
abbrev pub pov_centred : ℕ
pov_centred = 0xffff

-- `vec![0; 6]`, `vec![false; 10]` and `vec![-1i16]`
abbrev pub at_rest : Joysticks
at_rest = record { axes = replicate 6 0; buttons = replicate 10 false; povs = pov_centred ∷ [] }

module _ (f : Float32) where
  unfoldable pub axis_byte : ℕ → ℕ
  axis_byte value =
      if f.lt (f.abs (f.sub value one_f32)) epsilon_f32 then 127 else f.as_i8 (f.mul value f32_128)

  -- One round of the inner loop.
  unfoldable pub apply_value : JoystickValue → Joysticks → Outcome Joysticks
  unfolding axis_byte
  apply_value (button i pressed) j =
      if leb 1 i && leb i 10
      then (do buttons ← replace (i - 1) pressed j.buttons; ok (record j { buttons = buttons }))
      else ok j
  apply_value (axis i value) j =
      if leb i 5
      then (do axes ← replace i (axis_byte value) j.axes; ok (record j { axes = axes }))
      else ok j
  apply_value (pov i angle) j =
      if i == 0 then (do povs ← replace i angle j.povs; ok (record j { povs = povs })) else ok j

  -- The inner loop, from the vectors that the rounds before have left.
  unfoldable pub apply_values : Joysticks → List JoystickValue → Outcome Joysticks
  unfolding apply_value
  apply_values j [] = ok j
  apply_values j (v ∷ vs) = do j' ← apply_value v j; apply_values j' vs
