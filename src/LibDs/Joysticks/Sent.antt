-- ===== src/LibDs/Joysticks/Sent.antt =====
-- What the driver station sends for the joysticks of libDS/src/joysticks.rs.
use ds_rs.Prelude.{
  ℕ, zero, suc, ◌+◌, ◌-◌, ◌<◌, ◌≡◌, refl, ◌∙◌, Bool, true, false, ◌&&◌, some, List, [], ◌∷◌, All,
  length, get_elem?, ok, ◌==◌, if◌then◌else◌, arith, Bool-cases, inl, inr,
}
use ds_rs.Crates.{Float32}
use ds_rs.Ds.Joystick.{
  JoystickValue, axis, button, pov, id, is_button, at_rest, axis_byte, apply_values, pov_centred,
}
use ds_rs.Ds.Joystick.Entries.{button_now, axis_now, pov_now, tabulate}
use ds_rs.Ds.Joystick.Values.{joystick_of, apply_values_lem}
use ds_rs.LibDs.Joysticks.{Store, success, assign, put_value, set_locked, set_value, set_button}
use ds_rs.LibDs.Joysticks.Ports.{not_above}
use ds_rs.Ds.Joystick.Settings.{same_entry}
use ds_rs.LibDs.Joysticks.Distinct.{AreDistinct}
use ds_rs.LibDs.Joysticks.Reach.{Reach, Reach-IsGood, All-get_elem?}

pub get_elem?-lt {ℓ} :
    {A : Type ℓ} (i : ℕ) (xs : List A) {x : A} → get_elem? xs i ≡ some x → i < length xs
get_elem?-lt i [] e = cc
get_elem?-lt zero (y ∷ xs) e = omega arith
get_elem?-lt (suc i) (y ∷ xs) e = omega (arith, get_elem?-lt i xs e)

pub get_elem?-assign {ℓ} :
    {A : Type ℓ} (i : ℕ) (v : A) (xs : List A)
    → i < length xs
    → get_elem? (assign i v xs) i ≡ some v
unfolding assign
get_elem?-assign i v [] h = absurd (omega arith)
get_elem?-assign zero v (x ∷ xs) h = refl
get_elem?-assign (suc i) v (x ∷ xs) h = get_elem?-assign i v xs (omega arith)

tabulate-ext {ℓ} :
    {A : Type ℓ} (n : ℕ) (g h : ℕ → A) → ((i : ℕ) → g i ≡ h i) → tabulate n g ≡ tabulate n h
tabulate-ext zero g h e = refl
tabulate-ext (suc n) g h e =
    cc (e 0, tabulate-ext n (λ i. g (suc i)) (λ i. h (suc i)) (λ i. e (suc i)))

module _ (k : ℕ) (pressed : Bool) where
  abbrev is_this : JoystickValue → Bool
  is_this value = is_button value && (id value == k)

  abbrev put : List JoystickValue → List JoystickValue
  put xs = put_value is_this (button k pressed) xs

  other_button : (i j m : ℕ) → (j == i + 1) ≡ true → (m == j) ≡ false → (m == i + 1) ≡ false
  other_button i j m e h = ground arith

  same_button : (i m : ℕ) → (m == k) ≡ true → (k == i + 1) ≡ true → (m == i + 1) ≡ true
  same_button i m e t = ground arith

  other_one : (i m : ℕ) → (m == k) ≡ true → (k == i + 1) ≡ false → (m == i + 1) ≡ false
  other_one i m e t = ground arith

  -- A button that no value names stays as it was.
  button_now-absent :
      (i j : ℕ) (q before : Bool) (xs : List JoystickValue)
      → (j == i + 1) ≡ true
      → All (λ y. same_entry (button j q) y ≡ false) xs
      → button_now i before xs ≡ before
  unfolding same_entry id
  button_now-absent i j q before [] e h = refl
  button_now-absent i j q before (axis m v ∷ xs) e (h, hs) = button_now-absent i j q before xs e hs
  button_now-absent i j q before (pov m v ∷ xs) e (h, hs) = button_now-absent i j q before xs e hs
  button_now-absent i j q before (button m v ∷ xs) e (h, hs) =
      rw (other_button i j m e h) (button_now-absent i j q before xs e hs)

  -- A value of the button that stands behind none of it.
  button_now-replaced :
      (i m : ℕ) (v before : Bool) (xs : List JoystickValue)
      → (m == k) ≡ true
      → All (λ y. same_entry (button m v) y ≡ false) xs
      → button_now i (if k == i + 1 then pressed else before) xs
        ≡ (if k == i + 1 then pressed else button_now i (if m == i + 1 then v else before) xs)
  button_now-replaced i m v before xs e h = elim (Bool-cases (k == i + 1)) [
    | inl t ↦ rw t (button_now-absent i m v pressed xs (same_button i m e t) h)
    | inr n ↦ rw (n, other_one i m e n) refl
  ]

  button_now-put :
      (i : ℕ) (before : Bool) (xs : List JoystickValue)
      → AreDistinct xs
      → button_now i before (put xs) ≡ (if k == i + 1 then pressed else button_now i before xs)
  unfolding put_value AreDistinct is_button id
  button_now-put i before [] h = refl
  button_now-put i before (axis m v ∷ xs) (h, hs) = button_now-put i before xs hs
  button_now-put i before (pov m v ∷ xs) (h, hs) = button_now-put i before xs hs
  button_now-put i before (button m v ∷ xs) (h, hs) = elim (Bool-cases (m == k)) [
    | inr e ↦ rw e (button_now-put i (if m == i + 1 then v else before) xs hs)
    | inl e ↦ rw e (button_now-replaced i m v before xs e h)
  ]

  axis_now-put :
      (f : Float32) (i before : ℕ) (xs : List JoystickValue)
      → axis_now f i before (put xs) ≡ axis_now f i before xs
  unfolding put_value is_button id
  axis_now-put f i before [] = refl
  axis_now-put f i before (axis m v ∷ xs) =
      axis_now-put f i (if m == i then axis_byte f v else before) xs
  axis_now-put f i before (pov m v ∷ xs) = axis_now-put f i before xs
  axis_now-put f i before (button m v ∷ xs) = elim (Bool-cases (m == k)) [
    | inr e ↦ rw e (axis_now-put f i before xs)
    | inl e ↦ rw e refl
  ]

  pov_now-put : (before : ℕ) (xs : List JoystickValue) → pov_now before (put xs) ≡ pov_now before xs
  unfolding put_value is_button id
  pov_now-put before [] = refl
  pov_now-put before (axis m v ∷ xs) = pov_now-put before xs
  pov_now-put before (pov m v ∷ xs) = pov_now-put (if m == 0 then v else before) xs
  pov_now-put before (button m v ∷ xs) = elim (Bool-cases (m == k)) [
    | inr e ↦ rw e (pov_now-put before xs)
    | inl e ↦ rw e refl
  ]

  -- After any calls that returned, setting a button of a joystick that is there succeeds. Of what the
  -- driver station then sends for that joystick, the button has the given state, if it is one of the
  -- ten, and every other button, the axes and the POV are as they were.
  set_button-joystick_of :
      (f : Float32) (port : ℕ) {s : Store} (xs : List JoystickValue)
      → Reach s
      → get_elem? s.sticks port ≡ some xs
      → (t : Store) × (ys : List JoystickValue) × (set_button port k pressed s ≡ ok (t, success))
        × (get_elem? t.sticks port ≡ some ys)
        × (apply_values f at_rest ys
            ≡ ok (record (joystick_of f xs) {
              buttons = tabulate 10 (λ i. if k == i + 1 then pressed else button_now i false xs);
            }))
  unfolding set_button set_value set_locked
  set_button-joystick_of f port {s} xs r e =
      let good = Reach-IsGood r in
      let there = get_elem?-lt port s.sticks e in
      let each = All-get_elem? AreDistinct port s.sticks good.distinct e in
      (
        record s { sticks = assign port (put xs) s.sticks },
        put xs,
        rw
            (
              good.free,
              not_above 1 (length s.sticks) (omega arith),
              not_above port (length s.sticks - 1) (omega arith),
              e,
            )
            refl,
        get_elem?-assign port (put xs) s.sticks there,
        apply_values_lem f (put xs)
            ∙ cc (
              tabulate-ext 10 (λ i. button_now i false (put xs))
                  (λ i. if k == i + 1 then pressed else button_now i false xs)
                  (λ i. button_now-put i false xs each),
              tabulate-ext 6 (λ i. axis_now f i 0 (put xs)) (λ i. axis_now f i 0 xs)
                  (λ i. axis_now-put f i 0 xs),
              pov_now-put pov_centred xs,
            ),
      )
