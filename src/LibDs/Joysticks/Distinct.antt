-- ===== src/LibDs/Joysticks/Distinct.antt =====
-- The values of one joystick of libDS/src/joysticks.rs: an entry has one value at most.
use ds_rs.Prelude.{
  ℕ, ◌≡◌, refl, sym, ◌∙◌, Bool, true, false, ◌&&◌, List, [], ◌∷◌, All, ◌==◌, Bool-cases, inl, inr,
}
use ds_rs.Ds.Joystick.{JoystickValue, axis, button, pov, id, is_axis, is_button, is_pov}
use ds_rs.Ds.Joystick.Settings.{same_entry, same_entry_sym, same_entry_trans}
use ds_rs.LibDs.Joysticks.{put_value}

-- No two values of a joystick are of the same entry.
unfoldable pub AreDistinct : List JoystickValue → Type 0
AreDistinct [] = Unit {0}
AreDistinct (x ∷ xs) = All (λ y. same_entry x y ≡ false) xs × AreDistinct xs

pub empty-AreDistinct : AreDistinct []
unfolding AreDistinct
empty-AreDistinct = tt

All-same_entry :
    (v x : JoystickValue) (xs : List JoystickValue)
    → same_entry v x ≡ true
    → All (λ y. same_entry x y ≡ false) xs
    → All (λ y. same_entry v y ≡ false) xs
All-same_entry v x [] h k = tt
All-same_entry v x (y ∷ xs) h (k, ks) = (same_entry_trans v x y h k, All-same_entry v x xs h ks)

module _ (found : JoystickValue → Bool) (v : JoystickValue)
    (is : (x : JoystickValue) → found x ≡ same_entry v x) where
  All-put_value :
      (x : JoystickValue) (xs : List JoystickValue)
      → same_entry x v ≡ false
      → All (λ y. same_entry x y ≡ false) xs
      → All (λ y. same_entry x y ≡ false) (put_value found v xs)
  unfolding put_value
  All-put_value x [] h k = (h, tt)
  All-put_value x (y ∷ xs) h (k, ks) = elim (Bool-cases (found y)) [
    | inl e ↦ rw e (h, ks)
    | inr e ↦ rw e (k, All-put_value x xs h ks)
  ]

  pub put_value-AreDistinct :
      (xs : List JoystickValue) → AreDistinct xs → AreDistinct (put_value found v xs)
  unfolding put_value AreDistinct
  put_value-AreDistinct [] h = (tt, tt)
  put_value-AreDistinct (x ∷ xs) (h, hs) = elim (Bool-cases (found x)) [
    | inl e ↦ rw e (All-same_entry v x xs (sym (is x) ∙ e) h, hs)
    | inr e ↦
        rw e
          (All-put_value x xs (same_entry_sym v x (sym (is x) ∙ e)) h, put_value-AreDistinct xs hs)
  ]

pub is_button-same_entry :
    (k : ℕ) (pressed : Bool) (x : JoystickValue)
    → (is_button x && (id x == k)) ≡ same_entry (button k pressed) x
unfolding is_button id same_entry
is_button-same_entry k pressed (button i p) = refl
is_button-same_entry k pressed (axis i p) = refl
is_button-same_entry k pressed (pov i p) = refl

pub is_axis-same_entry :
    (k value : ℕ) (x : JoystickValue) → (is_axis x && (id x == k)) ≡ same_entry (axis k value) x
unfolding is_axis id same_entry
is_axis-same_entry k value (button i p) = refl
is_axis-same_entry k value (axis i p) = refl
is_axis-same_entry k value (pov i p) = refl

pub is_pov-same_entry :
    (k value : ℕ) (x : JoystickValue) → (is_pov x && (id x == k)) ≡ same_entry (pov k value) x
unfolding is_pov id same_entry
is_pov-same_entry k value (button i p) = refl
is_pov-same_entry k value (axis i p) = refl
is_pov-same_entry k value (pov i p) = refl
