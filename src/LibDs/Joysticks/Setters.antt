-- ===== src/LibDs/Joysticks/Setters.antt =====
-- That the setters of libDS/src/joysticks.rs set the settings of a joystick, and no more.
use ds_rs.Prelude.{
  ℕ, ◌-◌, ◌≡◌, refl, sym, ap, ◌∙◌, Bool, true, false, Option, none, some, List, [], ◌∷◌, All,
  length, get_elem?, Outcome, ok, if◌then◌else◌, arith, Bool-cases, inl, inr,
}
use mathlib.Core.Quot
use ds_rs.Crates.{Float32}
use ds_rs.Ds.Joystick.{JoystickValue, axis, button, pov, at_rest, apply_values}
use ds_rs.Ds.Joystick.Settings.{
  same_entry, same_entry_both, same_entry_other, same_entry_trans, last_of, last_of-append, listed,
  set, joystick,
}
use ds_rs.LibDs.Joysticks.{
  Store, success, assign, put_value, set_locked, set_value, set_button, set_axis, set_pov,
}
use ds_rs.LibDs.Joysticks.Ports.{not_above}
use ds_rs.LibDs.Joysticks.Distinct.{
  AreDistinct, is_button-same_entry, is_axis-same_entry, is_pov-same_entry,
}
use ds_rs.LibDs.Joysticks.Reach.{Reach, Reach-IsGood, All-get_elem?}
use ds_rs.LibDs.Joysticks.Sent.{get_elem?-lt, get_elem?-assign}

-- An entry that no value is of.
last_of-absent :
    (e x : JoystickValue) (before : Option JoystickValue) (xs : List JoystickValue)
    → same_entry e x ≡ true
    → All (λ y. same_entry x y ≡ false) xs
    → last_of e before xs ≡ before
last_of-absent e x before [] h k = refl
last_of-absent e x before (y ∷ xs) h (k, ks) =
    rw (same_entry_trans e x y h k) (last_of-absent e x before xs h ks)

-- What a call of a setter does to a store whose joystick at the port lists the values `xs`.
abbrev pub Sets :
    JoystickValue → Float32 → ℕ → Store → List JoystickValue → Outcome (Store × ℕ) → Type 0
Sets v f port s xs result =
    (t : Store) × (ys : List JoystickValue) × (result ≡ ok (t, success))
    × (get_elem? t.sticks port ≡ some ys)
    × (listed ys ≡ set v (listed xs))
    × (apply_values f at_rest ys ≡ joystick f (set v (listed xs)))
    × (t ≡ record s { sticks = assign port ys s.sticks })

module _ (found : JoystickValue → Bool) (v : JoystickValue)
    (is : (x : JoystickValue) → found x ≡ same_entry v x) where
  -- The value takes the place of the one of its entry, and what is read is as if it came last.
  last_of-replaced :
      (e x : JoystickValue) (before : Option JoystickValue) (xs : List JoystickValue)
      → same_entry v x ≡ true
      → All (λ y. same_entry x y ≡ false) xs
      → last_of e (if same_entry e v then some v else before) xs ≡ (
          if same_entry e v
          then some v
          else last_of e (if same_entry e x then some x else before) xs)
  last_of-replaced e x before xs same absent = elim (Bool-cases (same_entry e v)) [
    | inl t ↦ rw t (last_of-absent e x (some v) xs (sym (same_entry_both e v x t) ∙ same) absent)
    | inr n ↦ rw (n, same_entry_other e v x n same) refl
  ]

  last_of-put_value :
      (e : JoystickValue) (before : Option JoystickValue) (xs : List JoystickValue)
      → AreDistinct xs
      → last_of e before (put_value found v xs)
        ≡ (if same_entry e v then some v else last_of e before xs)
  unfolding put_value AreDistinct
  last_of-put_value e before [] h = refl
  last_of-put_value e before (x ∷ xs) (h, hs) = elim (Bool-cases (found x)) [
    | inl t ↦ rw t (last_of-replaced e x before xs (sym (is x) ∙ t) h)
    | inr n ↦ rw n (last_of-put_value e (if same_entry e x then some x else before) xs hs)
  ]

  put_value-set :
      (xs : List JoystickValue) → AreDistinct xs → listed (put_value found v xs) ≡ set v (listed xs)
  unfolding set
  put_value-set xs h =
      Quot.sound (λ e. last_of-put_value e none xs h ∙ sym (last_of-append e none xs v))

  set_value-Sets :
      (f : Float32) (port : ℕ) {s : Store} (xs : List JoystickValue)
      → Reach s
      → get_elem? s.sticks port ≡ some xs
      → Sets v f port s xs (set_value found v port s)
  unfolding set_value set_locked joystick
  set_value-Sets f port {s} xs r e =
      let good = Reach-IsGood r in
      let there = get_elem?-lt port s.sticks e in
      let each = All-get_elem? AreDistinct port s.sticks good.distinct e in
      (
        record s { sticks = assign port (put_value found v xs) s.sticks },
        put_value found v xs,
        rw
            (
              good.free,
              not_above 1 (length s.sticks) (omega arith),
              not_above port (length s.sticks - 1) (omega arith),
              e,
            )
            refl,
        get_elem?-assign port (put_value found v xs) s.sticks there,
        put_value-set xs each,
        ap (joystick f) (put_value-set xs each),
        refl,
      )

-- After any calls of the C interface that returned, each of the three setters succeeds on a joystick
-- that is there: its settings are then those of before with the value set, whatever the order in which
-- the values are listed; the driver station makes the tag of it from just these settings; and nothing
-- but the entry of that port is written.
pub setters-Sets :
    (f : Float32) (port k : ℕ) (pressed : Bool) (value : ℕ) {s : Store} (xs : List JoystickValue)
    → Reach s
    → get_elem? s.sticks port ≡ some xs
    → Sets (button k pressed) f port s xs (set_button port k pressed s)
      × Sets (axis k value) f port s xs (set_axis port k value s)
      × Sets (pov k value) f port s xs (set_pov port k value s)
unfolding set_button set_axis set_pov
setters-Sets f port k pressed value xs r e = (
  set_value-Sets _ (button k pressed) (is_button-same_entry k pressed) f port xs r e,
  set_value-Sets _ (axis k value) (is_axis-same_entry k value) f port xs r e,
  set_value-Sets _ (pov k value) (is_pov-same_entry k value) f port xs r e,
)
