-- ===== src/Ds/Joystick/Values.antt =====
-- What the inner loop of `SendState::control` in src/ds/state/send.rs makes of the values that the
-- supplier lists for one joystick.
use ds_rs.Prelude.{
  ℕ, zero, suc, ◌-◌, ◌≤◌, ◌<◌, ◌≡◌, refl, ap, ◌∙◌, Bool, false, ◌&&◌, some, List, [], ◌∷◌, length,
  get_elem?, replicate, length-insert-remove, ok, leb, ◌==◌, arith, Bool-cases, inl, inr, leb→le,
  ==_iff,
}
use ds_rs.Crates.{Float32}
use ds_rs.Proto.Tags.{Joysticks}
use ds_rs.Ds.Joystick.{
  JoystickValue, axis, button, pov, at_rest, pov_centred, axis_byte, apply_value, apply_values,
}
use ds_rs.Ds.Joystick.Entries.{
  write, replace-ok, button_now, axis_now, pov_now, Holds, get_elem?-write, outside, no_button,
  is_button, from_one, filled, Holds-filled,
}

module _ (f : Float32) (j : Joysticks) (axes : ℕ → ℕ) (buttons : ℕ → Bool) (p : ℕ) where
  -- What one value leaves: the entries after it, whatever they were.
  abbrev After : JoystickValue → Type 0
  After v =
      (j' : Joysticks) × (apply_value f v j ≡ ok j')
      × Holds j' (λ i. axis_now f i (axes i) (v ∷ [])) (λ i. button_now i (buttons i) (v ∷ []))
          (pov_now p (v ∷ []))

  apply_axis : (k value : ℕ) → Holds j axes buttons p → After (axis k value)
  unfolding apply_value
  apply_axis k value h = elim (Bool-cases (leb k 5)) [
    | inl e ↦ (
      record j { axes = write k (axis_byte f value) j.axes },
      rw (e, replace-ok k (axis_byte f value) j.axes (in_axes (leb→le k 5 e))) refl,
      record {
        shape = record {
          six_axes =
              length-insert-remove k (axis_byte f value) j.axes (in_axes (leb→le k 5 e))
              ∙ h.shape.six_axes;
          ten_buttons = h.shape.ten_buttons;
          one_pov = h.shape.one_pov;
        };
        axis_at = λ i hi.
            get_elem?-write k i (axis_byte f value) (axes i) j.axes (in_axes (leb→le k 5 e))
              (h.axis_at i hi);
        button_at = h.button_at;
        pov_at = h.pov_at;
      },
    )
    | inr e ↦ (
      j,
      rw e refl,
      record {
        shape = h.shape;
        axis_at = λ i hi. rw (outside k i 5 e hi) (h.axis_at i hi);
        button_at = h.button_at;
        pov_at = h.pov_at;
      },
    )
  ]
    where
      in_axes : k ≤ 5 → k < length j.axes
      in_axes le = omega (arith, h.shape.six_axes)

  apply_button : (k : ℕ) (pressed : Bool) → Holds j axes buttons p → After (button k pressed)
  unfolding apply_value
  apply_button k pressed h = elim (Bool-cases (leb 1 k && leb k 10)) [
    | inl e ↦ (
      record j { buttons = write (k - 1) pressed j.buttons },
      rw (e, replace-ok (k - 1) pressed j.buttons (in_buttons (is_button k e))) refl,
      record {
        shape = record {
          ten_buttons =
              length-insert-remove (k - 1) pressed j.buttons (in_buttons (is_button k e))
              ∙ h.shape.ten_buttons;
          six_axes = h.shape.six_axes;
          one_pov = h.shape.one_pov;
        };
        axis_at = h.axis_at;
        button_at = λ i hi. rw (← from_one k i (is_button k e).0) (
            get_elem?-write (k - 1) i pressed (buttons i) j.buttons (in_buttons (is_button k e))
              (h.button_at i hi));
        pov_at = h.pov_at;
      },
    )
    | inr e ↦ (
      j,
      rw e refl,
      record {
        shape = h.shape;
        axis_at = h.axis_at;
        button_at = λ i hi. rw (no_button k i e hi) (h.button_at i hi);
        pov_at = h.pov_at;
      },
    )
  ]
    where
      in_buttons : (1 ≤ k) × (k ≤ 10) → k - 1 < length j.buttons
      in_buttons le = omega (arith, h.shape.ten_buttons)

  apply_pov : (k angle : ℕ) → Holds j axes buttons p → After (pov k angle)
  unfolding apply_value
  apply_pov k angle h = elim (Bool-cases (k == 0)) [
    | inl e ↦ (
      record j { povs = write k angle j.povs },
      rw (e, replace-ok k angle j.povs (in_povs ((==_iff k 0).0 e))) refl,
      record {
        shape = record {
          one_pov =
              length-insert-remove k angle j.povs (in_povs ((==_iff k 0).0 e)) ∙ h.shape.one_pov;
          six_axes = h.shape.six_axes;
          ten_buttons = h.shape.ten_buttons;
        };
        axis_at = h.axis_at;
        button_at = h.button_at;
        pov_at = get_elem?-write k 0 angle p j.povs (in_povs ((==_iff k 0).0 e)) h.pov_at;
      },
    )
    | inr e ↦ (
      j,
      rw e refl,
      record {
        shape = h.shape;
        axis_at = h.axis_at;
        button_at = h.button_at;
        pov_at = rw e h.pov_at;
      },
    )
  ]
    where
      in_povs : k ≡ 0 → k < length j.povs
      in_povs z = omega (arith, h.shape.one_pov)

apply_values-Holds :
    (f : Float32) (vs : List JoystickValue) (j : Joysticks) (axes : ℕ → ℕ) (buttons : ℕ → Bool)
    (p : ℕ)
    → Holds j axes buttons p
    → (j' : Joysticks) × (apply_values f j vs ≡ ok j')
      × Holds j' (λ i. axis_now f i (axes i) vs) (λ i. button_now i (buttons i) vs) (pov_now p vs)
unfolding apply_values
apply_values-Holds f [] j axes buttons p h = (j, refl, h)
apply_values-Holds f (axis k value ∷ vs) j axes buttons p h =
    let (j1, e, h1) = apply_axis f j axes buttons p k value h in
    let (j2, e2, h2) = apply_values-Holds f vs j1 _ buttons p h1 in (j2, rw e e2, h2)
apply_values-Holds f (button k pressed ∷ vs) j axes buttons p h =
    let (j1, e, h1) = apply_button f j axes buttons p k pressed h in
    let (j2, e2, h2) = apply_values-Holds f vs j1 axes _ p h1 in (j2, rw e e2, h2)
apply_values-Holds f (pov k angle ∷ vs) j axes buttons p h =
    let (j1, e, h1) = apply_pov f j axes buttons p k angle h in
    let (j2, e2, h2) = apply_values-Holds f vs j1 axes buttons _ h1 in (j2, rw e e2, h2)

get_elem?-replicate {ℓ} :
    {A : Type ℓ} (n i : ℕ) (a : A) → i < n → get_elem? (replicate n a) i ≡ some a
get_elem?-replicate zero i a h = absurd (omega arith)
get_elem?-replicate (suc n) zero a h = refl
get_elem?-replicate (suc n) (suc i) a h = get_elem?-replicate n i a (omega arith)

at_rest-Holds : Holds at_rest (λ i. 0) (λ i. false) pov_centred
at_rest-Holds = record {
  shape = record { six_axes = refl; ten_buttons = refl; one_pov = refl };
  axis_at = λ i h. get_elem?-replicate 6 i 0 h;
  button_at = λ i h. get_elem?-replicate 10 i false h;
  pov_at = refl;
}

-- The tag of a joystick whose supplier lists these values: each entry is the last value that names
-- it, and at rest where none does.
abbrev pub joystick_of : Float32 → List JoystickValue → Joysticks
joystick_of f vs =
    filled (λ i. axis_now f i 0 vs) (λ i. button_now i false vs) (pov_now pov_centred vs)

-- Whatever values the supplier lists, the loop panics nowhere and makes six axes, ten buttons and one
-- POV, each with the last value that names it, and at rest where none does.
pub apply_values_lem :
    (f : Float32) (vs : List JoystickValue) → apply_values f at_rest vs ≡ ok (joystick_of f vs)
apply_values_lem f vs =
    let (j, e, h) =
      apply_values-Holds f vs at_rest (λ i. 0) (λ i. false) pov_centred at_rest-Holds in
    e ∙ ap (λ (j : Joysticks). ok j) (Holds-filled j _ _ _ h)
