-- ===== src/Ds/Joystick/Settings.antt =====
-- The settings of a joystick, as the loop of `SendState::control` in src/ds/state/send.rs sees the
-- values that a supplier lists: for each entry the last value of it, in whatever order they come.
use ds_rs.Prelude.{
  ℕ, ◌+◌, ◌≡◌, refl, sym, ap, ◌∙◌, Bool, true, false, ◌&&◌, Bool-cases, inl, inr, Option, none,
  some, List, [], ◌∷◌, ◌++◌, Outcome, ok, ◌==◌, if◌then◌else◌, arith,
}
use mathlib.Core.Quot
use mathlib.Core.Quot.{Quot, Quot-set}
use ds_rs.Crates.{Float32}
use ds_rs.Proto.Tags.{Joysticks}
use ds_rs.Ds.Joystick.{
  JoystickValue, axis, button, pov, id, at_rest, pov_centred, axis_byte, apply_values,
}
use ds_rs.Ds.Joystick.Entries.{button_now, axis_now, pov_now, filled}
use ds_rs.Ds.Joystick.Values.{joystick_of, apply_values_lem}

abbrev pub kind : JoystickValue → ℕ
kind (axis i v) = 0
kind (button i v) = 1
kind (pov i v) = 2

-- Whether two values are of the same axis, the same button or the same POV.
unfoldable pub same_entry : JoystickValue → JoystickValue → Bool
unfolding id
same_entry v x = (kind x == kind v) && (id x == id v)

pub same_entry_sym : (v x : JoystickValue) → same_entry v x ≡ false → same_entry x v ≡ false
unfolding same_entry
same_entry_sym v x h = ground arith

pub same_entry_trans :
    (v x y : JoystickValue)
    → same_entry v x ≡ true
    → same_entry x y ≡ false
    → same_entry v y ≡ false
unfolding same_entry
same_entry_trans v x y h k = ground arith

pub same_entry_other :
    (e v w : JoystickValue)
    → same_entry e v ≡ false
    → same_entry v w ≡ true
    → same_entry e w ≡ false
unfolding same_entry
same_entry_other e v w h k = ground arith

pub same_entry_both :
    (e v w : JoystickValue) → same_entry e v ≡ true → same_entry v w ≡ same_entry e w
unfolding same_entry
same_entry_both e v w h = ground arith

-- The last value of the entry of `e`, or what there was before.
abbrev pub last_of :
    JoystickValue → Option JoystickValue → List JoystickValue → Option JoystickValue
last_of e before [] = before
last_of e before (v ∷ vs) = last_of e (if same_entry e v then some v else before) vs

pub last_of-append :
    (e : JoystickValue) (before : Option JoystickValue) (vs : List JoystickValue)
    (v : JoystickValue)
    → last_of e before (vs ++ v ∷ []) ≡ (if same_entry e v then some v else last_of e before vs)
last_of-append e before [] v = refl
last_of-append e before (x ∷ vs) v =
    last_of-append e (if same_entry e x then some x else before) vs v

-- Two lists that say the same of every entry.
abbrev pub Same : List JoystickValue → List JoystickValue → Type 0
Same vs ws = (e : JoystickValue) → last_of e none vs ≡ last_of e none ws

abbrev pub Settings : Type 0
Settings = Quot Same

abbrev pub listed : List JoystickValue → Settings
listed vs = Quot.mk vs

pub Same-append :
    (v : JoystickValue) (vs ws : List JoystickValue)
    → Same vs ws
    → Same (vs ++ v ∷ []) (ws ++ v ∷ [])
Same-append v vs ws h e = rw (last_of-append e none vs v, last_of-append e none ws v, h e) refl

-- A value is listed behind the others.
unfoldable pub set : JoystickValue → Settings → Settings
set v =
    Quot.lift Quot-set (λ vs. Quot.mk (vs ++ v ∷ []))
      (λ vs ws h. Quot.sound (Same-append v vs ws h))

pub Outcome-IsSet : IsSet (Outcome Joysticks)
Outcome-IsSet = hlevel

-- What an entry shows of the last value of it.
abbrev axis_value : Float32 → Option JoystickValue → ℕ
axis_value f (some (axis k v)) = axis_byte f v
axis_value f _ = 0

abbrev button_value : Option JoystickValue → Bool
button_value (some (button k pressed)) = pressed
button_value _ = false

abbrev pov_value : Option JoystickValue → ℕ
pov_value (some (pov k angle)) = angle
pov_value _ = pov_centred

axis_now-last_of :
    (f : Float32) (i : ℕ) (before : Option JoystickValue) (vs : List JoystickValue)
    → axis_now f i (axis_value f before) vs ≡ axis_value f (last_of (axis i 0) before vs)
unfolding same_entry id
axis_now-last_of f i before [] = refl
axis_now-last_of f i before (axis k v ∷ vs) = elim (Bool-cases (k == i)) [
  | inl e ↦ rw e (axis_now-last_of f i (some (axis k v)) vs)
  | inr e ↦ rw e (axis_now-last_of f i before vs)
]
axis_now-last_of f i before (button k v ∷ vs) = axis_now-last_of f i before vs
axis_now-last_of f i before (pov k v ∷ vs) = axis_now-last_of f i before vs

button_now-last_of :
    (i : ℕ) (before : Option JoystickValue) (vs : List JoystickValue)
    → button_now i (button_value before) vs
      ≡ button_value (last_of (button (i + 1) false) before vs)
unfolding same_entry id
button_now-last_of i before [] = refl
button_now-last_of i before (button k v ∷ vs) = elim (Bool-cases (k == i + 1)) [
  | inl e ↦ rw e (button_now-last_of i (some (button k v)) vs)
  | inr e ↦ rw e (button_now-last_of i before vs)
]
button_now-last_of i before (axis k v ∷ vs) = button_now-last_of i before vs
button_now-last_of i before (pov k v ∷ vs) = button_now-last_of i before vs

pov_now-last_of :
    (before : Option JoystickValue) (vs : List JoystickValue)
    → pov_now (pov_value before) vs ≡ pov_value (last_of (pov 0 0) before vs)
unfolding same_entry id
pov_now-last_of before [] = refl
pov_now-last_of before (pov k v ∷ vs) = elim (Bool-cases (k == 0)) [
  | inl e ↦ rw e (pov_now-last_of (some (pov k v)) vs)
  | inr e ↦ rw e (pov_now-last_of before vs)
]
pov_now-last_of before (axis k v ∷ vs) = pov_now-last_of before vs
pov_now-last_of before (button k v ∷ vs) = pov_now-last_of before vs

module _ (f : Float32) where
  pub apply_values-Same :
      (vs ws : List JoystickValue)
      → Same vs ws
      → apply_values f at_rest vs ≡ apply_values f at_rest ws
  apply_values-Same vs ws h =
      apply_values_lem f vs ∙ ap (λ (j : Joysticks). ok j) same ∙ sym (apply_values_lem f ws)
    where
      axes : (i : ℕ) → axis_now f i 0 vs ≡ axis_now f i 0 ws
      axes i =
          axis_now-last_of f i none vs
          ∙ ap (axis_value f) (h (axis i 0))
          ∙ sym (axis_now-last_of f i none ws)

      buttons : (i : ℕ) → button_now i false vs ≡ button_now i false ws
      buttons i =
          button_now-last_of i none vs
          ∙ ap button_value (h (button (i + 1) false))
          ∙ sym (button_now-last_of i none ws)

      povs : pov_now pov_centred vs ≡ pov_now pov_centred ws
      povs = pov_now-last_of none vs ∙ ap pov_value (h (pov 0 0)) ∙ sym (pov_now-last_of none ws)

      same : joystick_of f vs ≡ joystick_of f ws
      same = λ i. filled (λ n. axes n i) (λ n. buttons n i) (povs i)

  -- What the loop makes of the settings.
  unfoldable pub joystick : Settings → Outcome Joysticks
  joystick = Quot.lift Outcome-IsSet (λ vs. apply_values f at_rest vs) apply_values-Same

-- What is read of two values that are set one after the other.
last_of-append_two :
    (e v w : JoystickValue) (vs : List JoystickValue)
    → last_of e none ((vs ++ w ∷ []) ++ v ∷ [])
      ≡ (if same_entry e v then some v else (if same_entry e w then some w else last_of e none vs))
last_of-append_two e v w vs =
    rw (last_of-append e none (vs ++ w ∷ []) v, last_of-append e none vs w) refl

Same-swap :
    (v w : JoystickValue)
    → same_entry v w ≡ false
    → (vs : List JoystickValue) → Same ((vs ++ w ∷ []) ++ v ∷ []) ((vs ++ v ∷ []) ++ w ∷ [])
Same-swap v w apart vs e =
    rw (last_of-append_two e v w vs, last_of-append_two e w v vs)
      (elim (Bool-cases (same_entry e v)) [
        | inl t ↦ rw (t, sym (same_entry_both e v w t) ∙ apart) refl
        | inr n ↦ rw n refl
      ])

Same-again :
    (v w : JoystickValue)
    → same_entry v w ≡ true
    → (vs : List JoystickValue) → Same ((vs ++ w ∷ []) ++ v ∷ []) (vs ++ v ∷ [])
Same-again v w same vs e =
    rw (last_of-append_two e v w vs, last_of-append e none vs v)
      (elim (Bool-cases (same_entry e v)) [
        | inl t ↦ rw t refl
        | inr n ↦ rw (n, same_entry_other e v w n same) refl
      ])

set_comm :
    (v w : JoystickValue)
    → same_entry v w ≡ false
    → (s : Settings) → set v (set w s) ≡ set w (set v s)
unfolding set
set_comm v w apart = Quot.ind (λ s. Quot-set _ _) (λ vs. Quot.sound (Same-swap v w apart vs))

set_again :
    (v w : JoystickValue) → same_entry v w ≡ true → (s : Settings) → set v (set w s) ≡ set v s
unfolding set
set_again v w same = Quot.ind (λ s. Quot-set _ _) (λ vs. Quot.sound (Same-again v w same vs))

-- The settings of a joystick forget the order of the values that are listed: of two values set one
-- after the other, one of the same entry takes the place of the first, and two of different entries
-- can be set in either order. What the loop makes of any list of values is made of its settings.
pub settings_lem :
    (f : Float32) (v w : JoystickValue) (s : Settings) (vs : List JoystickValue)
    → (set v (set w s) ≡ (if same_entry v w then set v s else set w (set v s)))
      × (set v (listed vs) ≡ listed (vs ++ v ∷ []))
      × (joystick f (listed vs) ≡ apply_values f at_rest vs)
unfolding set joystick
settings_lem f v w s vs = (
  elim (Bool-cases (same_entry v w)) [
    | inl same ↦ rw same (set_again v w same s)
    | inr apart ↦ rw apart (set_comm v w apart s)
  ],
  refl,
  refl,
)
