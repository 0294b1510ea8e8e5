-- ===== src/Ds/Joystick/Entries.antt =====
-- The entries of a joystick in src/ds/state/send.rs, and what writing one of them changes.
use ds_rs.Prelude.{
  ℕ, zero, suc, ◌+◌, ◌-◌, ◌≤◌, ◌<◌, ◌≡◌, ◌≢◌, refl, ap, ◌∙◌, Bool, true, false, ◌&&◌, some, List,
  [], ◌∷◌, length, get_elem?, remove, insert, get_elem?-insert-remove_self,
  get_elem?-insert-remove_ne, ok, leb, ◌==◌, if◌then◌else◌, arith, Bool-cases, inl, inr, lt→ltb,
  le→leb, ==_iff,
}
use ds_rs.Crates.{Float32}
use ds_rs.Proto.Tags.{Joysticks}
use ds_rs.Ds.Joystick.{JoystickValue, axis, button, pov, replace, axis_byte}

-- The sizes of the vectors of a joystick.
pub record IsShaped (j : Joysticks) : Type 0 where
  pub six_axes : length j.axes ≡ 6
  pub ten_buttons : length j.buttons ≡ 10
  pub one_pov : length j.povs ≡ 1

-- Writing an entry that is there.
abbrev pub write {ℓ} : {A : Type ℓ} → ℕ → A → List A → List A
write i v xs = insert i v (remove i xs)

length-remove {ℓ} :
    {A : Type ℓ} (i : ℕ) (xs : List A) → i < length xs → suc (length (remove i xs)) ≡ length xs
length-remove i [] h = absurd (omega arith)
length-remove zero (x ∷ xs) h = refl
length-remove (suc i) (x ∷ xs) h = ap suc (length-remove i xs (omega arith))

pub replace-ok {ℓ} :
    {A : Type ℓ} (i : ℕ) (v : A) (xs : List A) → i < length xs → replace i v xs ≡ ok (write i v xs)
replace-ok i v xs h =
    rw (lt→ltb i (length xs) h)
      (rw (le→leb i (length (remove i xs)) (omega (arith, length-remove i xs h))) refl)

-- The value that a joystick's entry has after the values of a list, from the value before: the last
-- one that names the entry counts. Buttons are numbered from 1.
abbrev pub button_now : ℕ → Bool → List JoystickValue → Bool
button_now i before [] = before
button_now i before (button k pressed ∷ vs) =
    button_now i (if k == i + 1 then pressed else before) vs
button_now i before (axis k value ∷ vs) = button_now i before vs
button_now i before (pov k angle ∷ vs) = button_now i before vs

abbrev pub axis_now : Float32 → ℕ → ℕ → List JoystickValue → ℕ
axis_now f i before [] = before
axis_now f i before (axis k value ∷ vs) =
    axis_now f i (if k == i then axis_byte f value else before) vs
axis_now f i before (button k pressed ∷ vs) = axis_now f i before vs
axis_now f i before (pov k angle ∷ vs) = axis_now f i before vs

abbrev pub pov_now : ℕ → List JoystickValue → ℕ
pov_now before [] = before
pov_now before (pov k angle ∷ vs) = pov_now (if k == 0 then angle else before) vs
pov_now before (button k pressed ∷ vs) = pov_now before vs
pov_now before (axis k value ∷ vs) = pov_now before vs

-- A joystick whose entries are known at every index.
pub record Holds (j : Joysticks) (axes : ℕ → ℕ) (buttons : ℕ → Bool) (pov : ℕ) : Type 0 where
  pub shape : IsShaped j
  pub axis_at : (i : ℕ) → i < 6 → get_elem? j.axes i ≡ some (axes i)
  pub button_at : (i : ℕ) → i < 10 → get_elem? j.buttons i ≡ some (buttons i)
  pub pov_at : get_elem? j.povs 0 ≡ some pov

pub get_elem?-write {ℓ} :
    {A : Type ℓ} (k i : ℕ) (v before : A) (xs : List A)
    → k < length xs
    → get_elem? xs i ≡ some before
    → get_elem? (write k v xs) i ≡ some (if k == i then v else before)
get_elem?-write k i v before xs h e = elim (Bool-cases (k == i)) [
  | inl same ↦ rw same (rw (← (==_iff k i).0 same) (get_elem?-insert-remove_self k v xs h))
  | inr other ↦
      rw other (get_elem?-insert-remove_ne k i v xs h (λ p. cc (other, (==_iff k i).1 p)) ∙ e)
]

pub differ : (k i : ℕ) → k ≢ i → (k == i) ≡ false
differ k i h = ground arith

pub outside : (k i n : ℕ) → leb k n ≡ false → i < suc n → (k == i) ≡ false
outside k i n e h = ground arith

pub no_button : (k i : ℕ) → (leb 1 k && leb k 10) ≡ false → i < 10 → (k == i + 1) ≡ false
no_button k i e h = ground arith

pub is_button : (k : ℕ) → (leb 1 k && leb k 10) ≡ true → (1 ≤ k) × (k ≤ 10)
is_button k e = ground arith

pub from_one : (k i : ℕ) → 1 ≤ k → (k - 1 == i) ≡ (k == i + 1)
from_one k i h = ground arith

-- The list of the values of a function at 0 to n - 1, from the index `i` on.
abbrev pub tabulate {ℓ} : {A : Type ℓ} → ℕ → (ℕ → A) → List A
tabulate zero g = []
tabulate (suc n) g = g 0 ∷ tabulate n (λ i. g (suc i))

tabulate-get_elem? {ℓ} :
    {A : Type ℓ} (n : ℕ) (g : ℕ → A) (xs : List A)
    → length xs ≡ n
    → ((i : ℕ) → i < n → get_elem? xs i ≡ some (g i))
    → xs ≡ tabulate n g
tabulate-get_elem? zero g [] size at = refl
tabulate-get_elem? zero g (x ∷ xs) size at = absurd (omega arith)
tabulate-get_elem? (suc n) g [] size at = absurd (omega arith)
tabulate-get_elem? (suc n) g (x ∷ xs) size at = cc (
  at 0 (omega arith),
  tabulate-get_elem? n (λ i. g (suc i)) xs (omega arith) (λ i h. at (suc i) (omega arith)),
)

-- The joystick with the entries of the functions.
abbrev pub filled : (ℕ → ℕ) → (ℕ → Bool) → ℕ → Joysticks
filled axes buttons p = record {
  axes = tabulate 6 axes;
  buttons = tabulate 10 buttons;
  povs = p ∷ [];
}

pub Holds-filled :
    (j : Joysticks) (axes : ℕ → ℕ) (buttons : ℕ → Bool) (p : ℕ)
    → Holds j axes buttons p
    → j ≡ filled axes buttons p
Holds-filled j axes buttons p h = cc (
  tabulate-get_elem? 6 axes j.axes h.shape.six_axes h.axis_at,
  tabulate-get_elem? 10 buttons j.buttons h.shape.ten_buttons h.button_at,
  tabulate-get_elem? 1 (λ i. p) j.povs h.shape.one_pov first,
)
  where
    first : (i : ℕ) → i < 1 → get_elem? j.povs i ≡ some p
    first zero lt = h.pov_at
    first (suc i) lt = absurd (omega arith)
