-- ===== src/LibDs/Joysticks/Reach.antt =====
-- What holds of the joysticks of libDS/src/joysticks.rs after any calls.
use ds_rs.Prelude.{
  ℕ, zero, suc, ◌-◌, ◌≤◌, ◌≡◌, refl, Bool, true, false, some, List, [], ◌∷◌, ◌++◌, All, length,
  length-append, get_elem?, replicate, remove, Outcome, ok, err, panicked, ltb, ◌==◌, if◌then◌else◌,
  arith, Bool-cases, Option-cases, inl, inr,
}
use ds_rs.Ds.Joystick.{JoystickValue, axis, button, pov}
use ds_rs.LibDs.Joysticks.{
  Store, locked, poison_lock, attach_locked, detach_locked, set_locked, no_sticks, assign,
  put_value, Call, attach, detach, set_value, set_button, set_axis, set_pov,
}
use ds_rs.Ds.Joystick.Settings.{same_entry}
use ds_rs.LibDs.Joysticks.Distinct.{
  AreDistinct, empty-AreDistinct, put_value-AreDistinct, is_button-same_entry, is_axis-same_entry,
  is_pov-same_entry,
}
use ds_rs.LibDs.Joysticks.Ports.{length-replicate}

-- An unpoisoned lock and at most five joysticks, each with values of different entries.
pub record IsGood (s : Store) : Type 0 where
  pub free : s.poisoned ≡ false
  pub few : length s.sticks ≤ 5
  pub distinct : All AreDistinct s.sticks

-- What a call leaves, if it returns.
abbrev Keeps : Outcome (Store × ℕ) → Type 0
Keeps (ok (t, code)) = IsGood t
Keeps (err e) = Unit {0}
Keeps panicked = Unit {0}

length-assign {ℓ} : {A : Type ℓ} (i : ℕ) (v : A) (xs : List A) → length (assign i v xs) ≡ length xs
unfolding assign
length-assign i v [] = refl
length-assign zero v (x ∷ xs) = refl
length-assign (suc i) v (x ∷ xs) = omega (arith, length-assign i v xs)

module _ {A : Type 0} (P : A → Type 0) where
  All-assign : (i : ℕ) (v : A) (xs : List A) → P v → All P xs → All P (assign i v xs)
  unfolding assign
  All-assign i v [] p h = tt
  All-assign zero v (x ∷ xs) p (h, hs) = (p, hs)
  All-assign (suc i) v (x ∷ xs) p (h, hs) = (h, All-assign i v xs p hs)

  All-remove : (i : ℕ) (xs : List A) → All P xs → All P (remove i xs)
  All-remove i [] h = tt
  All-remove zero (x ∷ xs) (h, hs) = hs
  All-remove (suc i) (x ∷ xs) (h, hs) = (h, All-remove i xs hs)

  All-append : (xs ys : List A) → All P xs → All P ys → All P (xs ++ ys)
  All-append [] ys h k = k
  All-append (x ∷ xs) ys (h, hs) k = (h, All-append xs ys hs k)

  All-replicate : (n : ℕ) (a : A) → P a → All P (replicate n a)
  All-replicate zero a p = tt
  All-replicate (suc n) a p = (p, All-replicate n a p)

  pub All-get_elem? : (i : ℕ) (xs : List A) {x : A} → All P xs → get_elem? xs i ≡ some x → P x
  All-get_elem? i [] h e = cc
  All-get_elem? zero (y ∷ xs) {x} (h, hs) e = let same : y ≡ x = cc in rw same at h
  All-get_elem? (suc i) (y ∷ xs) (h, hs) e = All-get_elem? i xs hs e

length-remove-le {ℓ} : {A : Type ℓ} (i : ℕ) (xs : List A) → length (remove i xs) ≤ length xs
length-remove-le i [] = omega arith
length-remove-le zero (x ∷ xs) = omega arith
length-remove-le (suc i) (x ∷ xs) = omega (arith, length-remove-le i xs)

-- A poisoned lock changes nothing.
locked-Keeps : (rest : Call) (s : Store) → IsGood s → Keeps (rest s) → Keeps (locked rest s)
locked-Keeps rest s h k =
    elim s.poisoned as (λ c. Keeps (if c then ok (s, poison_lock) else rest s)) [
      | true ↦ h
      | false ↦ k
    ]

attach-Keeps : (port : ℕ) (s : Store) → IsGood s → Keeps (attach port s)
unfolding attach
attach-Keeps port s h = elim (Bool-cases (ltb 5 port)) [
  | inl e ↦ rw e h
  | inr e ↦ rw e (
      locked-Keeps (attach_locked port) s h (elim (Bool-cases (ltb port (length s.sticks))) [
        | inl l ↦ rw l tt
        | inr l ↦ rw l (record {
          free = h.free;
          few = ground (
            arith,
            length-append s.sticks (replicate (port - length s.sticks) []),
            length-replicate {A = List JoystickValue} (port - length s.sticks) [],
          );
          distinct =
              All-append AreDistinct s.sticks (replicate (port - length s.sticks) []) h.distinct
                (All-replicate AreDistinct (port - length s.sticks) [] empty-AreDistinct);
        })
      ]))
]

detach-Keeps : (port : ℕ) (s : Store) → IsGood s → Keeps (detach port s)
unfolding detach detach_locked
detach-Keeps port s h = elim (Bool-cases (ltb 5 port)) [
  | inl e ↦ rw e h
  | inr e ↦ rw e (
      locked-Keeps (detach_locked port) s h (elim (Bool-cases (ltb (length s.sticks) 1)) [
        | inl l ↦ rw l tt
        | inr l ↦ rw l (elim (Bool-cases (port == length s.sticks - 1)) [
          | inr q ↦ rw q (record {
            free = h.free;
            few = omega (arith, length-assign port [] s.sticks, h.few);
            distinct = All-assign AreDistinct port [] s.sticks empty-AreDistinct h.distinct;
          })
          | inl q ↦ rw q (elim (Bool-cases (ltb port (length s.sticks))) [
            | inr r ↦ rw r tt
            | inl r ↦ rw r (record {
              free = h.free;
              few = omega (arith, length-remove-le port s.sticks, h.few);
              distinct = All-remove AreDistinct port s.sticks h.distinct;
            })
          ])
        ])
      ]))
]

set_value-Keeps :
    (found : JoystickValue → Bool) (v : JoystickValue) (port : ℕ) (s : Store)
    → ((x : JoystickValue) → found x ≡ same_entry v x)
    → IsGood s
    → Keeps (set_value found v port s)
unfolding set_value set_locked
set_value-Keeps found v port s is h =
    locked-Keeps (set_locked found v port) s h (elim (Bool-cases (ltb (length s.sticks) 1)) [
      | inl l ↦ rw l tt
      | inr l ↦ rw l (elim (Bool-cases (ltb (length s.sticks - 1) port)) [
        | inl q ↦ rw q h
        | inr q ↦ rw q (elim (Option-cases (get_elem? s.sticks port)) [
          | inl n ↦ rw n tt
          | inr (inner, n) ↦ rw n (record {
            free = h.free;
            few = omega (arith, length-assign port (put_value found v inner) s.sticks, h.few);
            distinct =
                All-assign AreDistinct port (put_value found v inner) s.sticks
                  (put_value-AreDistinct found v is inner
                    (All-get_elem? AreDistinct port s.sticks h.distinct n))
                  h.distinct;
          })
        ])
      ])
    ])

-- One call of the C interface that returns, with its code.
pub data Step (s : Store) (t : Store) : Type 0 where
  attach_step : (port code : ℕ) → attach port s ≡ ok (t, code) → Step s t
  detach_step : (port code : ℕ) → detach port s ≡ ok (t, code) → Step s t
  button_step :
      (port k : ℕ) (pressed : Bool) (code : ℕ)
      → set_button port k pressed s ≡ ok (t, code)
      → Step s t
  axis_step : (port k value code : ℕ) → set_axis port k value s ≡ ok (t, code) → Step s t
  pov_step : (port k angle code : ℕ) → set_pov port k angle s ≡ ok (t, code) → Step s t

pub data Reach : Store → Type 0 where
  begin : Reach no_sticks
  next : {s t : Store} → Reach s → Step s t → Reach t

Step-IsGood : {s t : Store} → Step s t → IsGood s → IsGood t
unfolding set_button set_axis set_pov
Step-IsGood {s} (attach_step port code e) h = rw e at (attach-Keeps port s h)
Step-IsGood {s} (detach_step port code e) h = rw e at (detach-Keeps port s h)
Step-IsGood {s} (button_step port k pressed code e) h =
    rw e at (set_value-Keeps _ (button k pressed) port s (is_button-same_entry k pressed) h)
Step-IsGood {s} (axis_step port k value code e) h =
    rw e at (set_value-Keeps _ (axis k value) port s (is_axis-same_entry k value) h)
Step-IsGood {s} (pov_step port k angle code e) h =
    rw e at (set_value-Keeps _ (pov k angle) port s (is_pov-same_entry k angle) h)

-- After any calls that return, from no joysticks on, the lock is not poisoned, there are at most five
-- joysticks, one fewer than the six ports that are accepted, and each has at most one value of each
-- axis, button and POV.
pub Reach-IsGood : {s : Store} → Reach s → IsGood s
Reach-IsGood begin = record { free = refl; few = omega arith; distinct = tt }
Reach-IsGood (next r st) = Step-IsGood st (Reach-IsGood r)
