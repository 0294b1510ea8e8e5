-- ===== src/Prelude/Lists.antt =====
-- Lists measured and indexed by native numbers, under the library's names.
use Prim.Native.Nat.{ℕ, zero, suc, ◌+◌, ◌<◌, ◌≤◌, min, ◌-◌}
use mathlib.Core.Path.{◌≡◌, refl, ap, sym, ◌∙◌}
use mathlib.Core.Logic.{◌≢◌}
use mathlib.Core.List.{List, [], ◌∷◌, ◌++◌}
use mathlib.Core.Option.{Option, none, some}
use native.Mathlib.Omega.{arith}

module _ {ℓ} {A : Type ℓ} where
  abbrev pub length : List A → ℕ
  length [] = 0
  length (x ∷ xs) = suc (length xs)

  abbrev pub get_elem? : List A → ℕ → Option A
  get_elem? [] i = none
  get_elem? (x ∷ xs) zero = some x
  get_elem? (x ∷ xs) (suc i) = get_elem? xs i

  abbrev pub take : ℕ → List A → List A
  take zero xs = []
  take (suc n) [] = []
  take (suc n) (x ∷ xs) = x ∷ take n xs

  abbrev pub drop : ℕ → List A → List A
  drop zero xs = xs
  drop (suc n) [] = []
  drop (suc n) (x ∷ xs) = drop n xs

  abbrev pub replicate : ℕ → A → List A
  replicate zero a = []
  replicate (suc n) a = a ∷ replicate n a

  -- `Vec::remove` and `Vec::insert` at an index in range.
  abbrev pub remove : ℕ → List A → List A
  remove i [] = []
  remove zero (x ∷ xs) = xs
  remove (suc i) (x ∷ xs) = x ∷ remove i xs

  abbrev pub insert : ℕ → A → List A → List A
  insert zero v xs = v ∷ xs
  insert (suc i) v [] = []
  insert (suc i) v (x ∷ xs) = x ∷ insert i v xs

  abbrev pub All {κ} : (A → Type κ) → List A → Type κ
  All P [] = Unit {κ}
  All P (x ∷ xs) = P x × All P xs

module _ {ℓ} {A : Type ℓ} where
  pub length-append : (xs ys : List A) → length (xs ++ ys) ≡ length xs + length ys
  length-append [] ys = omega arith
  length-append (x ∷ xs) ys = omega (arith, length-append xs ys)

  pub length-replicate : (n : ℕ) (a : A) → length (replicate n a) ≡ n
  length-replicate zero a = refl
  length-replicate (suc n) a = ap suc (length-replicate n a)

  pub length-take : (n : ℕ) (xs : List A) → length (take n xs) ≡ min n (length xs)
  length-take zero xs = omega arith
  length-take (suc n) [] = omega arith
  length-take (suc n) (x ∷ xs) = omega (arith, length-take n xs)

  pub length-drop : (n : ℕ) (xs : List A) → length (drop n xs) ≡ length xs - n
  length-drop zero xs = omega arith
  length-drop (suc n) [] = omega arith
  length-drop (suc n) (x ∷ xs) = omega (arith, length-drop n xs)

  pub take-append : (xs ys : List A) → take (length xs) (xs ++ ys) ≡ xs
  take-append [] ys = refl
  take-append (x ∷ xs) ys = ap (λ t. x ∷ t) (take-append xs ys)

  pub drop-append : (xs ys : List A) → drop (length xs) (xs ++ ys) ≡ ys
  drop-append [] ys = refl
  drop-append (x ∷ xs) ys = drop-append xs ys

  pub take-append-drop : (n : ℕ) (xs : List A) → take n xs ++ drop n xs ≡ xs
  take-append-drop zero xs = refl
  take-append-drop (suc n) [] = refl
  take-append-drop (suc n) (x ∷ xs) = ap (λ t. x ∷ t) (take-append-drop n xs)

  -- Removing an entry and inserting another in its place keeps the length.
  pub length-insert-remove :
      (i : ℕ) (v : A) (xs : List A) → i < length xs → length (insert i v (remove i xs)) ≡ length xs
  length-insert-remove i v [] h = absurd (omega arith)
  length-insert-remove zero v (x ∷ xs) h = refl
  length-insert-remove (suc i) v (x ∷ xs) h = ap suc (length-insert-remove i v xs (omega arith))

  pub get_elem?-insert-remove_self :
      (i : ℕ) (v : A) (xs : List A)
      → i < length xs
      → get_elem? (insert i v (remove i xs)) i ≡ some v
  get_elem?-insert-remove_self i v [] h = absurd (omega arith)
  get_elem?-insert-remove_self zero v (x ∷ xs) h = refl
  get_elem?-insert-remove_self (suc i) v (x ∷ xs) h =
      get_elem?-insert-remove_self i v xs (omega arith)

  pub get_elem?-insert-remove_ne :
      (i j : ℕ) (v : A) (xs : List A)
      → i < length xs
      → i ≢ j
      → get_elem? (insert i v (remove i xs)) j ≡ get_elem? xs j
  get_elem?-insert-remove_ne i j v [] h n = absurd (omega arith)
  get_elem?-insert-remove_ne zero zero v (x ∷ xs) h n = absurd (n refl)
  get_elem?-insert-remove_ne zero (suc j) v (x ∷ xs) h n = refl
  get_elem?-insert-remove_ne (suc i) zero v (x ∷ xs) h n = refl
  get_elem?-insert-remove_ne (suc i) (suc j) v (x ∷ xs) h n =
      get_elem?-insert-remove_ne i j v xs (omega arith) (λ e. n (ap suc e))

module _ {ℓ} {A : Type ℓ} where
  take-append_le : (k : ℕ) (us vs : List A) → k ≤ length us → take k (us ++ vs) ≡ take k us
  take-append_le zero us vs h = refl
  take-append_le (suc k) [] vs h = absurd (omega arith)
  take-append_le (suc k) (u ∷ us) vs h = ap (λ ws. u ∷ ws) (take-append_le k us vs (omega arith))

  -- Of two ways to cut a list, the one that cuts earlier gives a part of the other's front.
  pub front_part :
      (xs ys us vs : List A)
      → xs ++ ys ≡ us ++ vs
      → length xs ≤ length us
      → xs ≡ take (length xs) us
  front_part xs ys us vs e h =
      sym (take-append xs ys)
      ∙ ap (λ (ws : List A). take (length xs) ws) e
      ∙ take-append_le (length xs) us vs h

  pub front_whole :
      (xs ys us vs : List A)
      → xs ++ ys ≡ us ++ vs
      → length us ≤ length xs
      → xs ≡ us ++ drop (length us) xs
  front_whole xs ys us vs e h =
      sym (take-append-drop (length us) xs)
      ∙ ap (λ (ws : List A). ws ++ drop (length us) xs) (sym (front_part us vs xs ys (sym e) h))

  pub append-cancel : (us vs ws : List A) → us ++ vs ≡ us ++ ws → vs ≡ ws
  append-cancel [] vs ws e = e
  append-cancel (u ∷ us) vs ws e = append-cancel us vs ws (cc e)

  pub All-append_right {κ} : (P : A → Type κ) (xs ys : List A) → All P (xs ++ ys) → All P ys
  All-append_right P [] ys h = h
  All-append_right P (x ∷ xs) ys (p, h) = All-append_right P xs ys h
