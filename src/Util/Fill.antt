-- ===== src/Util/Fill.antt =====
-- The byte that the inner loop of `to_u8_vec` in src/util.rs makes of eight buttons.
use native.Mathlib.Nat.{pow-suc, add-suc}
use native.Mathlib.Numerals.{add-one}
use ds_rs.Prelude.{
  ℕ, zero, suc, ◌+◌, ◌*◌, ◌^◌, ◌≤◌, ◌<◌, ◌≡◌, refl, ◌∙◌, Bool, true, false, none, some, List, [],
  ◌∷◌, get_elem?, take, drop, bit_or, of_bool, arith, Option-cases, inl, inr,
}
use ds_rs.Prelude.Bits.{same_table, same_table_lem}
use ds_rs.Util.{fill_byte}

-- The number whose binary digits are the buttons, lowest first.
unfoldable pub value_of : List Bool → ℕ
value_of [] = 0
value_of (b ∷ bs) = of_bool b + 2 * value_of bs

set_bit_table : (k : ℕ) → k < 8 → same_table (λ x. bit_or x (2 ^ k)) (λ x. x + 2 ^ k) (2 ^ k) ≡ true
unfolding same_table
set_bit_table zero h = refl
set_bit_table (suc zero) h = refl
set_bit_table (suc (suc zero)) h = refl
set_bit_table (suc (suc (suc zero))) h = refl
set_bit_table (suc (suc (suc (suc zero)))) h = refl
set_bit_table (suc (suc (suc (suc (suc zero))))) h = refl
set_bit_table (suc (suc (suc (suc (suc (suc zero)))))) h = refl
set_bit_table (suc (suc (suc (suc (suc (suc (suc zero))))))) h = refl
set_bit_table (suc (suc (suc (suc (suc (suc (suc (suc k)))))))) h = absurd (omega arith)

set_bit : (k x : ℕ) → k < 8 → x < 2 ^ k → bit_or x (2 ^ k) ≡ x + 2 ^ k
set_bit k x h lt =
    same_table_lem (λ y. bit_or y (2 ^ k)) (λ y. y + 2 ^ k) (2 ^ k) x lt (set_bit_table k h)

-- The buttons from index `i` on, by what `get` finds there.
drop-get_elem? :
    (i : ℕ) (v : List Bool) {b : Bool} → get_elem? v i ≡ some b → drop i v ≡ b ∷ drop (suc i) v
drop-get_elem? i [] h = cc
drop-get_elem? zero (x ∷ v) h = ground arith
drop-get_elem? (suc i) (x ∷ v) h = drop-get_elem? i v h

drop-get_elem?-none : (i : ℕ) (v : List Bool) → get_elem? v i ≡ none → drop i v ≡ []
drop-get_elem?-none zero [] h = refl
drop-get_elem?-none (suc i) [] h = refl
drop-get_elem?-none zero (x ∷ v) h = cc
drop-get_elem?-none (suc i) (x ∷ v) h = drop-get_elem?-none i v h

double_pow : (k : ℕ) → 2 ^ suc k ≡ 2 ^ k + 2 ^ k
double_pow k = omega (arith, pow-suc 2 k)

-- One more digit in front of the digits that are left.
next_digit : (p q b byte w : ℕ) → q ≡ p + p → byte + p * b + q * w ≡ byte + p * (b + 2 * w)
next_digit p q b byte w h = rw h (omega arith)

pub fill_byte-value :
    (v : List Bool) (start n pos byte : ℕ)
    → pos + n ≤ 8
    → byte < 2 ^ pos
    → fill_byte v start n pos byte ≡ byte + 2 ^ pos * value_of (take n (drop (start + pos) v))
unfolding fill_byte value_of
fill_byte-value v start zero pos byte h lt = omega arith
fill_byte-value v start (suc n) pos byte h lt = elim (Option-cases (get_elem? v (start + pos))) [
  | inl e ↦ rw (e, fill_byte, drop-get_elem?-none (start + pos) v e) (omega arith)
  | inr (true, e) ↦
      rw (e, fill_byte, drop-get_elem? (start + pos) v e, set_bit pos byte (omega arith) lt)
        (fill_byte-value v start n (pos + 1) (byte + 2 ^ pos) (omega arith)
            (rw add-one (omega (arith, double_pow pos)))
          ∙ rw (add-one pos, add-suc start pos)
              (omega (
                arith,
                next_digit (2 ^ pos) (2 ^ suc pos) 1 byte
                    (value_of (take n (drop (suc (start + pos)) v))) (double_pow pos),
              )))
  | inr (false, e) ↦
      rw (e, fill_byte, drop-get_elem? (start + pos) v e)
        (fill_byte-value v start n (pos + 1) byte (omega arith)
            (rw add-one (omega (arith, double_pow pos)))
          ∙ rw (add-one pos, add-suc start pos)
              (omega (
                arith,
                next_digit (2 ^ pos) (2 ^ suc pos) 0 byte
                    (value_of (take n (drop (suc (start + pos)) v))) (double_pow pos),
              )))
]
