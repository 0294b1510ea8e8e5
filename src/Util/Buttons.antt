-- ===== src/Util/Buttons.antt =====
-- `to_u8_vec` of src/util.rs loses no button: what the roboRIO unpacks is what was packed.
use native.Mathlib.Nat.{suc-add, zero-add, add-zero, sub-zero}
use mathlib.Core.List.{reverse-reverse, reverse-append, flat_map}
use ds_rs.Prelude.{
  ℕ, zero, suc, ◌+◌, ◌-◌, ◌*◌, ◌/◌, ◌%◌, ◌≤◌, ◌<◌, ◌≡◌, refl, sym, ap, ◌∙◌, Bool, List, [], ◌∷◌,
  ◌++◌, reverse, append-nil, append_assoc, length, take, drop, length-drop, length-append,
  take-append-drop, of_bool, ltb, ◌==◌, arith, Bool-cases, inl, inr,
}
use ds_rs.Util.{fill_byte, fill_bytes, to_u8_vec}
use ds_rs.Util.Fill.{value_of, fill_byte-value}

-- The lowest `n` binary digits of a number.
abbrev pub bits_of : ℕ → ℕ → List Bool
bits_of zero x = []
bits_of (suc n) x = (x % 2 == 1) ∷ bits_of n (x / 2)

-- What the roboRIO reads: the last byte first, eight buttons to a byte, lowest bit first.
abbrev pub buttons_of : ℕ → List ℕ → List Bool
buttons_of count bytes = take count (flat_map (bits_of 8) (reverse bytes))

digit_split : (b : Bool) (w : ℕ) → ((of_bool b + 2 * w) % 2 == 1) ≡ b
digit_split b w = ground arith

digit_rest : (b : Bool) (w : ℕ) → (of_bool b + 2 * w) / 2 ≡ w
digit_rest b w = ground arith

suc-sub-suc : (n k : ℕ) → suc n - suc k ≡ n - k
suc-sub-suc n k = omega arith

no_more : (k : ℕ) → 0 - suc k ≡ 0
no_more k = omega arith

-- The digits of one byte, cut to the buttons that there are.
take-bits_of :
    (k : ℕ) (v tail : List Bool)
    → take (length v) (bits_of k (value_of (take k v)) ++ tail)
      ≡ take k v ++ take (length v - k) tail
unfolding value_of
take-bits_of zero v tail = rw sub-zero refl
take-bits_of (suc k) [] tail = rw (no_more k) refl
take-bits_of (suc k) (b ∷ v) tail =
    rw
      (
        digit_split b (value_of (take k v)),
        digit_rest b (value_of (take k v)),
        suc-sub-suc (length v) k,
      )
      (ap (λ t. b ∷ t) (take-bits_of k v tail))

-- The bytes of the buttons, the first chunk first.
packed : ℕ → List Bool → List ℕ
packed zero v = []
packed (suc n) [] = []
packed (suc n) (b ∷ v) = value_of (take 8 (b ∷ v)) ∷ packed n (drop 8 (b ∷ v))

packed-zero : (v : List Bool) → packed zero v ≡ []
unfolding packed
packed-zero v = refl

first_byte :
    (v : List Bool) (start : ℕ) → fill_byte v start 8 0 0 ≡ value_of (take 8 (drop start v))
first_byte v start =
    fill_byte-value v start 8 0 0 (omega arith) (omega arith) ∙ rw add-zero (omega arith)

unpack-packed :
    (n : ℕ) (v : List Bool) → length v ≤ n → take (length v) (flat_map (bits_of 8) (packed n v)) ≡ v
unfolding packed flat_map
unpack-packed zero [] h = refl
unpack-packed zero (b ∷ v) h = absurd (omega arith)
unpack-packed (suc n) [] h = refl
unpack-packed (suc n) (b ∷ v) h =
    take-bits_of 8 (b ∷ v) (flat_map (bits_of 8) (packed n (drop 8 (b ∷ v))))
    ∙ rw
        (
          ← length-drop 8 (b ∷ v),
          unpack-packed n (drop 8 (b ∷ v)) (omega (arith, length-drop 8 (b ∷ v))),
        )
        (take-append-drop 8 (b ∷ v))

drop-drop : (m n : ℕ) (v : List Bool) → drop n (drop m v) ≡ drop (m + n) v
drop-drop zero n v = rw zero-add refl
drop-drop (suc m) zero [] = rw suc-add refl
drop-drop (suc m) (suc n) [] = rw suc-add refl
drop-drop (suc m) n (b ∷ v) = rw suc-add (drop-drop m n v)

packed-some :
    (n : ℕ) (v : List Bool)
    → 0 < length v
    → packed (suc n) v ≡ value_of (take 8 v) ∷ packed n (drop 8 v)
unfolding packed
packed-some n [] h = absurd (omega arith)
packed-some n (b ∷ v) h = refl

packed-none : (n : ℕ) (v : List Bool) → length v ≤ 0 → packed n v ≡ []
unfolding packed
packed-none zero v h = refl
packed-none (suc n) [] h = refl
packed-none (suc n) (b ∷ v) h = absurd (omega arith)

fill_bytes-packed :
    (v : List Bool) (fuel start : ℕ) (result : List ℕ)
    → fill_bytes v fuel start result ≡ result ++ packed fuel (drop start v)
unfolding fill_bytes
fill_bytes-packed v zero start result = rw (packed-zero (drop start v)) (sym (append-nil result))
fill_bytes-packed v (suc fuel) start result = elim (Bool-cases (ltb start (length v))) [
  | inl e ↦
      rw (e, packed-some fuel (drop start v) (ground (arith, length-drop start v)))
        (fill_bytes-packed v fuel (start + 8) (result ++ (fill_byte v start 8 0 0 ∷ []))
          ∙ rw (append_assoc, drop-drop start 8 v, first_byte v start))
  | inr e ↦
      rw (e, packed-none (suc fuel) (drop start v) (ground (arith, length-drop start v)))
        (sym (append-nil result))
]

length-reverse_of : (xs : List ℕ) → length (reverse xs) ≡ length xs
length-reverse_of [] = refl
length-reverse_of (x ∷ xs) =
    rw (reverse-append (x ∷ []) xs)
      (length-append (reverse xs) (x ∷ []) ∙ omega (arith, length-reverse_of xs))

length-packed : (n : ℕ) (v : List Bool) → length v ≤ n → length (packed n v) ≡ (length v + 7) / 8
unfolding packed
length-packed zero [] h = refl
length-packed zero (b ∷ v) h = absurd (omega arith)
length-packed (suc n) [] h = refl
length-packed (suc n) (b ∷ v) h = omega (
  arith,
  length-drop 8 (b ∷ v),
  length-packed n (drop 8 (b ∷ v)) (omega (arith, length-drop 8 (b ∷ v))),
)

-- One byte for eight buttons, rounded up.
pub length-to_u8_vec : (v : List Bool) → length (to_u8_vec v) ≡ (length v + 7) / 8
unfolding to_u8_vec
length-to_u8_vec v =
    rw (fill_bytes-packed) (length-reverse_of (packed (length v) v))
    ∙ length-packed (length v) v (omega arith)

-- From the bytes of `to_u8_vec` the roboRIO reads back the buttons, all of them and in order.
pub buttons_of-to_u8_vec : (v : List Bool) → buttons_of (length v) (to_u8_vec v) ≡ v
unfolding to_u8_vec
buttons_of-to_u8_vec v =
    rw (reverse-reverse, fill_bytes-packed) (unpack-packed (length v) v (omega arith))
