-- ===== src/Crates/Reference.antt =====
-- Concrete functions that meet the assumptions on the crates, for tests and instances. The floating
-- point operations read a pattern as a plain number: they stand for no real rounding.
use ds_rs.Prelude.{
  ℕ, ◌+◌, ◌-◌, ◌*◌, ◌/◌, ◌%◌, ◌<◌, ◌≡◌, ◌≢◌, refl, Option, none, some, List, [], ◌∷◌, ◌++◌, length,
  take, drop, take-append, drop-append, bit_and, bit_or, arith, ltb, leb, ◌==◌, ==_iff, Bool-cases,
  inl, inr, if◌then◌else◌, le→leb, length-append,
}
use ds_rs.Crates.Bytes.{BytesCrate, Reads, Getter, be_from}
use ds_rs.Crates.Flags.{Bitflags}
use ds_rs.Crates.Float.{Float32}

abbrev take_n : ℕ → List ℕ → Option (List ℕ × List ℕ)
take_n n s = if leb n (length s) then some (take n s, drop n s) else none

pub take_n_lem : (xs rest : List ℕ) → take_n (length xs) (xs ++ rest) ≡ some (xs, rest)
take_n_lem xs rest =
    rw (le→leb (length xs) (length (xs ++ rest)) (omega (arith, length-append xs rest)))
      (rw (take-append xs rest, drop-append xs rest))

abbrev as_number : Option (List ℕ × List ℕ) → Option (ℕ × List ℕ)
as_number none = none
as_number (some (xs, rest)) = some (be_from 0 xs, rest)

abbrev get_n : ℕ → Getter
get_n n s = as_number (take_n n s)

pub get_n-Reads : (n : ℕ) → Reads n (get_n n)
get_n-Reads n xs rest h = rw (← h) (rw (take_n_lem xs rest))

abbrev rest_of : Option (List ℕ × List ℕ) → Option (List ℕ)
rest_of none = none
rest_of (some (xs, rest)) = some rest

pub advance_n_lem : (xs rest : List ℕ) → rest_of (take_n (length xs) (xs ++ rest)) ≡ some rest
advance_n_lem xs rest = rw (take_n_lem xs rest)

abbrev pub bytes : BytesCrate
bytes = record {
  with_capacity = λ n. [];
  freeze = λ s. s;
  put_u8 = λ s n. s ++ (n ∷ []);
  put_i8 = λ s n. s ++ (n ∷ []);
  put_u16 = λ s n. s ++ (n / 256 % 256) ∷ (n % 256) ∷ [];
  put_i16 = λ s n. s ++ (n / 256 % 256) ∷ (n % 256) ∷ [];
  put_u32 = λ s n. s ++ (n / 16777216 % 256) ∷ (n / 65536 % 256) ∷ (n / 256 % 256) ∷ (n % 256) ∷ [];
  put_f32 = λ s n. s ++ (n / 16777216 % 256) ∷ (n / 65536 % 256) ∷ (n / 256 % 256) ∷ (n % 256) ∷ [];
  put_slice = λ s t. s ++ t;
  put = λ s t. s ++ t;
  extend_from_slice = λ s t. s ++ t;
  extend = λ s t. s ++ t;
  remaining = λ s. length s;
  get_u8 = get_n 1;
  get_u16 = get_n 2;
  get_u32 = get_n 4;
  get_u64 = get_n 8;
  get_i8 = get_n 1;
  get_i16 = get_n 2;
  get_i32 = get_n 4;
  get_i64 = get_n 8;
  get_f32 = get_n 4;
  get_f64 = get_n 8;
  copy_to_slice = take_n;
  advance = λ n s. rest_of (take_n n s);
  with_capacity_law = λ n. refl;
  freeze_law = λ s. refl;
  put_u8_law = λ s n. refl;
  put_i8_law = λ s n. refl;
  put_u16_law = λ s n. refl;
  put_i16_law = λ s n. refl;
  put_u32_law = λ s n. refl;
  put_f32_law = λ s n. refl;
  put_slice_law = λ s t. refl;
  put_law = λ s t. refl;
  extend_from_slice_law = λ s t. refl;
  extend_law = λ s t. refl;
  remaining_law = λ s. refl;
  get_u8_law = get_n-Reads 1;
  get_u16_law = get_n-Reads 2;
  get_u32_law = get_n-Reads 4;
  get_u64_law = get_n-Reads 8;
  get_i8_law = get_n-Reads 1;
  get_i16_law = get_n-Reads 2;
  get_i32_law = get_n-Reads 4;
  get_i64_law = get_n-Reads 8;
  get_f32_law = get_n-Reads 4;
  get_f64_law = get_n-Reads 8;
  copy_to_slice_law = take_n_lem;
  advance_law = advance_n_lem;
}

abbrev known_bits : ℕ → ℕ → Option ℕ
known_bits all n = if bit_and n all == n then some n else none

pub known_bits_known : (all n : ℕ) → bit_and n all ≡ n → known_bits all n ≡ some n
known_bits_known all n h = rw ((==_iff (bit_and n all) n).1 h)

pub known_bits_unknown : (all n : ℕ) → bit_and n all ≢ n → known_bits all n ≡ none
known_bits_unknown all n h = elim (Bool-cases (bit_and n all == n)) [
  | inl e ↦ absurd (h ((==_iff (bit_and n all) n).0 e))
  | inr e ↦ rw e
]

abbrev pub flags : Bitflags
flags = record {
  from_bits = known_bits;
  contains = λ s t. bit_and s t == t;
  union = bit_or;
  from_bits_known = known_bits_known;
  from_bits_unknown = known_bits_unknown;
  contains_law = λ s t. refl;
  union_law = λ s t. refl;
}

pub as_byte : (x : ℕ) → x % 256 < 256
as_byte x = omega arith

abbrev pub float : Float32
float = record {
  from_u8 = λ n. n;
  add = λ x y. x + y;
  sub = λ x y. x - y;
  mul = λ x y. x * y;
  div = λ x y. x / y;
  abs = λ x. x;
  lt = ltb;
  as_i8 = λ x. x % 256;
  as_i8_byte = as_byte;
}
