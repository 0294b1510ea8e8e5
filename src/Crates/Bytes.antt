-- ===== src/Crates/Bytes.antt =====
-- The crate `bytes`: a `BytesMut` or `Bytes` is the list of the bytes that it holds. A `get_…` takes
-- from the front, and is `none` where the crate panics for want of bytes.
use ds_rs.Prelude.{ℕ, ◌+◌, ◌*◌, ◌/◌, ◌%◌, ◌≡◌, Option, some, List, [], ◌∷◌, ◌++◌, length}

-- The number that big-endian bytes stand for, after the digits of `acc`.
abbrev pub be_from : ℕ → List ℕ → ℕ
be_from acc [] = acc
be_from acc (x ∷ xs) = be_from (acc * 256 + x) xs

abbrev pub Getter : Type 0
Getter = List ℕ → Option (ℕ × List ℕ)

-- `get` reads a big-endian number of `n` bytes.
abbrev pub Reads : ℕ → Getter → Type 0
Reads n get = (xs rest : List ℕ) → length xs ≡ n → get (xs ++ rest) ≡ some (be_from 0 xs, rest)

pub record BytesCrate : Type 0 where
  pub with_capacity : ℕ → List ℕ
  pub freeze : List ℕ → List ℕ
  pub put_u8 : List ℕ → ℕ → List ℕ
  pub put_i8 : List ℕ → ℕ → List ℕ
  pub put_u16 : List ℕ → ℕ → List ℕ
  pub put_i16 : List ℕ → ℕ → List ℕ
  pub put_u32 : List ℕ → ℕ → List ℕ
  pub put_f32 : List ℕ → ℕ → List ℕ
  pub put_slice : List ℕ → List ℕ → List ℕ
  -- `BufMut::put`, `extend_from_slice` and `Extend::extend` of a sequence of bytes
  pub put : List ℕ → List ℕ → List ℕ
  pub extend_from_slice : List ℕ → List ℕ → List ℕ
  pub extend : List ℕ → List ℕ → List ℕ
  pub remaining : List ℕ → ℕ
  pub get_u8 : Getter
  pub get_u16 : Getter
  pub get_u32 : Getter
  pub get_u64 : Getter
  pub get_i8 : Getter
  pub get_i16 : Getter
  pub get_i32 : Getter
  pub get_i64 : Getter
  pub get_f32 : Getter
  pub get_f64 : Getter
  -- `copy_to_slice` into a slice of the given length, and `advance`
  pub copy_to_slice : ℕ → List ℕ → Option (List ℕ × List ℕ)
  pub advance : ℕ → List ℕ → Option (List ℕ)
  pub with_capacity_law : (n : ℕ) → with_capacity n ≡ []
  pub freeze_law : (s : List ℕ) → freeze s ≡ s
  pub put_u8_law : (s : List ℕ) (n : ℕ) → put_u8 s n ≡ s ++ (n ∷ [])
  pub put_i8_law : (s : List ℕ) (n : ℕ) → put_i8 s n ≡ s ++ (n ∷ [])
  pub put_u16_law : (s : List ℕ) (n : ℕ) → put_u16 s n ≡ s ++ (n / 256 % 256) ∷ (n % 256) ∷ []
  pub put_i16_law : (s : List ℕ) (n : ℕ) → put_i16 s n ≡ s ++ (n / 256 % 256) ∷ (n % 256) ∷ []
  pub put_u32_law :
      (s : List ℕ) (n : ℕ)
      → put_u32 s n
        ≡ s ++ (n / 16777216 % 256) ∷ (n / 65536 % 256) ∷ (n / 256 % 256) ∷ (n % 256) ∷ []
  pub put_f32_law : (s : List ℕ) (n : ℕ) → put_f32 s n ≡ put_u32 s n
  pub put_slice_law : (s t : List ℕ) → put_slice s t ≡ s ++ t
  pub put_law : (s t : List ℕ) → put s t ≡ s ++ t
  pub extend_from_slice_law : (s t : List ℕ) → extend_from_slice s t ≡ s ++ t
  pub extend_law : (s t : List ℕ) → extend s t ≡ s ++ t
  pub remaining_law : (s : List ℕ) → remaining s ≡ length s
  pub get_u8_law : Reads 1 get_u8
  pub get_u16_law : Reads 2 get_u16
  pub get_u32_law : Reads 4 get_u32
  pub get_u64_law : Reads 8 get_u64
  pub get_i8_law : Reads 1 get_i8
  pub get_i16_law : Reads 2 get_i16
  pub get_i32_law : Reads 4 get_i32
  pub get_i64_law : Reads 8 get_i64
  pub get_f32_law : Reads 4 get_f32
  pub get_f64_law : Reads 8 get_f64
  pub copy_to_slice_law :
      (xs rest : List ℕ) → copy_to_slice (length xs) (xs ++ rest) ≡ some (xs, rest)
  pub advance_law : (xs rest : List ℕ) → advance (length xs) (xs ++ rest) ≡ some rest

-- The laws of the writers as equations for `simp`, for every such crate.
module _ (b : BytesCrate) where
  pub with_capacity_lem : (n : ℕ) → b.with_capacity n ≡ []
  with_capacity_lem = b.with_capacity_law

  pub freeze_lem : (s : List ℕ) → b.freeze s ≡ s
  freeze_lem = b.freeze_law

  pub put_u8_lem : (s : List ℕ) (n : ℕ) → b.put_u8 s n ≡ s ++ (n ∷ [])
  put_u8_lem = b.put_u8_law

  pub put_i8_lem : (s : List ℕ) (n : ℕ) → b.put_i8 s n ≡ s ++ (n ∷ [])
  put_i8_lem = b.put_i8_law

  pub put_u16_lem : (s : List ℕ) (n : ℕ) → b.put_u16 s n ≡ s ++ (n / 256 % 256) ∷ (n % 256) ∷ []
  put_u16_lem = b.put_u16_law

  pub put_i16_lem : (s : List ℕ) (n : ℕ) → b.put_i16 s n ≡ s ++ (n / 256 % 256) ∷ (n % 256) ∷ []
  put_i16_lem = b.put_i16_law

  pub put_u32_lem :
      (s : List ℕ) (n : ℕ)
      → b.put_u32 s n
        ≡ s ++ (n / 16777216 % 256) ∷ (n / 65536 % 256) ∷ (n / 256 % 256) ∷ (n % 256) ∷ []
  put_u32_lem = b.put_u32_law

  pub put_f32_lem : (s : List ℕ) (n : ℕ) → b.put_f32 s n ≡ b.put_u32 s n
  put_f32_lem = b.put_f32_law

  pub put_slice_lem : (s t : List ℕ) → b.put_slice s t ≡ s ++ t
  put_slice_lem = b.put_slice_law

  pub put_lem : (s t : List ℕ) → b.put s t ≡ s ++ t
  put_lem = b.put_law

  pub extend_from_slice_lem : (s t : List ℕ) → b.extend_from_slice s t ≡ s ++ t
  extend_from_slice_lem = b.extend_from_slice_law

  pub extend_lem : (s t : List ℕ) → b.extend s t ≡ s ++ t
  extend_lem = b.extend_law

  pub remaining_lem : (s : List ℕ) → b.remaining s ≡ length s
  remaining_lem = b.remaining_law

pub ruleset writer_laws = (
  with_capacity_lem, freeze_lem, put_u8_lem, put_i8_lem, put_u16_lem, put_i16_lem, put_f32_lem,
  put_u32_lem, put_slice_lem, put_lem, extend_from_slice_lem, extend_lem,
)
