-- ===== src/Ext.antt =====
-- src/ext.rs: the reads of `BufExt`. A reader takes the bytes that remain in the buffer, and returns
-- with its result the bytes that then remain.
pub mod Reads
pub mod Tests
use ds_rs.Prelude.{
  ◌≡◌, refl, Error, ℕ, Option, none, some, List, Outcome, ok, err, panicked, eof, leb,
  if◌then◌else◌,
}
use ds_rs.Crates.{BytesCrate, Getter}

abbrev pub Reader {ℓ} : Type ℓ → Type ℓ
Reader A = List ℕ → Outcome (A × List ℕ)

infixl 5 ◌>>=◌
-- The operator `?`, and the sequence of statements of a reader.
abbrev pub ◌>>=◌ {ℓ κ} : {A : Type ℓ} {B : Type κ} → Reader A → (A → Reader B) → Reader B
◌>>=◌ m f buf = elim (m buf) [ ok (a, buf') ↦ f a buf' | err e ↦ err e | panicked ↦ panicked ]

module _ {ℓ κ} {A : Type ℓ} {B : Type κ} (m : Reader A) (f : A → Reader B) (buf : List ℕ) where
  pub >>=-ok : {a : A} {rest : List ℕ} → m buf ≡ ok (a, rest) → (m >>= f) buf ≡ f a rest
  >>=-ok e = rw (e, ◌>>=◌) refl

  pub >>=-err : {e : Error} → m buf ≡ err e → (m >>= f) buf ≡ err e
  >>=-err h = rw (h, ◌>>=◌) refl

  pub >>=-panicked : m buf ≡ panicked → (m >>= f) buf ≡ panicked
  >>=-panicked h = rw (h, ◌>>=◌) refl

abbrev pub pure {ℓ} : {A : Type ℓ} → A → Reader A
pure a buf = ok (a, buf)

abbrev pub lift {ℓ} : {A : Type ℓ} → Outcome A → Reader A
lift m buf = elim m [ ok a ↦ ok (a, buf) | err e ↦ err e | panicked ↦ panicked ]

-- A call of a `get_…` of the crate `bytes`.
abbrev pub taken {ℓ} : {A : Type ℓ} → Option A → Outcome A
taken none = panicked
taken (some r) = ok r

module _ (b : BytesCrate) where
  -- The body that the reads share: `if self.remaining() >= n { Ok(get) } else { short }`.
  abbrev pub guarded : ℕ → Outcome (ℕ × List ℕ) → Getter → Reader ℕ
  guarded n short get buf = if leb n (b.remaining buf) then taken (get buf) else short

  unfoldable pub read_u8 : Reader ℕ
  read_u8 = guarded 1 (err eof) b.get_u8

  -- The one read whose short case is a `panic!` in front of the error.
  unfoldable pub read_u16_be : Reader ℕ
  read_u16_be = guarded 2 panicked b.get_u16

  unfoldable pub read_u32_be : Reader ℕ
  read_u32_be = guarded 4 (err eof) b.get_u32

  unfoldable pub read_u64_be : Reader ℕ
  read_u64_be = guarded 8 (err eof) b.get_u64

  unfoldable pub read_i8 : Reader ℕ
  read_i8 = guarded 1 (err eof) b.get_i8

  unfoldable pub read_i16_be : Reader ℕ
  read_i16_be = guarded 2 (err eof) b.get_i16

  unfoldable pub read_i32_be : Reader ℕ
  read_i32_be = guarded 4 (err eof) b.get_i32

  unfoldable pub read_i64_be : Reader ℕ
  read_i64_be = guarded 8 (err eof) b.get_i64

  unfoldable pub read_f32_be : Reader ℕ
  read_f32_be = guarded 4 (err eof) b.get_f32

  unfoldable pub read_f64_be : Reader ℕ
  read_f64_be = guarded 8 (err eof) b.get_f64
