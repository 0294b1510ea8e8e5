-- ===== src/Ext/Reads.antt =====
-- What the reads of src/ext.rs do on long and on short buffers.
use ds_rs.Prelude.{
  ◌+◌, ◌*◌, ◌<◌, ◌∷◌, [], ◌∙◌, lt→leb, le→leb, ℕ, ◌≤◌, ◌≡◌, refl, List, length, take, drop, leb,
  arith, Outcome, ok, err, panicked, eof, if◌then◌else◌, Bool-cases, inl, inr, leb→le, length-take,
  take-append-drop,
}
use ds_rs.Crates.{BytesCrate, Getter, Reads, be_from, remaining_lem}
use ds_rs.Ext.{
  ◌>>=◌, >>=-ok, >>=-err, >>=-panicked, Reader, guarded, taken, read_u8, read_u16_be, read_u32_be,
  read_u64_be, read_i8, read_i16_be, read_i32_be, read_i64_be, read_f32_be, read_f64_be,
}

-- A read of `n` big-endian bytes: it takes them where there are so many, and is `short` if not.
abbrev pub reading : ℕ → Outcome (ℕ × List ℕ) → Reader ℕ
reading n short buf = if leb n (length buf) then ok (be_from 0 (take n buf), drop n buf) else short

one_byte : (x : ℕ) → 0 * 256 + x ≡ x
one_byte x = omega arith

module _ (b : BytesCrate) where
  taken_get :
      (n : ℕ) (get : Getter) (buf : List ℕ)
      → Reads n get
      → n ≤ length buf
      → taken (get buf) ≡ ok (be_from 0 (take n buf), drop n buf)
  taken_get n get buf h le =
      let split = h (take n buf) (drop n buf) (omega (arith, length-take n buf)) in
      rw ((rw (take-append-drop n buf) at split)) refl

  guarded-reading :
      (n : ℕ) (short : Outcome (ℕ × List ℕ)) (get : Getter) (buf : List ℕ)
      → Reads n get
      → guarded b n short get buf ≡ reading n short buf
  guarded-reading n short get buf h = elim (Bool-cases (leb n (length buf))) [
    | inl e ↦ rw (remaining_lem b buf, e) (taken_get n get buf h (leb→le n (length buf) e))
    | inr e ↦ rw (remaining_lem b buf, e) refl
  ]

  pub read_u8_lem : (buf : List ℕ) → read_u8 b buf ≡ reading 1 (err eof) buf
  unfolding read_u8
  read_u8_lem buf = guarded-reading 1 (err eof) b.get_u8 buf b.get_u8_law

  pub read_u16_be_lem : (buf : List ℕ) → read_u16_be b buf ≡ reading 2 panicked buf
  unfolding read_u16_be
  read_u16_be_lem buf = guarded-reading 2 panicked b.get_u16 buf b.get_u16_law

  pub read_f32_be_lem : (buf : List ℕ) → read_f32_be b buf ≡ reading 4 (err eof) buf
  unfolding read_f32_be
  read_f32_be_lem buf = guarded-reading 4 (err eof) b.get_f32 buf b.get_f32_law

  -- Each read takes its number of bytes, big-endian, from a buffer that holds so many; on a shorter
  -- one it is the error `UnexpectedEof`, except `read_u16_be`, which panics there.
  reads_lem :
      (buf : List ℕ)
      → (read_u8 b buf ≡ reading 1 (err eof) buf)
        × (read_u16_be b buf ≡ reading 2 panicked buf)
        × (read_u32_be b buf ≡ reading 4 (err eof) buf)
        × (read_u64_be b buf ≡ reading 8 (err eof) buf)
        × (read_i8 b buf ≡ reading 1 (err eof) buf)
        × (read_i16_be b buf ≡ reading 2 (err eof) buf)
        × (read_i32_be b buf ≡ reading 4 (err eof) buf)
        × (read_i64_be b buf ≡ reading 8 (err eof) buf)
        × (read_f32_be b buf ≡ reading 4 (err eof) buf)
        × (read_f64_be b buf ≡ reading 8 (err eof) buf)
  unfolding read_u32_be read_u64_be read_i8 read_i16_be read_i32_be read_i64_be read_f64_be
  reads_lem buf = (
    read_u8_lem buf,
    read_u16_be_lem buf,
    guarded-reading 4 (err eof) b.get_u32 buf b.get_u32_law,
    guarded-reading 8 (err eof) b.get_u64 buf b.get_u64_law,
    guarded-reading 1 (err eof) b.get_i8 buf b.get_i8_law,
    guarded-reading 2 (err eof) b.get_i16 buf b.get_i16_law,
    guarded-reading 4 (err eof) b.get_i32 buf b.get_i32_law,
    guarded-reading 8 (err eof) b.get_i64 buf b.get_i64_law,
    read_f32_be_lem buf,
    guarded-reading 8 (err eof) b.get_f64 buf b.get_f64_law,
  )

  pub read_u8-cons : (x : ℕ) (rest : List ℕ) → read_u8 b (x ∷ rest) ≡ ok (x, rest)
  read_u8-cons x rest =
      read_u8_lem (x ∷ rest) ∙ rw (le→leb 1 (length (x ∷ rest)) (omega arith), one_byte x) refl

  pub read_u8-nil : read_u8 b [] ≡ err eof
  read_u8-nil = read_u8_lem []

  pub read_u16_be-cons :
      (x y : ℕ) (rest : List ℕ) → read_u16_be b (x ∷ y ∷ rest) ≡ ok (x * 256 + y, rest)
  read_u16_be-cons x y rest =
      read_u16_be_lem (x ∷ y ∷ rest)
      ∙ rw (le→leb 2 (length (x ∷ y ∷ rest)) (omega arith), one_byte x) refl

  pub read_u16_be-short : (buf : List ℕ) → length buf < 2 → read_u16_be b buf ≡ panicked
  read_u16_be-short buf h = read_u16_be_lem buf ∙ rw (lt→leb 2 (length buf) h) refl

  -- A `?` on a byte that is there, and on one that is not.
  pub read_u8-next {κ} :
      {B : Type κ} (f : ℕ → Reader B) (x : ℕ) (rest : List ℕ)
      → (read_u8 b >>= f) (x ∷ rest) ≡ f x rest
  read_u8-next f x rest = >>=-ok (read_u8 b) f (x ∷ rest) (read_u8-cons x rest)

  pub read_u8-end {κ} : {B : Type κ} (f : ℕ → Reader B) → (read_u8 b >>= f) [] ≡ err eof
  read_u8-end f = >>=-err (read_u8 b) f [] read_u8-nil

  pub read_u16_be-next {κ} :
      {B : Type κ} (f : ℕ → Reader B) (x y : ℕ) (rest : List ℕ)
      → (read_u16_be b >>= f) (x ∷ y ∷ rest) ≡ f (x * 256 + y) rest
  read_u16_be-next f x y rest = >>=-ok (read_u16_be b) f (x ∷ y ∷ rest) (read_u16_be-cons x y rest)

  pub read_f32_be-next {κ} :
      {B : Type κ} (f : ℕ → Reader B) (x y z w : ℕ) (rest : List ℕ)
      → (read_f32_be b >>= f) (x ∷ y ∷ z ∷ w ∷ rest) ≡ f (be_from 0 (x ∷ y ∷ z ∷ w ∷ [])) rest
  read_f32_be-next f x y z w rest =
      >>=-ok (read_f32_be b) f _
        (read_f32_be_lem _ ∙ rw (le→leb 4 (length (x ∷ y ∷ z ∷ w ∷ rest)) (omega arith)) refl)

  pub read_f32_be-end {κ} :
      {B : Type κ} (f : ℕ → Reader B) (buf : List ℕ)
      → length buf < 4
      → (read_f32_be b >>= f) buf ≡ err eof
  read_f32_be-end f buf h =
      >>=-err (read_f32_be b) f buf (read_f32_be_lem buf ∙ rw (lt→leb 4 (length buf) h) refl)

  pub read_u16_be-end {κ} :
      {B : Type κ} (f : ℕ → Reader B) (buf : List ℕ)
      → length buf < 2
      → (read_u16_be b >>= f) buf ≡ panicked
  read_u16_be-end f buf h = >>=-panicked (read_u16_be b) f buf (read_u16_be-short buf h)
