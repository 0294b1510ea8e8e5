-- ===== src/Proto/Tcp/Fits.antt =====
-- What the parts of the decoder of src/proto/tcp.rs give on any bytes at all.
use mathlib.Core.Path.{subst}
use ds_rs.Prelude.{
  ℕ, ◌+◌, ◌-◌, ◌*◌, ◌≤◌, ◌<◌, ◌≡◌, ◌≢◌, ◌⊎◌, refl, sym, ◌∙◌, true, false, List, [], ◌∷◌, length,
  take, drop, length-take, take-append-drop, Outcome, ok, err, panicked, bad_text, ltb, ◌==◌,
  ==_iff, arith, Bool-cases, Outcome-cases, inl, inr,
}
use ds_rs.Crates.{BytesCrate, be_from}
use ds_rs.Ext.{◌>>=◌, >>=-ok, >>=-err, >>=-panicked, pure, lift}
use ds_rs.Ext.Reads.{read_u16_be-next, read_u16_be-end, read_f32_be-next, read_f32_be-end}
use ds_rs.Proto.Tcp.{
  Stdout, TcpPacket, stdout, checked_sub, read_slice, from_utf8, decode_stdout, decode_body,
}
use ds_rs.Proto.Tcp.Utf8.{is_utf8}
use ds_rs.Proto.Tcp.Body.{
  empty_body, checked, one_less, body-dummy, body-dummy_short, read_slice_all, read_slice_short,
}

-- When a frame of the claimed length, the id and the bytes that follow may panic: it claims to be
-- empty, or it is a console message that is too short for its numbers, or that has arrived only up to
-- its sequence number.
abbrev pub IsBroken : ℕ → ℕ → List ℕ → Type 0
IsBroken len i rest =
    (len ≡ 0) ⊎ ((i ≡ 0x0c) × ((len < 7) ⊎ ((length rest ≡ 4) ⊎ (length rest ≡ 5))))

-- What a part gives fits the bytes: the size of a packet that is there, or a reason to panic.
abbrev StdoutFits : ℕ → List ℕ → Outcome (Stdout × List ℕ) → Type 0
StdoutFits m rest (ok (p, copy)) = (6 ≤ m) × (m ≤ length rest)
StdoutFits m rest (err e) = Unit {0}
StdoutFits m rest panicked = (m < 6) ⊎ ((length rest ≡ 4) ⊎ (length rest ≡ 5))

abbrev pub BodyFits : ℕ → ℕ → List ℕ → Outcome ((TcpPacket × ℕ) × List ℕ) → Type 0
BodyFits len i rest (ok ((p, n), copy)) = (n ≡ len + 2) × (1 ≤ len) × (len ≤ 1 + length rest)
BodyFits len i rest (err e) = Unit {0}
BodyFits len i rest panicked = IsBroken len i rest

none_left : (n : ℕ) → ltb n 1 ≡ true → n ≡ 0
none_left n h = ground arith

no_less : (n : ℕ) → ltb n 1 ≡ false → 1 + (n - 1) ≡ n
no_less n h = ground arith

-- What holds of one side of an equation holds of the other.
pub along {ℓ κ} : {A : Type ℓ} (P : A → Type κ) {x y : A} → x ≡ y → P y → P x
along P e t = subst P (sym e) t

module _ (b : BytesCrate) where
  -- The whole text, where there is enough of it.
  read_slice-take :
      (n : ℕ) (rest : List ℕ)
      → n ≤ length rest
      → read_slice b n rest ≡ ok (take n rest, drop n rest)
  read_slice-take n rest le =
      let size : length (take n rest) ≡ n = omega (arith, length-take n rest) in
      rw (size, take-append-drop n rest) at (read_slice_all b (take n rest) (drop n rest))

  -- A message behind its numbers.
  text-Fits :
      (m : ℕ) (x y z w h l : ℕ) (rest : List ℕ)
      → 6 ≤ m
      → StdoutFits m (x ∷ y ∷ z ∷ w ∷ h ∷ l ∷ rest) (
          (read_slice b (m - 6) >>= λ v. lift (from_utf8 b v) >>= λ text. pure (record {
            timestamp = be_from 0 (x ∷ y ∷ z ∷ w ∷ []);
            text = text;
            seqnum = h * 256 + l;
          }))
            rest)
  text-Fits m x y z w h l rest le =
      let P = StdoutFits m (x ∷ y ∷ z ∷ w ∷ h ∷ l ∷ rest) in
      let v = take (m - 6) rest in
      let copy = drop (m - 6) rest in
      elim (Bool-cases (ltb (length rest) (m - 6))) [
        | inl e ↦
            along P
              (>>=-err (read_slice b (m - 6)) _ rest
                (read_slice_short b (m - 6) rest (ground arith)))
              tt
        | inr e ↦
            along P
              (>>=-ok (read_slice b (m - 6)) _ rest (read_slice-take (m - 6) rest (ground arith)))
              (elim (Bool-cases (is_utf8 v)) [
                | inl good ↦
                    let read : lift (from_utf8 b v) copy ≡ ok (v, copy) = rw good refl in
                    along P (>>=-ok (lift (from_utf8 b v)) _ copy read) (le, ground arith)
                | inr bad ↦
                    let read : lift (from_utf8 b v) copy ≡ err bad_text = rw bad refl in
                    along P (>>=-err (lift (from_utf8 b v)) _ copy read) tt
              ])
      ]

  decode_stdout-Fits : (m : ℕ) (rest : List ℕ) → StdoutFits m rest (decode_stdout b m rest)
  unfolding decode_stdout
  decode_stdout-Fits m [] = along (StdoutFits m []) (read_f32_be-end b _ [] (omega arith)) tt
  decode_stdout-Fits m (x ∷ []) =
      along (StdoutFits m (x ∷ [])) (read_f32_be-end b _ (x ∷ []) (omega arith)) tt
  decode_stdout-Fits m (x ∷ y ∷ []) =
      along (StdoutFits m (x ∷ y ∷ [])) (read_f32_be-end b _ (x ∷ y ∷ []) (omega arith)) tt
  decode_stdout-Fits m (x ∷ y ∷ z ∷ []) =
      along (StdoutFits m (x ∷ y ∷ z ∷ [])) (read_f32_be-end b _ (x ∷ y ∷ z ∷ []) (omega arith)) tt
  decode_stdout-Fits m (x ∷ y ∷ z ∷ w ∷ []) =
      along (StdoutFits m (x ∷ y ∷ z ∷ w ∷ []))
        (read_f32_be-next b _ x y z w [] ∙ read_u16_be-end b _ [] (omega arith)) (inr (inl refl))
  decode_stdout-Fits m (x ∷ y ∷ z ∷ w ∷ h ∷ []) =
      along (StdoutFits m (x ∷ y ∷ z ∷ w ∷ h ∷ []))
        (read_f32_be-next b _ x y z w (h ∷ []) ∙ read_u16_be-end b _ (h ∷ []) (omega arith))
        (inr (inr refl))
  decode_stdout-Fits m (x ∷ y ∷ z ∷ w ∷ h ∷ l ∷ rest) =
      let P = StdoutFits m (x ∷ y ∷ z ∷ w ∷ h ∷ l ∷ rest) in
      along P (read_f32_be-next b _ x y z w (h ∷ l ∷ rest) ∙ read_u16_be-next b _ h l rest)
        (elim (Bool-cases (ltb m 6)) [
          | inl e ↦
              let sub : lift (checked_sub m 6) rest ≡ panicked = rw e refl in
              along P (>>=-panicked (lift (checked_sub m 6)) _ rest sub) (inl (ground arith))
          | inr e ↦
              let sub : lift (checked_sub m 6) rest ≡ ok (m - 6, rest) = rw e refl in
              along P (>>=-ok (lift (checked_sub m 6)) _ rest sub)
                (text-Fits m x y z w h l rest (ground arith))
        ])

  -- A console message is decoded behind its id.
  body-stdout_lem :
      (m i : ℕ) (rest : List ℕ)
      → (i == 0x0c) ≡ true
      → decode_body b (1 + m) i rest ≡ (decode_stdout b m >>= λ p. pure (stdout p, 1 + m + 2)) rest
  unfolding decode_body
  body-stdout_lem m i rest e = rw (e, checked (1 + m) 1 (omega arith), one_less m) refl

  stdout-Fits :
      (m i : ℕ) (rest : List ℕ)
      → (i == 0x0c) ≡ true
      → BodyFits (1 + m) i rest (decode_body b (1 + m) i rest)
  stdout-Fits m i rest e =
      let P = BodyFits (1 + m) i rest in
      let fits = decode_stdout-Fits m rest in
      along P (body-stdout_lem m i rest e) (elim (Outcome-cases (decode_stdout b m rest)) [
        | inl (r, q) ↦
            let (long, whole) = rw q at fits in
            along P (>>=-ok (decode_stdout b m) _ rest q) (refl, omega arith, omega arith)
        | inr (inl (x, q)) ↦ along P (>>=-err (decode_stdout b m) _ rest q) tt
        | inr (inr q) ↦ along P (>>=-panicked (decode_stdout b m) _ rest q) (
            inr (
              (==_iff i 0x0c).0 e,
              (elim (rw q at fits) [ inl short ↦ inl (omega arith) | inr cut ↦ inr cut ]),
            ))
      ])

  -- The body of a frame that is not empty.
  body-Fits : (m i : ℕ) (rest : List ℕ) → BodyFits (1 + m) i rest (decode_body b (1 + m) i rest)
  body-Fits m i rest = elim (Bool-cases (i == 0x0c)) [
    | inr e ↦ dummy-Fits m i rest (λ p. cc (e, (==_iff i 0x0c).1 p))
    | inl e ↦ stdout-Fits m i rest e
  ]
    where
      dummy-Fits :
          (m i : ℕ) (rest : List ℕ)
          → i ≢ 0x0c
          → BodyFits (1 + m) i rest (decode_body b (1 + m) i rest)
      dummy-Fits m i rest other = elim (Bool-cases (ltb (length rest) m)) [
        | inl e ↦
            along (BodyFits (1 + m) i rest) (body-dummy_short b i m rest other (ground arith)) tt
        | inr e ↦
            let size : length (take m rest) ≡ m = ground (arith, length-take m rest) in
            along (BodyFits (1 + m) i rest)
              (rw (size, take-append-drop m rest) at
                (body-dummy b i (take m rest) (drop m rest) other))
              (refl, omega arith, ground arith)
      ]

  pub any_body-Fits : (len i : ℕ) (rest : List ℕ) → BodyFits len i rest (decode_body b len i rest)
  any_body-Fits len i rest =
      let P : ℕ → Type 0 = λ l. BodyFits l i rest (decode_body b l i rest) in
      elim (Bool-cases (ltb len 1)) [
        | inl e ↦
            along P (none_left len e) (along (BodyFits 0 i rest) (empty_body b i rest) (inl refl))
        | inr e ↦ subst P (no_less len e) (body-Fits (len - 1) i rest)
      ]
