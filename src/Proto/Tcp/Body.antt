-- ===== src/Proto/Tcp/Body.antt =====
-- The parts of the decoder of src/proto/tcp.rs: skipping, the text of a message, and what its `match`
-- concludes.
use ds_rs.Prelude.{
  Bool-cases, inl, inr, ℕ, zero, suc, ◌+◌, ◌-◌, ◌*◌, ◌/◌, ◌%◌, ◌≤◌, ◌<◌, ◌≡◌, ◌≢◌, refl, ap, ◌∙◌,
  false, none, some, List, [], ◌∷◌, ◌++◌, length, length-append, ok, err, panicked, eof, ltb, ◌==◌,
  arith, lt→ltb,
}
use ds_rs.Crates.{BytesCrate, be_from, remaining_lem}
use ds_rs.Ext.{◌>>=◌, >>=-ok, >>=-err, pure, lift}
use ds_rs.Ext.Reads.{read_u8-next, read_u8-end, read_u16_be-next, read_u16_be-end, read_f32_be-next}
use ds_rs.Proto.Tags.Layout.{be16, big_endian}
use ds_rs.Proto.Tcp.{
  TcpTag, match_info, game_data, id, TcpPacket, stdout, dummy, checked_sub, read_slice, from_utf8,
  decode_stdout, skip_bytes, decode_body, inner, conclude, decode,
}
use ds_rs.Proto.Tcp.Frames.{frame}

pub not_less : (a n : ℕ) → n ≤ a → ltb a n ≡ false
not_less a n h = ground arith

pub checked : (a n : ℕ) → n ≤ a → checked_sub a n ≡ ok (a - n)
checked a n h = rw (not_less a n h) refl

pub one_less : (n : ℕ) → 1 + n - 1 ≡ n
one_less n = omega arith

frame_size : (n : ℕ) → 1 + n + 2 ≡ suc (suc (suc n))
frame_size n = omega arith

six_less : (n : ℕ) → 6 + n - 6 ≡ n
six_less n = omega arith

seven_less : (n : ℕ) → 7 + n - 1 ≡ 6 + n
seven_less n = omega arith

pub is_other : (i : ℕ) → i ≢ 0x0c → (i == 0x0c) ≡ false
is_other i h = ground arith

pub not_stdout : (t : TcpTag) → id t ≢ 0x0c
unfolding id
not_stdout (match_info m) h = omega arith
not_stdout (game_data g) h = omega arith

-- The data of a console message: four bytes of time, two of sequence number, and the text.
abbrev pub stdout_body : ℕ → ℕ → ℕ → ℕ → ℕ → ℕ → List ℕ → List ℕ
stdout_body x y z w h l text = x ∷ y ∷ z ∷ w ∷ h ∷ l ∷ text

module _ (b : BytesCrate) where
  skip_bytes_all :
      (bytes rest : List ℕ) → skip_bytes b (length bytes) (bytes ++ rest) ≡ ok (tt, rest)
  unfolding skip_bytes
  skip_bytes_all [] rest = refl
  skip_bytes_all (x ∷ bytes) rest = read_u8-next b _ x (bytes ++ rest) ∙ skip_bytes_all bytes rest

  skip_bytes_short : (n : ℕ) (bytes : List ℕ) → length bytes < n → skip_bytes b n bytes ≡ err eof
  unfolding skip_bytes
  skip_bytes_short zero bytes h = absurd (omega arith)
  skip_bytes_short (suc n) [] h = read_u8-end b _
  skip_bytes_short (suc n) (x ∷ bytes) h =
      read_u8-next b _ x bytes ∙ skip_bytes_short n bytes (omega arith)

  -- `inner` behind the length and the id, for any bytes behind them.
  pub inner-header :
      (len i : ℕ) (rest : List ℕ)
      → len < 65536
      → inner b (be16 len ++ i ∷ rest) ≡ decode_body b len i rest
  unfolding inner
  inner-header len i rest h =
      read_u16_be-next b _ (len / 256 % 256) (len % 256) (i ∷ rest)
      ∙ rw (big_endian len h) (read_u8-next b _ i rest)

  pub conclude-frame :
      (i : ℕ) (body rest copy : List ℕ) (p : TcpPacket)
      → conclude b (frame i body ++ rest) (ok ((p, 1 + length body + 2), copy)) ≡ ok (some p, rest)
  unfolding conclude
  conclude-frame i body rest copy p =
      rw (frame_size (length body), b.advance_law (frame i body) rest) refl

  pub body-dummy :
      (i : ℕ) (body rest : List ℕ)
      → i ≢ 0x0c
      → decode_body b (1 + length body) i (body ++ rest) ≡ ok ((dummy, 1 + length body + 2), rest)
  unfolding decode_body
  body-dummy i body rest other =
      rw (is_other i other, checked (1 + length body) 1 (omega arith), one_less (length body))
        (>>=-ok (skip_bytes b (length body)) _ _ (skip_bytes_all body rest))

  pub body-dummy_short :
      (i n : ℕ) (body : List ℕ)
      → i ≢ 0x0c
      → length body < n
      → decode_body b (1 + n) i body ≡ err eof
  unfolding decode_body
  body-dummy_short i n body other h =
      rw (is_other i other, checked (1 + n) 1 (omega arith), one_less n)
        (>>=-err (skip_bytes b n) _ _ (skip_bytes_short n body h))

  pub read_slice_all :
      (text rest : List ℕ) → read_slice b (length text) (text ++ rest) ≡ ok (text, rest)
  unfolding read_slice
  read_slice_all text rest =
      rw
        (
          remaining_lem b (text ++ rest),
          not_less (length (text ++ rest)) (length text) (omega (arith, length-append text rest)),
          b.copy_to_slice_law text rest,
        )
        refl

  pub read_slice_short : (n : ℕ) (text : List ℕ) → length text < n → read_slice b n text ≡ err eof
  unfolding read_slice
  read_slice_short n text h = rw (remaining_lem b text, lt→ltb (length text) n h) refl

  -- A console message behind its two numbers, up to the text.
  module _ (x y z w h l n : ℕ) (rest : List ℕ) where
    pub stdout_numbers :
        decode_stdout b (6 + n) (stdout_body x y z w h l rest)
        ≡ (do
          v ← read_slice b n
          text ← lift (from_utf8 b v)
          pure (record {
            timestamp = be_from 0 (x ∷ y ∷ z ∷ w ∷ []);
            text = text;
            seqnum = h * 256 + l;
          }))
            rest
    unfolding decode_stdout
    stdout_numbers =
        read_f32_be-next b _ x y z w _
        ∙ read_u16_be-next b _ h l rest
        ∙ rw (checked (6 + n) 6 (omega arith), six_less n) refl

  pub body-stdout :
      (n : ℕ) (rest : List ℕ)
      → decode_body b (7 + n) 0x0c rest
        ≡ (decode_stdout b (6 + n) >>= λ p. pure (stdout p, 7 + n + 2)) rest
  unfolding decode_body
  body-stdout n rest = rw (checked (7 + n) 1 (omega arith), seven_less n) refl

  -- A buffer of fewer than two bytes panics; one that ends behind the length waits for more.
  pub decode_short : (buf : List ℕ) → length buf < 2 → decode b buf ≡ panicked
  unfolding decode inner conclude
  decode_short buf h = ap (conclude b buf) (read_u16_be-end b _ buf h)

  pub decode_length_only : (len : ℕ) → decode b (be16 len) ≡ ok (none, be16 len)
  unfolding decode inner conclude
  decode_length_only len =
      ap (conclude b (be16 len))
        (read_u16_be-next b _ (len / 256 % 256) (len % 256) [] ∙ read_u8-end b _)

  -- The end of the data in `decode_body` is no error of the decoder.
  pub decode_waits :
      (len i : ℕ) (part : List ℕ)
      → len < 65536
      → decode_body b len i part ≡ err eof
      → decode b (be16 len ++ i ∷ part) ≡ ok (none, be16 len ++ i ∷ part)
  unfolding decode conclude
  decode_waits len i part short h =
      ap (conclude b (be16 len ++ i ∷ part)) (inner-header len i part short ∙ h)

  pub decode_body-panics :
      (len i : ℕ) (part : List ℕ)
      → len < 65536
      → decode_body b len i part ≡ panicked
      → decode b (be16 len ++ i ∷ part) ≡ panicked
  unfolding decode conclude
  decode_body-panics len i part short h =
      ap (conclude b (be16 len ++ i ∷ part)) (inner-header len i part short ∙ h)

  pub empty_body : (i : ℕ) (rest : List ℕ) → decode_body b 0 i rest ≡ panicked
  unfolding decode_body
  empty_body i rest = elim (Bool-cases (i == 0x0c)) [ inl e ↦ rw e refl | inr e ↦ rw e refl ]
