-- ===== src/Proto/Tcp/Console.antt =====
-- How the decoder of src/proto/tcp.rs and tcp/inbound.rs treats the console messages of the robot.
use ds_rs.Prelude.{
  ◌||◌, ℕ, zero, suc, ◌+◌, ◌*◌, ◌<◌, ◌≡◌, refl, sym, ap, ◌∙◌, true, false, none, some, List, [],
  ◌∷◌, ◌++◌, length, Outcome, ok, err, panicked, eof, bad_text, message, ltb, ◌==◌, if◌then◌else◌,
  arith, Bool-cases, inl, inr, length-take, take,
}
use ds_rs.Crates.{BytesCrate, be_from}
use ds_rs.Ext.{>>=-ok, >>=-err, >>=-panicked, lift}
use ds_rs.Ext.Reads.{read_u16_be-end, read_f32_be-next, read_f32_be-end}
use ds_rs.Proto.Tags.Layout.{be16}
use ds_rs.Proto.Tcp.{
  Stdout, TcpPacket, stdout, read_slice, from_utf8, decode_stdout, decode_body, inner, conclude,
  decode,
}
use ds_rs.Proto.Tcp.Body.{
  stdout_body, inner-header, conclude-frame, body-stdout, stdout_numbers, read_slice_all,
  read_slice_short, decode_short, decode_length_only, decode_waits, decode_body-panics,
}
use ds_rs.Proto.Tcp.Utf8.{is_utf8}
use ds_rs.Proto.Tcp.Frames.{frame}

far_enough :
    (k : ℕ)
    → let n = suc (suc (suc (suc (suc (suc (suc (suc (suc k)))))))) in
      (ltb n 2 || (n == 7 || n == 8)) ≡ false
far_enough k = ground arith

module _ (b : BytesCrate) (x y z w h l : ℕ) (text : List ℕ) where
  abbrev pub body : List ℕ
  body = stdout_body x y z w h l text

  -- The message that the frame carries: its time is the float whose bits are four bytes.
  abbrev pub console_message : Stdout
  console_message = record {
    timestamp = be_from 0 (x ∷ y ∷ z ∷ w ∷ []);
    text = text;
    seqnum = h * 256 + l;
  }

  abbrev pub console_frame : List ℕ
  console_frame = frame 0x0c body

  body_size : 1 + length body ≡ 7 + length text
  body_size = omega arith

  stdout-text :
      (rest : List ℕ)
      → is_utf8 text ≡ true
      → decode_stdout b (6 + length text) (body ++ rest) ≡ ok (console_message, rest)
  stdout-text rest good =
      stdout_numbers b x y z w h l (length text) (text ++ rest)
      ∙ >>=-ok (read_slice b (length text)) _ _ (read_slice_all b text rest)
      ∙ >>=-ok (lift (from_utf8 b text)) _ rest (rw good refl)

  stdout-bad_text :
      (rest : List ℕ)
      → is_utf8 text ≡ false
      → decode_stdout b (6 + length text) (body ++ rest) ≡ err bad_text
  stdout-bad_text rest bad =
      stdout_numbers b x y z w h l (length text) (text ++ rest)
      ∙ >>=-ok (read_slice b (length text)) _ _ (read_slice_all b text rest)
      ∙ >>=-err (lift (from_utf8 b text)) _ rest (rw bad refl)

  -- A whole console message, with a length that fits in 16 bits, whose text is UTF-8 is decoded,
  -- and exactly its bytes are taken; if the text is not UTF-8, the decoder fails with an error.
  pub decode-console :
      (rest : List ℕ)
      → 7 + length text < 65536
      → decode b (console_frame ++ rest)
        ≡ (if is_utf8 text then ok (some (stdout console_message), rest) else err message)
  unfolding decode conclude
  decode-console rest short = elim (Bool-cases (is_utf8 text)) [
    | inl good ↦ rw good (
        ap (conclude b (console_frame ++ rest)) (
          header
          ∙ body-stdout b (length text) (body ++ rest)
          ∙ >>=-ok (decode_stdout b (6 + length text)) _ _ (stdout-text rest good)
          ∙ ap {B = Outcome ((TcpPacket × ℕ) × List ℕ)}
              (λ n. ok ((stdout console_message, n + 2), rest)) (sym body_size))
        ∙ conclude-frame b 0x0c body rest rest (stdout console_message))
    | inr bad ↦ rw bad (
        ap (conclude b (console_frame ++ rest)) (
          header
          ∙ body-stdout b (length text) (body ++ rest)
          ∙ >>=-err (decode_stdout b (6 + length text)) _ _ (stdout-bad_text rest bad)))
  ]
    where
      header : inner b (console_frame ++ rest) ≡ decode_body b (7 + length text) 0x0c (body ++ rest)
      header =
          inner-header b (1 + length body) 0x0c (body ++ rest) (omega arith) ∙ rw body_size refl

  -- The data of the message, cut off: in the time or in the text it is the end of the data, in the
  -- sequence number a panic.
  cut_end :
      (part : List ℕ)
      → decode_stdout b (6 + length text) part ≡ err eof
      → decode_body b (1 + length body) 0x0c part ≡ err eof
  cut_end part e =
      rw body_size
        (body-stdout b (length text) part ∙ >>=-err (decode_stdout b (6 + length text)) _ part e)

  cut_panic :
      (part : List ℕ)
      → decode_stdout b (6 + length text) part ≡ panicked
      → decode_body b (1 + length body) 0x0c part ≡ panicked
  cut_panic part e =
      rw body_size (
        body-stdout b (length text) part
        ∙ >>=-panicked (decode_stdout b (6 + length text)) _ part e)

  cut_in_time : (part : List ℕ) → length part < 4 → decode_stdout b (6 + length text) part ≡ err eof
  unfolding decode_stdout
  cut_in_time part lt = read_f32_be-end b _ part lt

  cut_in_number :
      (part : List ℕ)
      → length part < 2
      → decode_stdout b (6 + length text) (x ∷ y ∷ z ∷ w ∷ part) ≡ panicked
  unfolding decode_stdout
  cut_in_number part lt = read_f32_be-next b _ x y z w part ∙ read_u16_be-end b _ part lt

  cut_in_text :
      (part : List ℕ)
      → length part < length text
      → decode_stdout b (6 + length text) (stdout_body x y z w h l part) ≡ err eof
  cut_in_text part lt =
      stdout_numbers b x y z w h l (length text) part
      ∙ >>=-err (read_slice b (length text)) _ part (read_slice_short b (length text) part lt)

  waits :
      (part : List ℕ)
      → 7 + length text < 65536
      → decode_stdout b (6 + length text) part ≡ err eof
      → decode b (be16 (1 + length body) ++ 0x0c ∷ part)
        ≡ ok (none, be16 (1 + length body) ++ 0x0c ∷ part)
  waits part short e = decode_waits b (1 + length body) 0x0c part (omega arith) (cut_end part e)

  panics :
      (part : List ℕ)
      → 7 + length text < 65536
      → decode_stdout b (6 + length text) part ≡ panicked
      → decode b (be16 (1 + length body) ++ 0x0c ∷ part) ≡ panicked
  panics part short e =
      decode_body-panics b (1 + length body) 0x0c part (omega arith) (cut_panic part e)

  -- While a console message, with a length that fits in 16 bits, is still arriving, the decoder
  -- waits for more and leaves the buffer as it is, except where the buffer ends in one of the two
  -- `u16` fields (before its second byte, or between the time and the text): there it panics.
  pub decode-take_console :
      (k : ℕ)
      → 7 + length text < 65536
      → k < length console_frame
      → decode b (take k console_frame)
        ≡ (if ltb k 2 || (k == 7 || k == 8) then panicked else ok (none, take k console_frame))
  decode-take_console zero short lt = decode_short b [] (omega arith)
  decode-take_console (suc zero) short lt = decode_short b (take 1 console_frame) (omega arith)
  decode-take_console (suc (suc zero)) short lt = decode_length_only b (1 + length body)
  decode-take_console (suc (suc (suc zero))) short lt =
      waits [] short (cut_in_time [] (omega arith))
  decode-take_console (suc (suc (suc (suc zero)))) short lt =
      waits (take 1 body) short (cut_in_time (take 1 body) (omega arith))
  decode-take_console (suc (suc (suc (suc (suc zero))))) short lt =
      waits (take 2 body) short (cut_in_time (take 2 body) (omega arith))
  decode-take_console (suc (suc (suc (suc (suc (suc zero)))))) short lt =
      waits (take 3 body) short (cut_in_time (take 3 body) (omega arith))
  decode-take_console (suc (suc (suc (suc (suc (suc (suc zero))))))) short lt =
      panics (take 4 body) short (cut_in_number [] (omega arith))
  decode-take_console (suc (suc (suc (suc (suc (suc (suc (suc zero)))))))) short lt =
      panics (take 5 body) short (cut_in_number (h ∷ []) (omega arith))
  decode-take_console (suc (suc (suc (suc (suc (suc (suc (suc (suc k))))))))) short lt =
      rw (far_enough k) (
        waits (stdout_body x y z w h l (take k text)) short
          (cut_in_text (take k text) (omega (arith, length-take k text))))
