-- ===== src/Proto/Tcp/Stream.antt =====
-- What the decoder of src/proto/tcp.rs makes of the bytes that have arrived.
use ds_rs.Prelude.{
  ℕ, zero, suc, ◌+◌, ◌<◌, ◌≡◌, ◌≢◌, ap, ◌∙◌, none, some, List, [], ◌∷◌, ◌++◌, length, ok, panicked,
  ltb, if◌then◌else◌, arith, length-take, take,
}
use ds_rs.Crates.{BytesCrate}
use ds_rs.Proto.Tcp.{TcpTag, id, encode, dummy, conclude, decode}
use ds_rs.Proto.Tcp.Frames.{frame, layout, encode-frame}
use ds_rs.Proto.Tcp.Body.{
  empty_body, not_stdout, not_less, inner-header, conclude-frame, body-dummy, body-dummy_short,
  decode_short, decode_length_only, decode_waits,
}

module _ (b : BytesCrate) where
  -- A whole frame of an id that the decoder does not know, with a length that fits in 16 bits, is a
  -- dummy packet, and exactly its bytes are taken.
  pub decode-dummy :
      (i : ℕ) (body rest : List ℕ)
      → i ≢ 0x0c
      → 1 + length body < 65536
      → decode b (frame i body ++ rest) ≡ ok (some dummy, rest)
  unfolding decode
  decode-dummy i body rest other short =
      ap (conclude b (frame i body ++ rest))
        (inner-header b (1 + length body) i (body ++ rest) short ∙ body-dummy b i body rest other)
      ∙ conclude-frame b i body rest rest dummy

  -- Of a frame of an id that the decoder does not know, with a length that fits in 16 bits, any
  -- part that holds the length and is not the whole waits for more and leaves the buffer as it is;
  -- a part of fewer than two bytes panics.
  pub decode-take_dummy :
      (i : ℕ) (body : List ℕ) (k : ℕ)
      → i ≢ 0x0c
      → 1 + length body < 65536
      → k < length (frame i body)
      → decode b (take k (frame i body))
        ≡ (if ltb k 2 then panicked else ok (none, take k (frame i body)))
  decode-take_dummy i body zero other short h = decode_short b [] (omega arith)
  decode-take_dummy i body (suc zero) other short h =
      decode_short b (take 1 (frame i body)) (omega arith)
  decode-take_dummy i body (suc (suc zero)) other short h = decode_length_only b (1 + length body)
  decode-take_dummy i body (suc (suc (suc k))) other short h =
      rw (not_less (suc (suc (suc k))) 2 (omega arith)) (
        decode_waits b (1 + length body) i (take k body) short (
          body-dummy_short b i (length body) (take k body) other
            (omega (arith, length-take k body))))

  -- A frame that claims to be empty panics the decoder once a byte has arrived behind its length,
  -- whatever follows.
  decode_empty_frame : (i : ℕ) (rest : List ℕ) → decode b (0 ∷ 0 ∷ i ∷ rest) ≡ panicked
  unfolding decode conclude
  decode_empty_frame i rest =
      ap (conclude b (0 ∷ 0 ∷ i ∷ rest))
        (inner-header b 0 i rest (omega arith) ∙ empty_body b i rest)

  -- The encoder and the decoder agree on framing: what the encoder appends for a tag whose length
  -- fits in 16 bits is one whole frame, which the decoder takes exactly, as a packet that it does
  -- not know.
  decode-encode :
      (t : TcpTag) (dst rest : List ℕ)
      → 1 + length (layout t) < 65536
      → (bytes : List ℕ) × (encode b t dst ≡ ok (dst ++ bytes))
        × (decode b (bytes ++ rest) ≡ ok (some dummy, rest))
  decode-encode t dst rest short = (
    frame (id t) (layout t),
    encode-frame b t dst short,
    decode-dummy (id t) (layout t) rest (not_stdout t) short,
  )
