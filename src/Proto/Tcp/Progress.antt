-- ===== src/Proto/Tcp/Progress.antt =====
-- What the decoder of src/proto/tcp.rs can do on any bytes at all.
use ds_rs.Prelude.{
  ℕ, ◌+◌, ◌*◌, ◌≤◌, ◌≡◌, refl, sym, ap, ◌∙◌, Option, none, some, List, [], ◌∷◌, ◌++◌, length, take,
  drop, length-take, take-append-drop, Outcome, ok, err, panicked, eof, bad_text, message, arith,
}
use ds_rs.Crates.{BytesCrate}
use ds_rs.Ext.Reads.{read_u8-next, read_u8-end, read_u16_be-next}
use ds_rs.Proto.Tcp.{TcpPacket, decode_body, inner, conclude, decode}
use ds_rs.Proto.Tcp.Body.{decode_short}
use ds_rs.Proto.Tcp.Fits.{IsBroken, BodyFits, along, any_body-Fits}

abbrev pub MayPanic : List ℕ → Type 0
MayPanic [] = Unit {0}
MayPanic (x ∷ []) = Unit {0}
MayPanic (x ∷ y ∷ []) = ⊥
MayPanic (x ∷ y ∷ i ∷ rest) = IsBroken (x * 256 + y) i rest

-- A packet takes a frame of three bytes at least from the front; no packet takes nothing; an error is
-- that of a bad message.
abbrev pub Progress : List ℕ → Outcome (Option TcpPacket × List ℕ) → Type 0
Progress src (ok (none, rest)) = rest ≡ src
Progress src (ok (some p, rest)) = (frame : List ℕ) × (src ≡ frame ++ rest) × (3 ≤ length frame)
Progress src (err e) = e ≡ message
Progress src panicked = MayPanic src

module _ (b : BytesCrate) where
  conclude-Progress :
      (len x y i : ℕ) (rest : List ℕ) (o : Outcome ((TcpPacket × ℕ) × List ℕ))
      → x * 256 + y ≡ len
      → BodyFits len i rest o
      → Progress (x ∷ y ∷ i ∷ rest) (conclude b (x ∷ y ∷ i ∷ rest) o)
  unfolding conclude
  conclude-Progress len x y i rest (err eof) e h = refl
  conclude-Progress len x y i rest (err bad_text) e h = refl
  conclude-Progress len x y i rest (err message) e h = refl
  conclude-Progress len x y i rest panicked e h = rw e h
  conclude-Progress len x y i rest (ok ((p, n), copy)) e (size, some_bytes, few) =
      let src = x ∷ y ∷ i ∷ rest in
      let taken_bytes : length (take n src) ≡ n = omega (arith, length-take n src) in
      let moved : b.advance n src ≡ some (drop n src) =
        rw (taken_bytes, take-append-drop n src) at (b.advance_law (take n src) (drop n src)) in
      rw moved (take n src, sym (take-append-drop n src), omega arith)

  -- Whatever bytes have arrived, the decoder either takes a frame of at least three bytes from their
  -- front for a packet, or takes none and leaves all of them, or fails with its own message. It panics
  -- only on fewer than two bytes, on a frame that claims to be empty, and on a console message that
  -- claims to be too short for its numbers or has arrived only up to its sequence number.
  pub decode-Progress : (src : List ℕ) → Progress src (decode b src)
  unfolding decode inner conclude
  decode-Progress [] = along (Progress []) (decode_short b [] (omega arith)) tt
  decode-Progress (x ∷ []) = along (Progress (x ∷ [])) (decode_short b (x ∷ []) (omega arith)) tt
  decode-Progress (x ∷ y ∷ []) =
      along (Progress (x ∷ y ∷ []))
        (ap (conclude b (x ∷ y ∷ [])) (read_u16_be-next b _ x y [] ∙ read_u8-end b _)) refl
  decode-Progress (x ∷ y ∷ i ∷ rest) =
      let src = x ∷ y ∷ i ∷ rest in
      along (Progress src)
        (ap (conclude b src) (read_u16_be-next b _ x y (i ∷ rest) ∙ read_u8-next b _ i rest))
        (conclude-Progress (x * 256 + y) x y i rest (decode_body b (x * 256 + y) i rest) refl
          (any_body-Fits b (x * 256 + y) i rest))
