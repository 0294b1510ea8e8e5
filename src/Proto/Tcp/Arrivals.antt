-- ===== src/Proto/Tcp/Arrivals.antt =====
-- A stream of frames that arrives in parts, under the decoder of src/proto/tcp.rs: it is called on what
-- has arrived, at any time, until the next part comes.
use ds_rs.Prelude.{
  ℕ, ◌<◌, ◌≡◌, refl, sym, ap, ◌∙◌, subst, ◌||◌, Bool, false, Option, none, some, List, [], ◌∷◌,
  ◌++◌, map, append-nil, append_assoc, length, take, drop, front_part, front_whole, append-cancel,
  All, All-append_right, Outcome, ok, panicked, ltb, leb, leb→le, ◌==◌, Bool-cases, inl, inr, arith,
  if◌then◌else◌,
}
use ds_rs.Crates.{BytesCrate}
use ds_rs.Proto.Tcp.{TcpPacket, decode}
use ds_rs.Proto.Tcp.Body.{decode_short}
use ds_rs.Proto.Tcp.Console.{decode-take_console}
use ds_rs.Proto.Tcp.Stream.{decode-take_dummy}
use ds_rs.Proto.Tcp.Sequence.{
  Sent, console, other, bytes_of, stream, packet_of, IsWhole, decode-bytes_of,
}

-- What has arrived and is not decoded, what has not arrived, and the packets so far.
pub record Reading : Type 0 where
  pub buffer : List ℕ
  pub coming : List ℕ
  pub packets : List TcpPacket

abbrev pub start : List ℕ → Reading
start bytes = record { buffer = []; coming = bytes; packets = [] }

abbrev listed : Option TcpPacket → List TcpPacket
listed none = []
listed (some p) = p ∷ []

not_leb : (n m : ℕ) → leb n m ≡ false → m < n
not_leb n m h = ground arith

module _ (b : BytesCrate) where
  -- A part arrives, or the decoder is called on the buffer and returns.
  pub data Step (s : Reading) : Reading → Type 0 where
    arrive :
        (part rest : List ℕ)
        → s.coming ≡ part ++ rest
        → Step s (record s { buffer = s.buffer ++ part; coming = rest })
    call :
        (answer : Option TcpPacket) (rest : List ℕ)
        → decode b s.buffer ≡ ok (answer, rest)
        → Step s (record s { buffer = rest; packets = s.packets ++ listed answer })

  pub data Reach (s : Reading) : Reading → Type 0 where
    here : Reach s s
    next : {mid end : Reading} → Reach s mid → Step mid end → Reach s end

  -- The buffer ends before the second byte of one of the two `u16` fields.
  abbrev pub is_bad_cut : Sent → ℕ → Bool
  is_bad_cut (console x y z w h l text) n = ltb n 2 || (n == 7 || n == 8)
  is_bad_cut (other i body) n = ltb n 2

  -- What a call makes of a buffer, when `later` are the messages that are not decoded yet.
  abbrev pub answer_to : List Sent → List ℕ → Outcome (Option TcpPacket × List ℕ)
  answer_to [] buf = panicked
  answer_to (m ∷ later) buf =
      if leb (length (bytes_of b m)) (length buf)
      then ok (some (packet_of b m), drop (length (bytes_of b m)) buf)
      else if is_bad_cut m (length buf)
      then panicked
      else ok (none, buf)

  decode-part :
      (m : Sent) (k : ℕ)
      → IsWhole b m
      → k < length (bytes_of b m)
      → decode b (take k (bytes_of b m))
        ≡ (if is_bad_cut m k then panicked else ok (none, take k (bytes_of b m)))
  decode-part (console x y z w h l text) k (good, short) lt =
      decode-take_console b x y z w h l text k short lt
  decode-part (other i body) k (apart, short) lt = decode-take_dummy b i body k apart short lt

  decode-answer_to :
      (later : List Sent) (buf coming : List ℕ)
      → All (IsWhole b) later
      → buf ++ coming ≡ stream b later
      → decode b buf ≡ answer_to later buf
  decode-answer_to [] [] coming whole e = decode_short b [] (omega arith)
  decode-answer_to [] (x ∷ buf) coming whole e = absurd (cc e)
  decode-answer_to (m ∷ later) buf coming (whole, wholes) e =
      elim (Bool-cases (leb (length (bytes_of b m)) (length buf))) [
        | inl all ↦ rw all (
            ap (decode b)
              (front_whole buf coming (bytes_of b m) (stream b later) e (leb→le _ _ all))
            ∙ decode-bytes_of b m (drop (length (bytes_of b m)) buf) whole)
        | inr part ↦
            let less : length buf < length (bytes_of b m) = not_leb _ _ part in
            rw part (
              subst
                (λ (xs : List ℕ).
                  decode b xs ≡ (if is_bad_cut m (length buf) then panicked else ok (none, xs)))
                (sym
                  (front_part buf coming (bytes_of b m) (stream b later) e (omega (arith, less))))
                (decode-part m (length buf) whole less))
      ]

  -- The messages fall into those whose packets have come out, in order, and those whose bytes are in
  -- the buffer or have not arrived.
  abbrev pub IsBetween : List Sent → List Sent → List Sent → Reading → Type 0
  IsBetween messages earlier later s =
      (messages ≡ earlier ++ later)
      × (s.packets ≡ map (packet_of b) earlier)
      × (s.buffer ++ s.coming ≡ stream b later)

  abbrev IsConsistent : List Sent → Reading → Type 0
  IsConsistent messages s =
      (earlier : List Sent) × (later : List Sent) × IsBetween messages earlier later s

  map-append_one :
      (earlier : List Sent) (m : Sent)
      → map (packet_of b) (earlier ++ m ∷ []) ≡ map (packet_of b) earlier ++ packet_of b m ∷ []
  map-append_one [] m = refl
  map-append_one (x ∷ earlier) m = ap (λ ps. packet_of b x ∷ ps) (map-append_one earlier m)

  call-IsConsistent :
      (messages earlier later : List Sent) (s : Reading) (answer : Option TcpPacket) (rest : List ℕ)
      → IsBetween messages earlier later s
      → answer_to later s.buffer ≡ ok (answer, rest)
      → IsConsistent messages (record s { buffer = rest; packets = s.packets ++ listed answer })
  call-IsConsistent messages earlier [] s answer rest v e = absurd (cc e)
  call-IsConsistent messages earlier (m ∷ later) s answer rest (split, out, bytes) e =
      elim (Bool-cases (leb (length (bytes_of b m)) (length s.buffer))) [
        | inl all ↦
            let rest' : List ℕ = drop (length (bytes_of b m)) s.buffer in
            let e' : ok (some (packet_of b m), rest') ≡ ok (answer, rest) = rw all at e in
            let same : ◌≡◌ {A = Option TcpPacket × List ℕ} (some (packet_of b m), rest')
                (answer, rest) =
              cc e' in
            subst after same (
              earlier ++ m ∷ [],
              later,
              (
                split ∙ sym (append_assoc earlier (m ∷ []) later),
                rw (out, map-append_one earlier m) refl,
                append-cancel (bytes_of b m) (rest' ++ s.coming) (stream b later) (
                    sym (append_assoc (bytes_of b m) rest' s.coming)
                    ∙ ap (λ (bs : List ℕ). bs ++ s.coming)
                        (sym (
                          front_whole s.buffer s.coming (bytes_of b m) (stream b later) bytes
                            (leb→le _ _ all)))
                    ∙ bytes),
              ),
            )
        | inr part ↦ elim (Bool-cases (is_bad_cut m (length s.buffer))) [
          | inl bad ↦ let e' : panicked ≡ ok (answer, rest) = rw (part, bad) at e in absurd (cc e')
          | inr good ↦
              let e' : ok (none, s.buffer) ≡ ok (answer, rest) = rw (part, good) at e in
              let same : ◌≡◌ {A = Option TcpPacket × List ℕ} (none, s.buffer) (answer, rest) =
                cc e' in
              subst after same (earlier, m ∷ later, (split, append-nil s.packets ∙ out, bytes))
        ]
      ]
    where
      after : Option TcpPacket × List ℕ → Type 0
      after r = IsConsistent messages (record s { buffer = r.1; packets = s.packets ++ listed r.0 })

  Step-IsConsistent :
      (messages : List Sent) (s end : Reading)
      → All (IsWhole b) messages
      → IsConsistent messages s
      → Step s end
      → IsConsistent messages end
  Step-IsConsistent messages s end whole (earlier, later, (split, out, bytes))
        (arrive part rest e) =
      (
        earlier,
        later,
        (
          split,
          out,
          append_assoc s.buffer part rest ∙ ap (λ (bs : List ℕ). s.buffer ++ bs) (sym e) ∙ bytes,
        ),
      )
  Step-IsConsistent messages s end whole (earlier, later, (split, out, bytes))
        (call answer rest e) =
      call-IsConsistent messages earlier later s answer rest (split, out, bytes)
        (sym (
            decode-answer_to later s.buffer s.coming
              (All-append_right (IsWhole b) earlier later (subst (All (IsWhole b)) split whole))
              bytes)
          ∙ e)

  Reach-IsConsistent :
      (messages : List Sent) (end : Reading)
      → All (IsWhole b) messages
      → Reach (start (stream b messages)) end
      → IsConsistent messages end
  Reach-IsConsistent messages end whole here = ([], messages, (refl, refl, refl))
  Reach-IsConsistent messages end whole (next r st) =
      Step-IsConsistent messages _ end whole (Reach-IsConsistent messages _ whole r) st

  -- A stream of whole console messages with valid text and of frames of other ids, with lengths that
  -- fit in 16 bits, which arrives in any parts, while the decoder is called at any times. As long as
  -- the calls return, the packets that have come out are those of the first messages, in order and
  -- with their contents, and the bytes in the buffer and those not arrived are the rest of the stream.
  -- The next call takes the next message if it is whole, and else waits, but panics where the buffer
  -- ends before the second byte of a field of 16 bits, as it does where nothing is left.
  pub Reach-answer_to :
      (messages : List Sent) (end : Reading)
      → All (IsWhole b) messages
      → Reach (start (stream b messages)) end
      → (earlier : List Sent) × (later : List Sent) × IsBetween messages earlier later end
        × (decode b end.buffer ≡ answer_to later end.buffer)
  Reach-answer_to messages end whole r =
      let (earlier, later, (split, out, bytes)) = Reach-IsConsistent messages end whole r in
      (
        earlier,
        later,
        (split, out, bytes),
        decode-answer_to later end.buffer end.coming
            (All-append_right (IsWhole b) earlier later (subst (All (IsWhole b)) split whole))
            bytes,
      )
