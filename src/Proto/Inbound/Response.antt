-- ===== src/Proto/Inbound/Response.antt =====
-- What `UdpResponsePacket::decode` of src/proto/udp/inbound.rs makes of a datagram.
use ds_rs.Prelude.{
  ==_iff, ltb, take, ℕ, zero, suc, ◌≤◌, ◌<◌, ◌≡◌, ap, ◌∙◌, List, [], ◌∷◌, ◌++◌, append-nil, length,
  length-append, ok, err, panicked, eof, bit_and, ◌==◌, if◌then◌else◌, arith, Bool-cases, inl, inr,
  ◌⊎◌, All,
}
use ds_rs.Crates.{BytesCrate, Bitflags, Float32}
use ds_rs.Ext.{read_u16_be, >>=-panicked}
use ds_rs.Ext.Reads.{read_u8-next, read_u8-end, read_u16_be-next, read_u16_be-short}
use ds_rs.Proto.Inbound.Tags.{
  stub_size, IsTag, tags_bytes, length-tags_bytes, skip_tag_short, skip_tags-nil, skip_tags-enough,
  skip_tags-cases,
}
use ds_rs.Proto.Inbound.{status_all, trace_all, skip_tags, decode}
use ds_rs.Proto.Inbound.Header.{
  Header, header_bytes, IsKnown, packet_of, finish, unknown_flags, decode_header, decode_status,
  decode_flags,
}

module _ (b : BytesCrate) (g : Bitflags) (f : Float32) where
  -- A response whose flags are known and whose tags each have the size of their id is decoded to its
  -- header, and consumed whole.
  pub decode_lem :
      (h : Header) (tags : List (ℕ × List ℕ))
      → IsKnown h
      → All IsTag tags
      → decode b g f (header_bytes h ++ tags_bytes tags) ≡ ok (packet_of f h, [])
  decode_lem h tags known sized =
      let (left, enough, e) =
        skip_tags-enough b tags [] (length (tags_bytes tags)) sized
          (omega (arith, length-tags_bytes tags)) in
      decode_header b g f h (tags_bytes tags) known
      ∙ ap (finish (packet_of f h)) (rw (append-nil) at e ∙ skip_tags-nil b left)

  -- A response whose flags are known, and whose last tag is cut short behind tags that each have
  -- the size of their id, is the error `UnexpectedEof`.
  pub decode_truncated :
      (h : Header) (tags : List (ℕ × List ℕ)) (i : ℕ) (bytes : List ℕ)
      → IsKnown h
      → All IsTag tags
      → length bytes < stub_size i
      → decode b g f (header_bytes h ++ (tags_bytes tags ++ i ∷ bytes)) ≡ err eof
  decode_truncated h tags i bytes known sized short =
      let rest = tags_bytes tags ++ i ∷ bytes in
      let (left, enough, e) =
        skip_tags-enough b tags (i ∷ bytes) (length rest) sized
          (omega (arith, length-tags_bytes tags, length-append (tags_bytes tags) (i ∷ bytes))) in
      decode_header b g f h rest known ∙ ap (finish (packet_of f h)) (e ∙ cut left enough)
    where
      cut : (left : ℕ) → length (i ∷ bytes) ≤ left → skip_tags b left (i ∷ bytes) ≡ err eof
      cut zero le = absurd (omega arith)
      cut (suc left) le = skip_tag_short b i bytes left short

  -- Behind a whole header whose flags are known, any bytes at all are either consumed whole, with
  -- the packet of the header for a result, or the error `UnexpectedEof`: the loop ends.
  pub decode_total :
      (h : Header) (rest : List ℕ)
      → IsKnown h
      → (decode b g f (header_bytes h ++ rest) ≡ ok (packet_of f h, []))
        ⊎ (decode b g f (header_bytes h ++ rest) ≡ err eof)
  decode_total h rest known = elim (skip_tags-cases b (length rest) rest (omega arith)) [
    | inl e ↦ inl (decode_header b g f h rest known ∙ ap (finish (packet_of f h)) e)
    | inr e ↦ inr (decode_header b g f h rest known ∙ ap (finish (packet_of f h)) e)
  ]

  -- A datagram with the eight bytes of a header panics, and is no error, if its status or trace
  -- byte has a bit that is no flag.
  pub decode_panics :
      (h : Header) (rest : List ℕ) → ¬ IsKnown h → decode b g f (header_bytes h ++ rest) ≡ panicked
  unfolding decode
  decode_panics h rest bad = elim (Bool-cases (bit_and h.status status_all == h.status)) [
    | inr e ↦
        read_u16_be-next b _ h.seq_high h.seq_low _
        ∙ read_u8-next b _ h.version _
        ∙ read_u8-next b _ h.status _
        ∙ unknown_flags g status_all h.status (λ p. cc (e, (==_iff _ _).1 p)) _ _
    | inl e ↦
        let known = (==_iff (bit_and h.status status_all) h.status).0 e in
        decode_status b g f h.seq_high h.seq_low h.version h.status _ known
        ∙ read_u8-next b _ h.trace _
        ∙ unknown_flags g trace_all h.trace (λ p. bad (known, p)) _ _
  ]

  -- Of a header whose flags are known, a part of fewer than two bytes panics, and a longer part
  -- that is not the whole is the error `UnexpectedEof`.
  decode_short :
      (h : Header) (n : ℕ)
      → IsKnown h
      → n < 8
      → decode b g f (take n (header_bytes h)) ≡ (if ltb n 2 then panicked else err eof)
  unfolding decode
  decode_short h zero known lt =
      >>=-panicked (read_u16_be b) _ _ (read_u16_be-short b _ (omega arith))
  decode_short h (suc zero) known lt =
      >>=-panicked (read_u16_be b) _ _ (read_u16_be-short b _ (omega arith))
  decode_short h (suc (suc zero)) known lt =
      read_u16_be-next b _ h.seq_high h.seq_low _ ∙ read_u8-end b _
  decode_short h (suc (suc (suc zero))) known lt =
      read_u16_be-next b _ h.seq_high h.seq_low _ ∙ read_u8-next b _ h.version _ ∙ read_u8-end b _
  decode_short h (suc (suc (suc (suc zero)))) known lt =
      decode_status b g f h.seq_high h.seq_low h.version h.status [] known.0 ∙ read_u8-end b _
  decode_short h (suc (suc (suc (suc (suc zero))))) known lt =
      decode_flags b g f h.seq_high h.seq_low h.version h.status h.trace _ known.0 known.1
      ∙ read_u8-end b _
  decode_short h (suc (suc (suc (suc (suc (suc zero)))))) known lt =
      decode_flags b g f h.seq_high h.seq_low h.version h.status h.trace _ known.0 known.1
      ∙ read_u8-next b _ h.high _
      ∙ read_u8-end b _
  decode_short h (suc (suc (suc (suc (suc (suc (suc zero))))))) known lt =
      decode_flags b g f h.seq_high h.seq_low h.version h.status h.trace _ known.0 known.1
      ∙ read_u8-next b _ h.high _
      ∙ read_u8-next b _ h.low _
      ∙ read_u8-end b _
  decode_short h (suc (suc (suc (suc (suc (suc (suc (suc n)))))))) known lt = absurd (omega arith)
