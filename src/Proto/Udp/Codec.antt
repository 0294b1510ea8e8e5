-- ===== src/Proto/Udp/Codec.antt =====
-- The codec of src/proto/udp.rs, on top of the packets.
use ds_rs.Prelude.{
  ℕ, ◌<◌, ◌≡◌, refl, sym, ◌∙◌, true, Option, some, List, [], ◌++◌, Outcome-cases, ok, err, panicked,
  eof, ◌⊎◌, inl, inr,
}
use ds_rs.Proto.Inbound.{UdpResponsePacket, decode}
use ds_rs.Proto.Inbound.Whole.{decode-TakesAll, decode-nil}
use ds_rs.Crates.{BytesCrate, Bitflags, Float32, extend_lem}
use ds_rs.Proto.Outbound.{UdpControlPacket}
use ds_rs.Proto.Outbound.Datagram.{receive, datagram_of, all_fit, receive-encode}
use ds_rs.Proto.Inbound.Header.{Header, header_bytes, IsKnown, packet_of}
use ds_rs.Proto.Inbound.Response.{decode_total}
use ds_rs.Proto.Udp.{decode_datagram, encode_datagram}

-- A packet whose tags fit in their frames goes behind what the buffer holds, and a receiver that goes
-- by the length bytes reads back its header and every tag with its id and data, in order.
pub receive-encode_datagram :
    (b : BytesCrate) (p : UdpControlPacket) (dst : List ℕ)
    → p.seqnum < 65536
    → all_fit p.tags ≡ true
    → (bytes : List ℕ) × (encode_datagram b p dst ≡ ok (dst ++ bytes))
      × (receive bytes ≡ some (datagram_of p))
unfolding encode_datagram
receive-encode_datagram b p dst h f =
    let (bytes, encoded, received) = receive-encode b p h f in
    (bytes, rw (encoded, extend_lem b dst bytes) refl, received)

-- The decoder of the datagrams never asks for more bytes: behind a header whose flags are known, any
-- bytes at all either give the packet of the header with nothing left, or an error.
pub decode_datagram_total :
    (b : BytesCrate) (g : Bitflags) (f : Float32) (h : Header) (rest : List ℕ)
    → IsKnown h
    → (decode_datagram b g f (header_bytes h ++ rest) ≡ ok (some (packet_of f h), []))
      ⊎ (decode_datagram b g f (header_bytes h ++ rest) ≡ err eof)
unfolding decode_datagram
decode_datagram_total b g f h rest known = elim (decode_total b g f h rest known) [
  | inl e ↦ inl (rw e refl)
  | inr e ↦ inr (rw e refl)
]

-- Whatever the datagram, known flags or not: if the decoder returns, it returns a packet and leaves
-- nothing, and it panics when it is called once more on what it left. It never answers that there is
-- no further packet.
pub decode_datagram-again :
    (b : BytesCrate) (g : Bitflags) (f : Float32) (src rest : List ℕ)
    (answer : Option UdpResponsePacket)
    → decode_datagram b g f src ≡ ok (answer, rest)
    → ((p : UdpResponsePacket) × (answer ≡ some p))
      × (rest ≡ [])
      × (decode_datagram b g f rest ≡ panicked)
unfolding decode_datagram
decode_datagram-again b g f src rest answer e = elim (Outcome-cases (decode b g f src)) [
  | inl ((p, left), first) ↦
      let e' : ok (some p, left) ≡ ok (answer, rest) = rw first at e in
      let same : left ≡ rest = cc e' in
      let whole : rest ≡ [] = sym same ∙ decode-TakesAll b g f src left p first in
      ((p, cc e'), whole, rw (whole, decode-nil b g f) refl)
  | inr (inl (failure, first)) ↦
      let e' : err failure ≡ ok (answer, rest) = rw first at e in absurd (cc e')
  | inr (inr first) ↦ let e' : panicked ≡ ok (answer, rest) = rw first at e in absurd (cc e')
]
