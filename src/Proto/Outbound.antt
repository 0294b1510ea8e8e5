-- ===== src/Proto/Outbound.antt =====
-- src/proto/udp/outbound.rs: the control packet.
pub mod Datagram
use ds_rs.Prelude.{ℕ, Option, none, some, List, [], ◌∷◌, Outcome, ok, ◌>>=◌}
use ds_rs.Crates.{BytesCrate}
use ds_rs.Proto.Tags.{UdpTag, construct}
use ds_rs.Proto.Control.{Alliance}

pub record UdpControlPacket : Type 0 where
  pub seqnum : ℕ
  pub control : ℕ
  pub request : Option ℕ
  pub alliance : Alliance
  pub tags : List UdpTag

-- `if let Some(ref req) = self.request { req.bits() } else { 0 }`
abbrev pub request_bits : Option ℕ → ℕ
request_bits none = 0
request_bits (some req) = req

module _ (b : BytesCrate) where
  -- `for tag in self.tags.iter() { buf.extend(tag.construct()); }`
  pub extend_tags : List ℕ → List UdpTag → Outcome (List ℕ)
  extend_tags buf [] = ok buf
  extend_tags buf (tag ∷ tags) = do bytes ← construct b tag; extend_tags (b.extend buf bytes) tags

  unfoldable pub encode : UdpControlPacket → Outcome (List ℕ)
  unfolding extend_tags
  encode p = do
    let buf = b.put_u16 (b.with_capacity 6) p.seqnum
    let buf1 = b.put_u8 (b.put_u8 buf 0x01) p.control
    let buf2 = b.put_u8 (b.put_u8 buf1 (request_bits p.request)) p.alliance.station
    buf3 ← extend_tags buf2 p.tags
    ok (b.freeze buf3)
