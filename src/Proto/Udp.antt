-- ===== src/Proto/Udp.antt =====
-- src/proto/udp.rs: the codec of the datagrams.
pub mod Codec
use ds_rs.Prelude.{Option, some, List, ℕ, Outcome, ok, ◌>>=◌}
use ds_rs.Crates.{BytesCrate, Bitflags, Float32}
use ds_rs.Proto.Outbound.{UdpControlPacket, encode}
use ds_rs.Proto.Inbound.{UdpResponsePacket, decode}

-- `Decoder::decode`: the result, and the bytes that remain. An error is passed on.
unfoldable pub decode_datagram :
    BytesCrate → Bitflags → Float32 → List ℕ → Outcome (Option UdpResponsePacket × List ℕ)
decode_datagram b g f src = do (packet, rest) ← decode b g f src; ok (some packet, rest)

-- `Encoder::encode`: the packet goes behind what the buffer holds.
unfoldable pub encode_datagram : BytesCrate → UdpControlPacket → List ℕ → Outcome (List ℕ)
encode_datagram b item dst = do bytes ← encode b item; ok (b.extend dst bytes)
