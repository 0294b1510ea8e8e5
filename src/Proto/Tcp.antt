-- ===== src/Proto/Tcp.antt =====
-- src/proto/tcp.rs, tcp/inbound.rs and tcp/outbound.rs: the codec of the TCP stream.
pub mod Utf8
pub mod Frames
pub mod Body
pub mod Stream
pub mod Console
pub mod Fits
pub mod Progress
pub mod Sequence
pub mod Outgoing
pub mod Arrivals
use ds_rs.Prelude.{
  ℕ, zero, suc, ◌+◌, ◌-◌, ◌%◌, Option, none, some, List, length, Outcome, ok, err, panicked, eof,
  bad_text, message, assert, ltb, leb, ◌==◌, if◌then◌else◌,
}
use ds_rs.Prelude
use ds_rs.Crates.{BytesCrate}
use ds_rs.Ext.{Reader, ◌>>=◌, pure, lift, taken, read_u8, read_u16_be, read_f32_be}
use ds_rs.Proto.Tcp.Utf8.{is_utf8}

-- `MatchType`, with its discriminant.
pub data MatchType : Type 0 where
  match_test practice qualification playoff : MatchType

unfoldable pub match_type_byte : MatchType → ℕ
match_type_byte match_test = 0
match_type_byte practice = 1
match_type_byte qualification = 2
match_type_byte playoff = 3

pub record MatchInfo : Type 0 where
  pub competition : List ℕ
  pub match_type : MatchType

pub record GameData : Type 0 where
  pub gsm : List ℕ

pub data TcpTag : Type 0 where
  match_info : MatchInfo → TcpTag
  game_data : GameData → TcpTag

unfoldable pub id : TcpTag → ℕ
id (match_info m) = 0x07
id (game_data g) = 0x0e

pub record Stdout : Type 0 where
  pub timestamp : ℕ
  pub text : List ℕ
  pub seqnum : ℕ

pub data TcpPacket : Type 0 where
  stdout : Stdout → TcpPacket
  dummy : TcpPacket

-- `a - b` of unsigned integers, which panics where the result would be negative (overflow checks on).
abbrev pub checked_sub : ℕ → ℕ → Outcome ℕ
checked_sub a n = if ltb a n then panicked else ok (a - n)

module _ (b : BytesCrate) where
  unfoldable pub tag_data : TcpTag → List ℕ
  unfolding match_type_byte
  tag_data (match_info m) =
      let buf =
        b.put_u8 (b.with_capacity (1 + length m.competition + 1)) (length m.competition % 256) in
      b.freeze (b.put_u8 (b.put_slice buf m.competition) (match_type_byte m.match_type))
  tag_data (game_data g) = b.freeze (b.put_slice (b.with_capacity (length g.gsm)) g.gsm)

  -- `OutgoingTcpTag::construct`: length (u16) | id (u8) | data
  unfoldable pub construct : TcpTag → Outcome (List ℕ)
  unfolding tag_data id
  construct tag =
      let bytes = tag_data tag in
      let payload_len = 1 + length bytes in
      let buf = b.put_u16 (b.with_capacity (2 + payload_len)) (payload_len % 65536) in
      Prelude.◌>>=◌ (assert (leb payload_len 65535))
        (λ _. ok (b.freeze (b.extend_from_slice (b.put_u8 buf (id tag)) bytes)))

  -- `Encoder::encode`: the frame goes behind what the buffer holds.
  unfoldable pub encode : TcpTag → List ℕ → Outcome (List ℕ)
  unfolding construct
  encode item dst = Prelude.◌>>=◌ (construct item) (λ frame. ok (b.extend dst frame))

  -- `buf.copy_to_slice(&mut v[..])` behind the check of `Stdout::decode`.
  unfoldable pub read_slice : ℕ → Reader (List ℕ)
  read_slice n buf = if ltb (b.remaining buf) n then err eof else taken (b.copy_to_slice n buf)

  -- `str::from_utf8`
  abbrev pub from_utf8 : List ℕ → Outcome (List ℕ)
  from_utf8 v = if is_utf8 v then ok v else err bad_text

  -- `Stdout::decode`
  unfoldable pub decode_stdout : ℕ → Reader Stdout
  unfolding read_slice
  decode_stdout len = do
    timestamp ← read_f32_be b
    seqnum ← read_u16_be b
    n ← lift (checked_sub len 6)
    v ← read_slice n
    text ← lift (from_utf8 v)
    pure (record { timestamp = timestamp; text = text; seqnum = seqnum })

  -- `for _ in 0..(len - 1) { let _ = buf.read_u8()?; }`
  unfoldable pub skip_bytes : ℕ → Reader (Unit {0})
  skip_bytes zero = pure tt
  skip_bytes (suc n) = do _ ← read_u8 b; skip_bytes n

  -- The body of the `match` on the id of a frame.
  unfoldable pub decode_body : ℕ → ℕ → Reader (TcpPacket × ℕ)
  unfolding decode_stdout skip_bytes
  decode_body len i =
      if i == 0x0c
      then (do
        n ← lift (checked_sub len 1)
        packet ← decode_stdout n
        pure (stdout packet, len + 2))
      else (do n ← lift (checked_sub len 1); _ ← skip_bytes n; pure (dummy, len + 2))

  -- `inner`: a packet, and the number of bytes that its frame takes.
  unfoldable pub inner : Reader (TcpPacket × ℕ)
  unfolding decode_body
  inner = do len ← read_u16_be b; i ← read_u8 b; decode_body len i

  -- What `decode` makes of the result of `inner` on a copy of the buffer `src`.
  unfoldable pub conclude :
      List ℕ → Outcome ((TcpPacket × ℕ) × List ℕ) → Outcome (Option TcpPacket × List ℕ)
  conclude src (ok ((packet, n), copy)) =
      Prelude.◌>>=◌ (taken (b.advance n src)) (λ rest. ok (some packet, rest))
  conclude src (err eof) = ok (none, src)
  conclude src (err bad_text) = err message
  conclude src (err message) = err message
  conclude src panicked = panicked

  -- `Decoder::decode`: the packet, if there is a whole one, and the bytes that remain.
  unfoldable pub decode : List ℕ → Outcome (Option TcpPacket × List ℕ)
  unfolding inner conclude
  decode src = conclude src (inner src)
