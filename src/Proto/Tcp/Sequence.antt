-- ===== src/Proto/Tcp/Sequence.antt =====
-- A stream of whole frames, under the decoder of src/proto/tcp.rs, which takes one at each call.
use ds_rs.Prelude.{
  ℕ, zero, suc, ◌+◌, ◌<◌, ◌≡◌, ◌≢◌, refl, ◌∙◌, true, Option, none, some, List, [], ◌∷◌, ◌++◌, map,
  append_assoc, length, All, Outcome, ok, ◌>>=◌,
}
use ds_rs.Crates.{BytesCrate}
use ds_rs.Proto.Tcp.{TcpPacket, stdout, dummy, decode}
use ds_rs.Proto.Tcp.Utf8.{is_utf8}
use ds_rs.Proto.Tcp.Frames.{frame}
use ds_rs.Proto.Tcp.Console.{console_message, console_frame, decode-console}
use ds_rs.Proto.Tcp.Stream.{decode-dummy}

-- What the robot sends: a console message of seven numbers of one byte and a text, or another frame.
pub data Sent : Type 0 where
  console : ℕ → ℕ → ℕ → ℕ → ℕ → ℕ → List ℕ → Sent
  other : ℕ → List ℕ → Sent

module _ (b : BytesCrate) where
  abbrev pub bytes_of : Sent → List ℕ
  bytes_of (console x y z w h l text) = console_frame b x y z w h l text
  bytes_of (other i body) = frame i body

  abbrev pub stream : List Sent → List ℕ
  stream [] = []
  stream (m ∷ messages) = bytes_of m ++ stream messages

  abbrev pub packet_of : Sent → TcpPacket
  packet_of (console x y z w h l text) = stdout (console_message b x y z w h l text)
  packet_of (other i body) = dummy

  -- The text is UTF-8 and the length fits in 16 bits; another frame has another id.
  abbrev pub IsWhole : Sent → Type 0
  IsWhole (console x y z w h l text) = (is_utf8 text ≡ true) × (7 + length text < 65536)
  IsWhole (other i body) = (i ≢ 0x0c) × (1 + length body < 65536)

  -- The packet of a call goes in front of those of the calls after it; without one they stop.
  abbrev pub with_packet :
      (List ℕ → Outcome (List TcpPacket × List ℕ))
      → Option TcpPacket × List ℕ
      → Outcome (List TcpPacket × List ℕ)
  with_packet later (none, buf) = ok ([], buf)
  with_packet later (some p, buf) = do (packets, rest) ← later buf; ok (p ∷ packets, rest)

  -- So many calls of the decoder in a row, as long as each makes a packet.
  unfoldable pub decode_times : ℕ → List ℕ → Outcome (List TcpPacket × List ℕ)
  decode_times zero buf = ok ([], buf)
  decode_times (suc n) buf = do r ← decode b buf; with_packet (decode_times n) r

  pub decode-bytes_of :
      (m : Sent) (rest : List ℕ)
      → IsWhole m
      → decode b (bytes_of m ++ rest) ≡ ok (some (packet_of m), rest)
  decode-bytes_of (console x y z w h l text) rest (good, short) =
      decode-console b x y z w h l text rest short ∙ rw good refl
  decode-bytes_of (other i body) rest (apart, short) = decode-dummy b i body rest apart short

  -- A stream of whole console messages with valid text and of frames of other ids, whatever bytes
  -- follow it: as many calls of the decoder as there are messages give one packet for each, in their
  -- order and with their contents, and leave exactly the bytes that follow.
  decode_times-stream :
      (messages : List Sent) (rest : List ℕ)
      → All IsWhole messages
      → decode_times (length messages) (stream messages ++ rest) ≡ ok (map packet_of messages, rest)
  unfolding decode_times
  decode_times-stream [] rest h = refl
  decode_times-stream (m ∷ messages) rest (whole, h) =
      rw
        (
          append_assoc (bytes_of m) (stream messages) rest,
          decode-bytes_of m (stream messages ++ rest) whole,
          decode_times-stream messages rest h,
        )
        refl
