-- ===== src/LibDs/Station/Owners.antt =====
-- What a callback of libDS/src/cds.rs is given of what the robot sends.
use ds_rs.Prelude.{
  ℕ, ◌+◌, ◌<◌, ◌≡◌, refl, ◌∙◌, true, some, List, ◌++◌, length, ok, panicked, if◌then◌else◌,
}
use ds_rs.Crates.{BytesCrate}
use ds_rs.Proto.Tcp.{TcpPacket, stdout, decode}
use ds_rs.Proto.Tcp.Utf8.{is_utf8}
use ds_rs.Proto.Tcp.Console.{console_message, console_frame, decode-console}
use ds_rs.LibDs.Station.{has_zero, consume}

-- A console message of the robot whose text is UTF-8 and has a zero byte, with a length that fits in
-- 16 bits, is decoded without an error, and the closure that calls the callback panics on it; on one
-- without a zero byte it calls the callback with the text.
pub consume-decode :
    (b : BytesCrate) (x y z w h l : ℕ) (text rest : List ℕ)
    → is_utf8 text ≡ true
    → 7 + length text < 65536
    → (packet : TcpPacket) × (decode b (console_frame b x y z w h l text ++ rest)
        ≡ ok (some packet, rest))
      × (consume packet ≡ (if has_zero text then panicked else ok (some text)))
unfolding consume
consume-decode b x y z w h l text rest good short = (
  stdout (console_message b x y z w h l text),
  decode-console b x y z w h l text rest short ∙ rw good refl,
  refl,
)
