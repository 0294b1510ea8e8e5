-- ===== src/Tests/Wire.antt =====
-- Instances for src/util.rs, src/ext.rs and the datagrams of src/proto/udp.
use ds_rs.Prelude.{
  Option, ℕ, ◌≡◌, ◌⊎◌, refl, Bool, true, false, some, List, [], ◌∷◌, ◌++◌, ok, err, panicked, eof,
  ◌>>=◌, arith,
}
use ds_rs.Proto.Tags.{id}
use ds_rs.Crates.Reference.{bytes, flags, float}
use ds_rs.Util.{to_u8_vec}
use ds_rs.Util.Buttons.{buttons_of, buttons_of-to_u8_vec}
use ds_rs.Proto.Tags.{
  Joysticks, Timezone, countdown, date_time, joysticks, timezone, joysticks_data, construct,
}
use ds_rs.Proto.Tags.Layout.{construct_lem}
use ds_rs.Proto.Tags.RoundTrip.{read_joysticks, read_joysticks_lem}
use ds_rs.Proto.Control.{Alliance}
use ds_rs.Proto.Outbound.{UdpControlPacket}
use ds_rs.Proto.Udp.{decode_datagram}
use ds_rs.Proto.Udp.Codec.{decode_datagram-again}
use ds_rs.Proto.Inbound.{UdpResponsePacket, decode}
use ds_rs.Proto.Inbound.Header.{Header, header_bytes}
use ds_rs.Proto.Inbound.Response.{decode_lem, decode_total, decode_panics}

-- Ten buttons, the second and the tenth pressed: the roboRIO wants the byte of the last two first.
abbrev pressed : List Bool
pressed = false ∷ true ∷ false ∷ false ∷ false ∷ false ∷ false ∷ false ∷ false ∷ true ∷ []

buttons_of-to_u8_vec_example : buttons_of 10 (to_u8_vec pressed) ≡ pressed
buttons_of-to_u8_vec_example = buttons_of-to_u8_vec pressed

to_u8_vec_run : to_u8_vec pressed ≡ 2 ∷ 2 ∷ []
unfolding to_u8_vec
to_u8_vec_run = refl

abbrev stick : Joysticks
stick = record { axes = 127 ∷ 0 ∷ []; buttons = pressed; povs = 0xffff ∷ 90 ∷ [] }

abbrev zone : Timezone
zone = record { tz = b'U' ∷ b'T' ∷ b'C' ∷ [] }

read_joysticks_lem_example :
    (do data_bytes ← joysticks_data bytes stick; ok (read_joysticks data_bytes)) ≡ ok (some stick)
read_joysticks_lem_example = read_joysticks_lem bytes stick refl (omega arith, (omega arith, tt))

construct_lem_example : construct bytes (timezone zone) ≡ ok (4 ∷ 0x10 ∷ b'U' ∷ b'T' ∷ b'C' ∷ [])
unfolding id
construct_lem_example = construct_lem bytes (timezone zone)

abbrev station : Alliance
station = record { station = 4 }

abbrev control_packet : UdpControlPacket
control_packet = record {
  seqnum = 300;
  control = 0b110;
  request = some 4;
  alliance = station;
  tags = joysticks stick ∷ timezone zone ∷ [];
}

abbrev pub header : Header
header = record {
  seq_high = 1;
  seq_low = 2;
  version = 1;
  status = 0b1000_0100;
  trace = 0b0010_0010;
  high = 12;
  low = 0;
  date = 1;
}

abbrev odd_header : Header
odd_header = record header { status = 0b0110_0000 }

abbrev pub response : UdpResponsePacket
response = record {
  seqnum = 258;
  status = 0b1000_0100;
  trace = 0b0010_0010;
  battery = 12;
  need_date = true;
}

abbrev sized : ℕ × List ℕ
sized = (0x04, 0 ∷ 0 ∷ 1 ∷ 0 ∷ [])

decode_lem_example :
    decode bytes flags float (header_bytes header ++ 0x04 ∷ 0 ∷ 0 ∷ 1 ∷ 0 ∷ []) ≡ ok (response, [])
decode_lem_example = decode_lem bytes flags float header (sized ∷ []) (refl, refl) (refl, tt)

decode_total_example :
    (decode bytes flags float (header_bytes header ++ 0x05 ∷ 7 ∷ []) ≡ ok (response, []))
    ⊎ (decode bytes flags float (header_bytes header ++ 0x05 ∷ 7 ∷ []) ≡ err eof)
decode_total_example = decode_total bytes flags float header (0x05 ∷ 7 ∷ []) (refl, refl)

decode_panics_example : decode bytes flags float (header_bytes odd_header ++ 0x04 ∷ []) ≡ panicked
decode_panics_example =
    decode_panics bytes flags float odd_header (0x04 ∷ [])
      (λ known. absurd (omega (arith, known.0)))

-- The unit tests of src/proto/udp/outbound/types.rs. The last one is what the code gives for the
-- joystick of `verify_joysticks_format`.
verify_countdown_format :
    construct bytes (countdown (record { seconds_remaining = 0x4000_0000 }))
    ≡ ok (0x05 ∷ 0x07 ∷ 0x40 ∷ 0x00 ∷ 0x00 ∷ 0x00 ∷ [])
unfolding construct
verify_countdown_format = refl

verify_datetime_format :
    construct bytes (
      date_time (record {
        micros = 123456;
        second = 30;
        minute = 55;
        hour = 17;
        day = 23;
        month = 4;
        year = 124;
      }))
    ≡ ok (0x0b ∷ 0x0f ∷ 0x00 ∷ 0x01 ∷ 0xe2 ∷ 0x40 ∷ 0x1e ∷ 0x37 ∷ 0x11 ∷ 0x17 ∷ 0x04 ∷ 0x7c ∷ [])
unfolding construct
verify_datetime_format = refl

abbrev sample : Joysticks
sample = record {
  axes = 0x80 ∷ 0 ∷ 127 ∷ [];
  buttons = true ∷ false ∷ true ∷ false ∷ false ∷ false ∷ false ∷ false ∷ true ∷ [];
  povs = 0 ∷ 18000 ∷ [];
}

verify_joysticks_format :
    construct bytes (joysticks sample)
    ≡ ok (
        0x0d ∷ 0x0c ∷ 0x03 ∷ 0x80 ∷ 0x00 ∷ 0x7f ∷ 0x09 ∷ 0x01 ∷ 0x05 ∷ 0x02 ∷ 0x00 ∷ 0x00 ∷ 0x46
        ∷ 0x50 ∷ [])
unfolding construct to_u8_vec
verify_joysticks_format = refl

-- The datagram of the header alone.
pub decode_response :
    decode_datagram bytes flags float (header_bytes header) ≡ ok (some response, [])
unfolding decode_datagram
decode_response = rw (decode_lem bytes flags float header [] (refl, refl) tt) refl

decode_datagram-again_example :
    ((p : UdpResponsePacket) × (◌≡◌ {A = Option UdpResponsePacket} (some response) (some p)))
    × (◌≡◌ {A = List ℕ} [] [])
    × (decode_datagram bytes flags float [] ≡ panicked)
decode_datagram-again_example =
    decode_datagram-again bytes flags float (header_bytes header) [] (some response) decode_response
