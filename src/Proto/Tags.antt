-- ===== src/Proto/Tags.antt =====
-- src/proto/udp/outbound/types.rs: the tags of a control packet, and how each is laid out.
-- An `i8` or `i16` is its two's complement bit pattern, an `f32` its 32 bits, a `String` its bytes.
pub mod Layout
pub mod RoundTrip
use ds_rs.Prelude.{ℕ, ◌+◌, ◌%◌, ◌*◌, Bool, List, [], ◌∷◌, length, Outcome, ok, assert, ◌>>=◌, leb}
use ds_rs.Crates.{BytesCrate}
use ds_rs.Util.{to_u8_vec}

pub record Countdown : Type 0 where
  pub seconds_remaining : ℕ

pub record Joysticks : Type 0 where
  pub axes : List ℕ
  pub buttons : List Bool
  pub povs : List ℕ

pub record DateTime : Type 0 where
  pub micros : ℕ
  pub second : ℕ
  pub minute : ℕ
  pub hour : ℕ
  pub day : ℕ
  pub month : ℕ
  pub year : ℕ

pub record Timezone : Type 0 where
  pub tz : List ℕ

-- The enum of the tags, and the boxed `dyn Tag` of a packet: every implementor of `Tag` is a variant.
pub data UdpTag : Type 0 where
  countdown : Countdown → UdpTag
  joysticks : Joysticks → UdpTag
  date_time : DateTime → UdpTag
  timezone : Timezone → UdpTag

unfoldable pub id : UdpTag → ℕ
id (countdown c) = 0x07
id (joysticks j) = 0x0c
id (date_time d) = 0x0f
id (timezone t) = 0x10

module _ (b : BytesCrate) where
  unfoldable pub countdown_data : Countdown → List ℕ
  countdown_data c = b.freeze (b.put_f32 (b.with_capacity 4) c.seconds_remaining)

  -- `for axis in &self.axes { buf.put_i8(*axis); }`
  pub put_axes : List ℕ → List ℕ → List ℕ
  put_axes buf [] = buf
  put_axes buf (axis ∷ axes) = put_axes (b.put_i8 buf axis) axes

  -- `for pov in &self.povs { buf.put_i16(*pov); }`
  pub put_povs : List ℕ → List ℕ → List ℕ
  put_povs buf [] = buf
  put_povs buf (pov ∷ povs) = put_povs (b.put_i16 buf pov) povs

  unfoldable pub joysticks_data : Joysticks → Outcome (List ℕ)
  unfolding put_axes put_povs
  joysticks_data j = do
    let buttons_packed = to_u8_vec j.buttons
    let buf =
        b.with_capacity (1 + length j.axes + 1 + length buttons_packed + 1 + length j.povs * 2)
    _ ← assert (leb (length j.axes) 255)
    let buf1 = put_axes (b.put_u8 buf (length j.axes % 256)) j.axes
    _ ← assert (leb (length j.buttons) 255)
    let buf2 = b.extend_from_slice (b.put_u8 buf1 (length j.buttons % 256)) buttons_packed
    _ ← assert (leb (length j.povs) 255)
    let buf3 = put_povs (b.put_u8 buf2 (length j.povs % 256)) j.povs
    ok (b.freeze buf3)

  unfoldable pub date_time_data : DateTime → List ℕ
  date_time_data d =
      let buf = b.put_u32 (b.with_capacity (4 + 1 + 1 + 1 + 1 + 1 + 1)) d.micros in
      let buf1 = b.put_u8 (b.put_u8 (b.put_u8 buf d.second) d.minute) d.hour in
      b.freeze (b.put_u8 (b.put_u8 (b.put_u8 buf1 d.day) d.month) d.year)

  unfoldable pub timezone_data : Timezone → List ℕ
  timezone_data t = t.tz

  -- `Tag::data`
  unfoldable pub tag_data : UdpTag → Outcome (List ℕ)
  unfolding countdown_data joysticks_data date_time_data timezone_data
  tag_data (countdown c) = ok (countdown_data c)
  tag_data (joysticks j) = joysticks_data j
  tag_data (date_time d) = ok (date_time_data d)
  tag_data (timezone t) = ok (timezone_data t)

  -- `Tag::construct`: length (u8) | id (u8) | data
  unfoldable pub construct : UdpTag → Outcome (List ℕ)
  unfolding tag_data id
  construct tag = do
    data_bytes ← tag_data tag
    let payload_len = 1 + length data_bytes
    _ ← assert (leb payload_len 255)
    let buf = b.put_u8 (b.with_capacity (1 + payload_len)) (payload_len % 256)
    ok (b.freeze (b.put (b.put_u8 buf (id tag)) data_bytes))
