-- ===== src/Proto/Inbound.antt =====
-- src/proto/udp/inbound.rs and inbound/types.rs: the response packets of the roboRIO.
pub mod Tags
pub mod Header
pub mod Response
pub mod Whole
use ds_rs.Prelude.{
  ℕ, zero, suc, Bool, Option, none, some, List, [], ◌∷◌, length, Outcome, ok, err, panicked, ◌==◌,
  if◌then◌else◌,
}
use ds_rs.Crates.{BytesCrate, Bitflags, Float32, f32_256}
use ds_rs.Ext.{Reader, ◌>>=◌, pure, lift, read_u8, read_u16_be}

-- `Status`; `status_all` is the union of its flags.
abbrev pub status_estop : ℕ
status_estop = 0b1000_0000

abbrev pub status_brownout : ℕ
status_brownout = 0b0001_0000

abbrev pub status_code_start : ℕ
status_code_start = 0b0000_1000

abbrev pub status_enabled : ℕ
status_enabled = 0b0000_0100

abbrev pub status_teleop : ℕ
status_teleop = 0b00

abbrev pub status_test : ℕ
status_test = 0b01

abbrev pub status_auto : ℕ
status_auto = 0b10

abbrev pub status_all : ℕ
status_all = 0b1001_1111

-- `Trace`; `trace_all` is the union of its flags.
abbrev pub trace_robot_code : ℕ
trace_robot_code = 0b0010_0000

abbrev pub trace_is_roborio : ℕ
trace_is_roborio = 0b0001_0000

abbrev pub trace_test_mode : ℕ
trace_test_mode = 0b0000_1000

abbrev pub trace_autonomous : ℕ
trace_autonomous = 0b0000_0100

abbrev pub trace_teleop : ℕ
trace_teleop = 0b0000_0010

abbrev pub trace_disabled : ℕ
trace_disabled = 0b0000_0001

abbrev pub trace_all : ℕ
trace_all = 0b0011_1111

module _ (g : Bitflags) where
  unfoldable pub is_browning_out : ℕ → Bool
  is_browning_out status = g.contains status status_brownout

  unfoldable pub emergency_stopped : ℕ → Bool
  emergency_stopped status = g.contains status status_estop

  unfoldable pub is_autonomous : ℕ → Bool
  is_autonomous trace = g.contains trace trace_autonomous

  unfoldable pub is_teleop : ℕ → Bool
  is_teleop trace = g.contains trace trace_teleop

  unfoldable pub is_disabled : ℕ → Bool
  is_disabled trace = g.contains trace trace_disabled

  unfoldable pub is_test : ℕ → Bool
  is_test trace = g.contains trace trace_test_mode

  unfoldable pub is_code_started : ℕ → Bool
  is_code_started trace = g.contains trace trace_robot_code

  unfoldable pub is_connected : ℕ → Bool
  is_connected trace = g.contains trace trace_is_roborio

-- The sizes of the tags that `gen_stub_tags!` makes.
abbrev pub pdp_log : ℕ
pdp_log = 25

abbrev pub joystick_output : ℕ
joystick_output = 8

abbrev pub disk_info : ℕ
disk_info = 4

abbrev pub cpu_info : ℕ
cpu_info = 20

abbrev pub ram_info : ℕ
ram_info = 8

abbrev pub unknown : ℕ
unknown = 9

abbrev pub can_metrics : ℕ
can_metrics = 14

pub record UdpResponsePacket : Type 0 where
  pub seqnum : ℕ
  pub status : ℕ
  pub trace : ℕ
  pub battery : ℕ
  pub need_date : Bool

-- `Option::unwrap`
abbrev pub unwrap {ℓ} : {A : Type ℓ} → Option A → Outcome A
unwrap none = panicked
unwrap (some a) = ok a

module _ (b : BytesCrate) where
  -- `chomp` of a stub tag: its array of bytes, read one by one.
  unfoldable pub chomp : ℕ → Reader (List ℕ)
  chomp zero = pure []
  chomp (suc n) = do x ← read_u8 b; xs ← chomp n; pure (x ∷ xs)

  -- The `match` on the id of a tag.
  unfoldable pub chomp_tag : ℕ → Reader (List ℕ)
  unfolding chomp
  chomp_tag tag_id =
      if tag_id == 0x01
      then chomp joystick_output
      else if tag_id == 0x04
      then chomp disk_info
      else if tag_id == 0x05
      then chomp cpu_info
      else if tag_id == 0x06
      then chomp ram_info
      else if tag_id == 0x08
      then chomp pdp_log
      else if tag_id == 0x09
      then chomp unknown
      else if tag_id == 0x0e
      then chomp can_metrics
      else pure []

  -- `while let Ok(tag_id) = buf.read_u8() { … }`, on fuel.
  unfoldable pub skip_tags : ℕ → Reader (Unit {0})
  unfolding chomp_tag
  skip_tags zero buf = ok (tt, buf)
  skip_tags (suc fuel) buf = elim (read_u8 b buf) [
    | ok (tag_id, rest) ↦ (do _ ← chomp_tag tag_id; skip_tags fuel) rest
    | err e ↦ ok (tt, buf)
    | panicked ↦ panicked
  ]

module _ (b : BytesCrate) (g : Bitflags) (f : Float32) where
  -- `UdpResponsePacket::decode`. A round of the loop takes a byte at least, so the bytes that remain
  -- are fuel enough.
  unfoldable pub decode : Reader UdpResponsePacket
  unfolding skip_tags
  decode = do
    seqnum ← read_u16_be b
    _ ← read_u8 b
    status_byte ← read_u8 b
    status ← lift (unwrap (g.from_bits status_all status_byte))
    trace_byte ← read_u8 b
    trace ← lift (unwrap (g.from_bits trace_all trace_byte))
    high ← read_u8 b
    low ← read_u8 b
    date_byte ← read_u8 b
    _ ← (λ buf. skip_tags b (length buf) buf)
    pure (record {
      seqnum = seqnum;
      status = status;
      trace = trace;
      battery = f.add (f.from_u8 high) (f.div (f.from_u8 low) f32_256);
      need_date = date_byte == 1;
    })
