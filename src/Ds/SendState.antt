-- ===== src/Ds/SendState.antt =====
-- src/ds/state/send.rs: the state from which control packets are made. A method that mutates the
-- state returns the new one.
pub mod Getters
pub mod Packet
pub mod Steps
use ds_rs.Prelude.{
  ℕ, ◌+◌, ◌%◌, ◌^◌, Bool, true, false, Option, none, some, List, [], ◌∷◌, ◌++◌, Outcome, ok, ◌>>=◌,
  if◌then◌else◌,
}
use ds_rs.Crates.{Bitflags, Float32}
use ds_rs.Proto.Tags.{UdpTag, countdown, joysticks, date_time, timezone}
use ds_rs.Proto.Control.{Alliance, control_enabled, control_estop}
use ds_rs.Proto.Outbound.{UdpControlPacket}
use ds_rs.Ds.Mode.{Mode, autonomous, DsMode, normal, to_control}
use ds_rs.Ds.Joystick.{JoystickValue, at_rest, apply_values}

-- A supplier is user code that may answer differently at each call: the argument stands for the
-- state of its surroundings at the call.
abbrev pub JoystickSupplier : Type 0
JoystickSupplier = ℕ → List (List JoystickValue)

pub record SendState : Type 0 where
  pub mode : Mode
  pub udp_seqnum : ℕ
  pub enabled : Bool
  pub estopped : Bool
  pub alliance : Alliance
  pub pending_udp : List UdpTag
  pub joystick_provider : Option JoystickSupplier
  pub pending_request : Option ℕ
  pub dsmode : DsMode

unfoldable pub new : Alliance → SendState
new alliance = record {
  mode = autonomous;
  udp_seqnum = 0;
  enabled = false;
  estopped = false;
  alliance = alliance;
  pending_udp = [];
  joystick_provider = none;
  pending_request = none;
  dsmode = normal;
}

unfoldable pub request : ℕ → SendState → SendState
request r s = record s { pending_request = some r }

unfoldable pub queue_udp : UdpTag → SendState → SendState
queue_udp tag s = record s { pending_udp = s.pending_udp ++ tag ∷ [] }

unfoldable pub set_joystick_supplier : JoystickSupplier → SendState → SendState
set_joystick_supplier supplier s = record s { joystick_provider = some supplier }

unfoldable pub set_alliance : Alliance → SendState → SendState
set_alliance alliance s = record s { alliance = alliance }

unfoldable pub set_mode : Mode → SendState → SendState
set_mode mode s = record s { mode = mode }

unfoldable pub set_ds_mode : DsMode → SendState → SendState
set_ds_mode mode s = record s { dsmode = mode }

-- `wrapping_add` on a `u16`
unfoldable pub increment_seqnum : SendState → SendState
increment_seqnum s = record s { udp_seqnum = (s.udp_seqnum + 1) % 2 ^ 16 }

unfoldable pub reset_seqnum : SendState → SendState
reset_seqnum s = record s { udp_seqnum = 0 }

unfoldable pub enable : SendState → SendState
enable s = record s { enabled = true }

unfoldable pub disable : SendState → SendState
disable s = record s { enabled = false }

unfoldable pub estop : SendState → SendState
unfolding disable
estop s = record (disable s) { estopped = true }

-- The loop that boxes the pending tags.
pub box_tags : List UdpTag → List UdpTag → List UdpTag
box_tags tags [] = tags
box_tags tags (timezone tz ∷ pending) = box_tags (tags ++ timezone tz ∷ []) pending
box_tags tags (date_time dt ∷ pending) = box_tags (tags ++ date_time dt ∷ []) pending
box_tags tags (joysticks joy ∷ pending) = box_tags (tags ++ joysticks joy ∷ []) pending
box_tags tags (countdown cnt ∷ pending) = box_tags (tags ++ countdown cnt ∷ []) pending

module _ (f : Float32) where
  -- The outer loop: a tag for each joystick goes behind those that are pending.
  pub queue_joysticks : List (List JoystickValue) → SendState → Outcome SendState
  unfolding queue_udp
  queue_joysticks [] s = ok s
  queue_joysticks (values ∷ more) s = do
    j ← apply_values f at_rest values
    queue_joysticks more (queue_udp (joysticks j) s)

  -- `if let Some(ref supplier) = self.joystick_provider { … }`
  pub poll_joysticks : ℕ → Option JoystickSupplier → SendState → Outcome SendState
  unfolding queue_joysticks
  poll_joysticks now none s = ok s
  poll_joysticks now (some supplier) s = queue_joysticks (supplier now) s

module _ (g : Bitflags) where
  -- The control byte of `control`.
  unfoldable pub control_bits : SendState → ℕ
  unfolding to_control
  control_bits s =
      let control = to_control s.mode in
      let control1 = if s.enabled then g.union control control_enabled else control in
      if s.estopped then g.union control1 control_estop else control1

module _ (g : Bitflags) (f : Float32) where
  unfoldable pub control : ℕ → SendState → Outcome (SendState × UdpControlPacket)
  unfolding poll_joysticks control_bits box_tags
  control now s0 = do
    s ← poll_joysticks f now s0.joystick_provider s0
    let tags = box_tags [] s.pending_udp
    ok (
      record s { pending_udp = []; pending_request = none },
      record {
        seqnum = s.udp_seqnum;
        control = control_bits g s;
        request = s.pending_request;
        alliance = s.alliance;
        tags = tags;
      },
    )
