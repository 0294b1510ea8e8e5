-- ===== src/Ds/SendState/Steps.antt =====
-- What holds of the state of src/ds/state/send.rs after any sequence of its methods.
use ds_rs.Prelude.{ℕ, ◌<◌, ◌≡◌, refl, ap, ◌∙◌, true, false, [], none, ok, arith}
use ds_rs.Crates.{Bitflags, Float32}
use ds_rs.Proto.Tags.{UdpTag}
use ds_rs.Proto.Control.{Alliance, control_estop, control_enabled}
use ds_rs.Proto.Outbound.{UdpControlPacket}
use ds_rs.Ds.Mode.{Mode, DsMode}
use ds_rs.Ds.SendState.{
  JoystickSupplier, SendState, new, request, queue_udp, set_joystick_supplier, set_alliance,
  set_mode, set_ds_mode, increment_seqnum, reset_seqnum, enable, disable, estop, control,
  control_bits,
}
use ds_rs.Ds.SendState.Packet.{control_lem, control_bits_lem}

-- One call of a method that mutates the state.
pub data Step (g : Bitflags) (f : Float32) (s : SendState) : SendState → Type 0 where
  request_step : (r : ℕ) → Step g f s (request r s)
  queue_step : (tag : UdpTag) → Step g f s (queue_udp tag s)
  supplier_step : (supplier : JoystickSupplier) → Step g f s (set_joystick_supplier supplier s)
  alliance_step : (a : Alliance) → Step g f s (set_alliance a s)
  mode_step : (m : Mode) → Step g f s (set_mode m s)
  ds_mode_step : (m : DsMode) → Step g f s (set_ds_mode m s)
  increment_step : Step g f s (increment_seqnum s)
  reset_step : Step g f s (reset_seqnum s)
  enable_step : Step g f s (enable s)
  disable_step : Step g f s (disable s)
  estop_step : Step g f s (estop s)
  control_step :
      (now : ℕ) (t : SendState) (p : UdpControlPacket)
      → control g f now s ≡ ok (t, p)
      → Step g f s t

pub data Reach (g : Bitflags) (f : Float32) (s : SendState) : SendState → Type 0 where
  here : Reach g f s s
  next : {t u : SendState} → Reach g f s t → Step g f t u → Reach g f s u

module _ (g : Bitflags) (f : Float32) where
  -- `control` leaves the state with its queue and its request empty.
  control_state :
      (now : ℕ) (s t : SendState) (p : UdpControlPacket)
      → control g f now s ≡ ok (t, p)
      → t ≡ record s { pending_udp = []; pending_request = none }
  control_state now s t p e = cc (e, control_lem g f now s)

  Step-estopped : {s t : SendState} → Step g f s t → s.estopped ≡ true → t.estopped ≡ true
  unfolding request queue_udp set_joystick_supplier set_alliance set_mode set_ds_mode
      increment_seqnum reset_seqnum enable disable estop
  Step-estopped {s} (control_step now t p e) h =
      ap (λ (u : SendState). u.estopped) (control_state now s t p e) ∙ h
  Step-estopped estop_step h = refl
  Step-estopped _ h = h

  Step-seqnum : {s t : SendState} → Step g f s t → s.udp_seqnum < 65536 → t.udp_seqnum < 65536
  unfolding request queue_udp set_joystick_supplier set_alliance set_mode set_ds_mode
      increment_seqnum reset_seqnum enable disable estop
  Step-seqnum {s} (control_step now t p e) h = rw (control_state now s t p e) h
  Step-seqnum increment_step h = omega arith
  Step-seqnum reset_step h = omega arith
  Step-seqnum _ h = h

  -- Once the state says that the robot is emergency stopped, it says so after any calls whatever, and
  -- every control byte has the stop bit; no method clears it, a request to restart the code included.
  pub Reach-estopped :
      {s t : SendState}
      → Reach g f s t
      → s.estopped ≡ true
      → (t.estopped ≡ true) × (g.contains (control_bits g t) control_estop ≡ true)
  Reach-estopped {s} {t} r h =
      let stopped = latched r h in (stopped, (control_bits_lem g t).1 ∙ stopped)
    where
      latched : {u : SendState} → Reach g f s u → s.estopped ≡ true → u.estopped ≡ true
      latched here h = h
      latched (next r st) h = Step-estopped st (latched r h)

  -- From a new state on, the sequence number stays below 65536.
  pub Reach-seqnum : (a : Alliance) {t : SendState} → Reach g f (new a) t → t.udp_seqnum < 65536
  unfolding new
  Reach-seqnum a here = omega arith
  Reach-seqnum a (next r st) = Step-seqnum st (Reach-seqnum a r)

  -- A stop disables the robot, and `enable` is not refused after it: the control byte then has both
  -- the stop bit and the enabled bit.
  enable-estop :
      (s : SendState)
      → ((estop s).enabled ≡ false)
        × (g.contains (control_bits g (estop s)) control_enabled ≡ false)
        × (g.contains (control_bits g (enable (estop s))) control_enabled ≡ true)
        × (g.contains (control_bits g (enable (estop s))) control_estop ≡ true)
  unfolding enable estop
  enable-estop s = (
    refl,
    (control_bits_lem g (estop s)).0,
    (control_bits_lem g (enable (estop s))).0,
    (control_bits_lem g (enable (estop s))).1,
  )
