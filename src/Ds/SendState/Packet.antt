-- ===== src/Ds/SendState/Packet.antt =====
-- The packet that `SendState::control` of src/ds/state/send.rs makes, and the state that it leaves.
use ds_rs.Prelude.{
  ℕ, ◌+◌, ◌*◌, ◌%◌, ◌≤◌, ◌<◌, ◌>>=◌, ◌≡◌, refl, sym, ◌∙◌, Bool, true, false, Option, none, some,
  List, [], ◌∷◌, ◌++◌, append-nil, append_assoc, length, length-append, ok, if◌then◌else◌, arith,
  le→leb,
}
use ds_rs.Crates.{BytesCrate, Bitflags, Float32, union_lem, contains_lem}
use ds_rs.Util.{to_u8_vec}
use ds_rs.Util.Buttons.{length-to_u8_vec}
use ds_rs.Proto.Tags.{UdpTag, Joysticks, countdown, joysticks, date_time, timezone}
use ds_rs.Proto.Tags.Layout.{counts_fit, joysticks_layout, be16_all}
use ds_rs.Proto.Control.{control_enabled, control_estop, control_fms_connected}
use ds_rs.Proto.Outbound.{UdpControlPacket, request_bits, encode}
use ds_rs.Proto.Outbound.Datagram.{receive, tag_views, all_fit, receive-encode}
use ds_rs.Ds.Mode.{Mode, to_control}
use ds_rs.Ds.Joystick.{JoystickValue}
use ds_rs.Ds.Joystick.Values.{joystick_of, apply_values_lem}
use ds_rs.Ds.Joystick.Entries.{IsShaped}
use ds_rs.Ds.SendState.{
  JoystickSupplier, SendState, queue_udp, box_tags, queue_joysticks, poll_joysticks, control_bits,
  control,
}

-- What the supplier lists at the call.
abbrev pub polled : ℕ → Option JoystickSupplier → List (List JoystickValue)
polled now none = []
polled now (some supplier) = supplier now

-- One tag for each joystick, in order, whose entries are the last values that the supplier lists.
abbrev pub tags_of : Float32 → List (List JoystickValue) → List UdpTag
tags_of f [] = []
tags_of f (vs ∷ more) = joysticks (joystick_of f vs) ∷ tags_of f more

box_tags_lem : (pending tags : List UdpTag) → box_tags tags pending ≡ tags ++ pending
unfolding box_tags
box_tags_lem [] tags = sym (append-nil tags)
box_tags_lem (timezone t ∷ pending) tags =
    box_tags_lem pending (tags ++ timezone t ∷ []) ∙ append_assoc tags (timezone t ∷ []) pending
box_tags_lem (date_time t ∷ pending) tags =
    box_tags_lem pending (tags ++ date_time t ∷ []) ∙ append_assoc tags (date_time t ∷ []) pending
box_tags_lem (joysticks t ∷ pending) tags =
    box_tags_lem pending (tags ++ joysticks t ∷ []) ∙ append_assoc tags (joysticks t ∷ []) pending
box_tags_lem (countdown t ∷ pending) tags =
    box_tags_lem pending (tags ++ countdown t ∷ []) ∙ append_assoc tags (countdown t ∷ []) pending

queue_joysticks_lem :
    (f : Float32) (values : List (List JoystickValue)) (s : SendState)
    → queue_joysticks f values s ≡ ok (record s { pending_udp = s.pending_udp ++ tags_of f values })
unfolding queue_joysticks queue_udp
queue_joysticks_lem f [] s = rw (append-nil s.pending_udp) refl
queue_joysticks_lem f (vs ∷ values) s =
    let tag = joysticks (joystick_of f vs) in
    rw (apply_values_lem f vs) (
      queue_joysticks_lem f values (record s { pending_udp = s.pending_udp ++ tag ∷ [] })
      ∙ rw (append_assoc s.pending_udp (tag ∷ []) (tags_of f values)) refl)

poll_joysticks_lem :
    (f : Float32) (now : ℕ) (provider : Option JoystickSupplier) (s : SendState)
    → poll_joysticks f now provider s
      ≡ ok (record s { pending_udp = s.pending_udp ++ tags_of f (polled now provider) })
unfolding poll_joysticks
poll_joysticks_lem f now none s = rw (append-nil s.pending_udp) refl
poll_joysticks_lem f now (some supplier) s = queue_joysticks_lem f (supplier now) s

-- The packet of the state at a call: its sequence number, control byte, request and alliance, and the
-- queued tags followed by one tag for each joystick polled.
abbrev pub packet_of : Bitflags → Float32 → ℕ → SendState → UdpControlPacket
packet_of g f now s = record {
  seqnum = s.udp_seqnum;
  control = control_bits g s;
  request = s.pending_request;
  alliance = s.alliance;
  tags = s.pending_udp ++ tags_of f (polled now s.joystick_provider);
}

-- `control` never panics. Its packet carries the sequence number, the control byte, the request and
-- the alliance of the state, and the queued tags followed by one tag for each joystick polled; the
-- state that it leaves differs in that the queue and the request are empty.
pub control_lem :
    (g : Bitflags) (f : Float32) (now : ℕ) (s : SendState)
    → control g f now s
      ≡ ok (record s { pending_udp = []; pending_request = none }, packet_of g f now s)
unfolding control
control_lem g f now s = rw (poll_joysticks_lem f now s.joystick_provider s, box_tags_lem) refl

pub control-left :
    (g : Bitflags) (f : Float32) (now : ℕ) (s s' : SendState) (p : UdpControlPacket)
    → control g f now s ≡ ok (s', p)
    → s' ≡ record s { pending_udp = []; pending_request = none }
control-left g f now s s' p e = cc (control_lem g f now s, e)

-- The bits of every control byte that can be made.
flags_table :
    (g : Bitflags) (m : Mode) (e x : Bool)
    → let c = if e then g.union (to_control m) control_enabled else to_control m in
      let d = if x then g.union c control_estop else c in
      (g.contains d control_enabled ≡ e)
      × (g.contains d control_estop ≡ x)
      × (g.contains d control_fms_connected ≡ false)
      × (d % 4 ≡ to_control m)
unfolding to_control
flags_table g m e x = simp (union_lem, contains_lem) (ground arith)

-- The control byte shows that the robot is enabled, and that it is stopped, exactly when the state
-- says so; its two lowest bits are the mode, and the bit of the field system is never set.
pub control_bits_lem :
    (g : Bitflags) (s : SendState)
    → (g.contains (control_bits g s) control_enabled ≡ s.enabled)
      × (g.contains (control_bits g s) control_estop ≡ s.estopped)
      × (g.contains (control_bits g s) control_fms_connected ≡ false)
      × (control_bits g s % 4 ≡ to_control s.mode)
unfolding control_bits
control_bits_lem g s = flags_table g s.mode s.enabled s.estopped

pub all_fit-append :
    (xs ys : List UdpTag) → all_fit xs ≡ true → all_fit ys ≡ true → all_fit (xs ++ ys) ≡ true
all_fit-append [] ys hx hy = hy
all_fit-append (x ∷ xs) ys hx hy = ground (arith, all_fit-append xs ys)

length-be16_all : (xs : List ℕ) → length (be16_all xs) ≡ 2 * length xs
length-be16_all [] = refl
length-be16_all (x ∷ xs) = omega (arith, length-be16_all xs)

joysticks_size :
    (j : Joysticks)
    → length (joysticks_layout j)
      ≡ 3 + length j.axes + length (to_u8_vec j.buttons) + length (be16_all j.povs)
joysticks_size j = omega (
  arith,
  length-append j.axes
      (length j.buttons ∷ (to_u8_vec j.buttons ++ length j.povs ∷ be16_all j.povs)),
  length-append (to_u8_vec j.buttons) (length j.povs ∷ be16_all j.povs),
)

-- A joystick of the supplier takes 13 bytes, so its tag fits in its frame.
joysticks_fit : (j : Joysticks) → IsShaped j → all_fit (joysticks j ∷ []) ≡ true
joysticks_fit j h = rw (counts, le→leb (1 + length (joysticks_layout j)) 255 short) refl
  where
    counts : counts_fit j ≡ true
    counts = rw (h.six_axes, h.ten_buttons, h.one_pov) refl

    short : 1 + length (joysticks_layout j) ≤ 255
    short = omega (
      arith,
      joysticks_size j,
      length-to_u8_vec j.buttons,
      length-be16_all j.povs,
      h.six_axes,
      h.ten_buttons,
      h.one_pov,
    )

tags_of-all_fit :
    (f : Float32) (values : List (List JoystickValue)) → all_fit (tags_of f values) ≡ true
tags_of-all_fit f [] = refl
tags_of-all_fit f (vs ∷ values) =
    all_fit-append (joysticks (joystick_of f vs) ∷ []) (tags_of f values)
      (joysticks_fit (joystick_of f vs)
        (record { six_axes = refl; ten_buttons = refl; one_pov = refl }))
      (tags_of-all_fit f values)

-- If the sequence number is a 16-bit number and the queued tags fit in their frames, the packet
-- that `control` makes is encoded, and a receiver that goes by the length bytes reads from it the
-- sequence number, the control byte, the request and the station of the state, the queued tags, and
-- then a tag for each joystick polled.
pub receive-encode-control :
    (b : BytesCrate) (g : Bitflags) (f : Float32) (now : ℕ) (s : SendState)
    → s.udp_seqnum < 65536
    → all_fit s.pending_udp ≡ true
    → (bytes : List ℕ) × ((do (s', p) ← control g f now s; encode b p) ≡ ok bytes)
      × (receive bytes
          ≡ some (record {
            seqnum = s.udp_seqnum;
            version = 0x01;
            control = control_bits g s;
            request = request_bits s.pending_request;
            station = s.alliance.station;
            tags = tag_views (s.pending_udp ++ tags_of f (polled now s.joystick_provider));
          }))
receive-encode-control b g f now s h fit =
    let (bytes, encoded, received) = receive-encode b (packet_of g f now s) h (
      all_fit-append s.pending_udp (tags_of f (polled now s.joystick_provider)) fit
        (tags_of-all_fit f (polled now s.joystick_provider))) in
    (bytes, rw (control_lem g f now s) encoded, received)
