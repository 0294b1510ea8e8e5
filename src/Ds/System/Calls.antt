-- ===== src/Ds/System/Calls.antt =====
-- How the steps of the system change the state of src/ds/state/send.rs: by its methods only.
use ds_rs.Prelude.{
  ℕ, ◌<◌, ◌≡◌, refl, ◌&&◌, not, Bool, true, false, inl, inr, Bool-cases, some, ok, subst,
}
use ds_rs.Crates.{BytesCrate, Bitflags, Float32}
use ds_rs.Proto.Control.{Alliance, control_estop}
use ds_rs.Proto.Tags.{date_time}
use ds_rs.Proto.Inbound.{emergency_stopped}
use ds_rs.Ds.Mode.{normal, simulation, same_mode}
use ds_rs.Ds.SendState
use ds_rs.Ds.SendState.{SendState, increment_seqnum, reset_seqnum, disable, control_bits}
use ds_rs.Ds.SendState.Packet.{control_lem, control_bits_lem}
use ds_rs.Ds.SendState.Steps
use ds_rs.Ds.SendState.Steps.{
  queue_step, request_step, supplier_step, alliance_step, mode_step, ds_mode_step, increment_step,
  Reach-seqnum, Reach-estopped, reset_step, enable_step, disable_step, estop_step, control_step,
}
use ds_rs.Ds.State
use ds_rs.Ds.State.{DsState}
use ds_rs.Ds.Signal.{Address, Signal, disconnect, new_target, new_mode}
use ds_rs.Ds.Conn.Receiver.{
  Receiver, UtcNow, date_tag, with_date, follow_estop, Event, packet, undecoded, stream_end,
  decoder_panics, silence, signal, signals_end, receive,
}
use ds_rs.Ds.Conn.Sender.{Sender, on_signal}
use ds_rs.Ds.Conn.Sender.Kept.{sent_state, tick-KeepsTick}
use ds_rs.Ds.DriverStation.{DriverStation}
use ds_rs.Ds.DriverStation.Requests.{
  Call, call_set_joystick_supplier, call_set_tcp_consumer, call_set_alliance, call_set_mode,
  call_set_team_number, call_set_use_usb, call_enable, call_restart_code, call_restart_roborio,
  call_queue_udp, call_estop, call_disable, perform, result, perform-result,
}
use ds_rs.Ds.Conn.Receiver.Parts.{Part, dates, links, stops, shows, take_part}
use ds_rs.Ds.System.{
  System, new, handle, Step, Reach, tick_step, panic_step, forward_step, traffic_step, part_step,
  signal_step, heard_step, begin_step, tcp_step, call_step, drop_step, here, next,
}

module _ (g : Bitflags) (f : Float32) where
  -- The state of sending goes from one to the other by calls of its methods.
  abbrev pub Called : SendState → SendState → Type 0
  Called = Steps.Reach g f

  Called-trans : {s t u : SendState} → Called s t → Called t u → Called s u
  Called-trans r Steps.here = r
  Called-trans r (Steps.next r' st) = Steps.next (Called-trans r r') st

  sent_state-Called : (now : ℕ) (s : SendState) → Called s (sent_state s)
  unfolding increment_seqnum
  sent_state-Called now s =
      Steps.next (Steps.next Steps.here (control_step now _ _ (control_lem g f now s)))
        increment_step

  switch-Called : (s : SendState) → Called s (disable (reset_seqnum s))
  switch-Called s = Steps.next (Steps.next Steps.here reset_step) disable_step

  -- What a call with a result leaves is known from the result.
  Called-ok :
      {A : Type 0} (send : A → SendState) (s : SendState) (a a' : A)
      → Called s (send a)
      → ok a ≡ ok a'
      → Called s (send a')
  Called-ok send s a a' r e = let same : a ≡ a' = cc e in rw (← same) r

  on_signal-Called :
      (s : Signal) (task task' : Sender) (sh sh' : DsState)
      → on_signal true (some s) task sh ≡ ok (task', sh')
      → Called sh.send sh'.send
  unfolding on_signal
  on_signal-Called (new_target ip) task task' sh sh' e =
      Called-ok (λ (p : Sender × DsState). p.1.send) sh.send _ (task', sh') (switch-Called sh.send)
        e
  on_signal-Called (new_mode simulation) task task' sh sh' e =
      Called-ok (λ (p : Sender × DsState). p.1.send) sh.send _ (task', sh') (switch-Called sh.send)
        e
  on_signal-Called (new_mode normal) task task' sh sh' e =
      Called-ok (λ (p : Sender × DsState). p.1.send) sh.send _ (task', sh') Steps.here e
  on_signal-Called disconnect task task' sh sh' e =
      Called-ok (λ (p : Sender × DsState). p.1.send) sh.send _ (task', sh') Steps.here e

  with_date-Called :
      (need : Bool) (now : UtcNow) (sh : DsState) → Called sh.send (with_date need now sh).send
  with_date-Called true now sh = Steps.next Steps.here (queue_step (date_time (date_tag now)))
  with_date-Called false now sh = Steps.here

  follow_estop-Called :
      (stopped : Bool) (sh : DsState) → Called sh.send (follow_estop stopped sh).send
  follow_estop-Called true sh = elim (Bool-cases sh.send.estopped) [
    | inl e ↦ rw e Steps.here
    | inr e ↦ rw e (Steps.next Steps.here estop_step)
  ]
  follow_estop-Called false sh = Steps.here

  receive-Called :
      (listening : Bool) (e : Event) (task : Receiver) (sh : DsState)
      → Called sh.send (receive g listening e task sh).shared.send
  unfolding receive
  receive-Called listening (packet now p) task sh =
      Called-trans (with_date-Called p.need_date now sh)
        (follow_estop-Called (emergency_stopped g p.status) (with_date p.need_date now sh))
  receive-Called listening undecoded task sh = Steps.here
  receive-Called listening stream_end task sh = Steps.here
  receive-Called listening decoder_panics task sh = Steps.here
  receive-Called listening silence task sh = elim (Bool-cases task.connected) [
    | inl e ↦ rw e Steps.here
    | inr e ↦ rw e Steps.here
  ]
  receive-Called listening (signal disconnect) task sh = Steps.here
  receive-Called listening (signal (new_target target)) task sh = Steps.here
  receive-Called listening (signal (new_mode mode)) task sh =
      elim (Bool-cases (same_mode mode sh.send.dsmode)) [
        | inl e ↦ rw e Steps.here
        | inr e ↦ rw e (Steps.next Steps.here (ds_mode_step mode))
      ]
  receive-Called listening signals_end task sh = Steps.here

  take_part-Called :
      (p : Part) (task : Receiver) (sh : DsState) → Called sh.send (take_part p task sh).1.send
  unfolding take_part
  take_part-Called (dates need now) task sh = with_date-Called need now sh
  take_part-Called links task sh = Steps.here
  take_part-Called (stops stopped) task sh = follow_estop-Called stopped sh
  take_part-Called (shows trace battery) task sh = Steps.here

  result-Called : (c : Call) (ds : DriverStation) → Called ds.state.send (result c ds).state.send
  unfolding result
  result-Called (call_set_joystick_supplier supplier) ds =
      Steps.next Steps.here (supplier_step supplier)
  result-Called (call_set_tcp_consumer consumer) ds = Steps.here
  result-Called (call_set_alliance alliance) ds = Steps.next Steps.here (alliance_step alliance)
  result-Called (call_set_mode mode) ds = Steps.next Steps.here (mode_step mode)
  result-Called (call_set_team_number n) ds = Steps.here
  result-Called (call_set_use_usb use_usb) ds = Steps.here
  result-Called call_enable ds = Steps.next Steps.here enable_step
  result-Called call_restart_code ds = Steps.next Steps.here (request_step _)
  result-Called call_restart_roborio ds = Steps.next Steps.here (request_step _)
  result-Called (call_queue_udp tag) ds = Steps.next Steps.here (queue_step tag)
  result-Called call_estop ds = Steps.next Steps.here estop_step
  result-Called call_disable ds = Steps.next Steps.here disable_step

  perform-Called :
      (listening : Bool) (c : Call) (ds ds' : DriverStation)
      → perform listening c ds ≡ ok ds'
      → Called ds.state.send ds'.state.send
  perform-Called listening c ds ds' e =
      subst (λ (d : DriverStation). Called ds.state.send d.state.send)
        (perform-result listening c ds ds' e) (result-Called c ds)

module _ (b : BytesCrate) (g : Bitflags) (f : Float32) where
  Step-Called :
      {sys sys' : System} → Step b g f sys sys' → Called g f sys.shared.send sys'.shared.send
  Step-Called {sys} (tick_step now sent t lives e) =
      rw (tick-KeepsTick b g f now sent sys.sender sys.shared t e).1
        (sent_state-Called g f now sys.shared.send)
  Step-Called {sys} (panic_step now sent s p lives made e) =
      Steps.next Steps.here (control_step now s p made)
  Step-Called {sys} (forward_step s rest task sh lives taken e) =
      on_signal-Called g f s sys.sender task sys.shared sh e
  Step-Called {sys} (traffic_step e traffic runs) =
      receive-Called g f sys.alive e sys.receiver sys.shared
  Step-Called {sys} (part_step p runs) = take_part-Called g f p sys.receiver sys.shared
  Step-Called {sys} (signal_step s rest runs taken) =
      receive-Called g f sys.alive (signal s) sys.receiver sys.shared
  Step-Called {sys} (heard_step h m sent e) = Steps.here
  Step-Called {sys} (begin_step k h) = Steps.here
  Step-Called {sys} (tcp_step e) = Steps.here
  Step-Called {sys} (call_step c ds e) = perform-Called g f sys.running c (handle sys) ds e
  Step-Called {sys} drop_step = Steps.here

  -- Whatever the tasks and the interface do, in any order: the state from which the packets are made
  -- changes by sequences of its own methods only. So its sequence number stays below 65536, and once
  -- it says that the robot is emergency stopped it says so for good; the stop bit of the control byte
  -- is set exactly then.
  pub Reach-Called :
      (ip : Address) (alliance : Alliance) (team_number : ℕ) {mid end : System}
      → Reach b g f (new ip alliance team_number) mid
      → Reach b g f mid end
      → Called g f (SendState.new alliance) mid.shared.send
        × Called g f mid.shared.send end.shared.send
        × (end.shared.send.udp_seqnum < 65536)
        × ((mid.shared.send.estopped && not end.shared.send.estopped) ≡ false)
        × (g.contains (control_bits g end.shared.send) control_estop ≡ end.shared.send.estopped)
  unfolding new State.new
  Reach-Called ip alliance team_number {mid} {end} r r' =
      let from_new = calls r in
      let onward = calls r' in
      (
        from_new,
        onward,
        Reach-seqnum g f alliance (Called-trans g f from_new onward),
        latched mid.shared.send.estopped (λ h. (Reach-estopped g f onward h).0),
        (control_bits_lem g end.shared.send).1,
      )
    where
      latched :
          (before : Bool) {after : Bool}
          → (before ≡ true → after ≡ true)
          → (before && not after) ≡ false
      latched true h = rw (h refl) refl
      latched false h = refl

      calls : {s t : System} → Reach b g f s t → Called g f s.shared.send t.shared.send
      calls here = Steps.here
      calls (next r st) = Called-trans g f (calls r) (Step-Called st)
