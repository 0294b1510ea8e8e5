-- ===== src/Ds/System/Disabled.antt =====
-- That the driver station of src/ds.rs and src/ds/conn.rs does not leave a robot enabled across a
-- change of its target or its mode.
use ds_rs.Prelude.{
  ◌≡◌, refl, ◌∙◌, ◌⊎◌, inl, inr, Bool, true, false, Option-cases, List, [], ◌∷◌, ◌++◌, some, ok,
  subst, arith,
}
use ds_rs.Crates.{BytesCrate, Bitflags, Float32}
use ds_rs.Proto.Control.{control_enabled}
use ds_rs.Ds.Mode.{DsMode, normal, simulation, same_mode}
use ds_rs.Ds.SendState
use ds_rs.Ds.SendState.{SendState, control_bits}
use ds_rs.Ds.SendState.Packet.{control_bits_lem, control-left}
use ds_rs.Ds.State.{DsState}
use ds_rs.Ds.Signal.{Signal, disconnect, new_target, new_mode}
use ds_rs.Ds.Conn.Receiver.{
  Receiver, Event, packet, undecoded, stream_end, decoder_panics, silence, signal, signals_end,
  receive,
}
use ds_rs.Ds.Conn.Sender.{Sender, on_signal}
use ds_rs.Ds.Conn.Sender.Kept.{tick-KeepsTick}
use ds_rs.Ds.DriverStation.{DriverStation}
use ds_rs.Ds.DriverStation.Requests.{
  Call, call_enable, call_estop, call_disable, perform, result, perform-result,
}
use ds_rs.Ds.Conn.Receiver.Parts.{Part, dates, links, stops, shows, take_part}
use ds_rs.Ds.System.{
  System, handle, forwarded, after_round, Step, tick_step, panic_step, forward_step, traffic_step,
  part_step, signal_step, heard_step, begin_step, tcp_step, call_step, drop_step,
}

-- A signal on which the sending task disables the robot waits for it.
abbrev pub HasSwitch : List Signal → Type 0
HasSwitch [] = ⊥
HasSwitch (new_target ip ∷ signals) = Unit {0}
HasSwitch (new_mode simulation ∷ signals) = Unit {0}
HasSwitch (new_mode normal ∷ signals) = HasSwitch signals
HasSwitch (disconnect ∷ signals) = HasSwitch signals

HasSwitch-append : (first more : List Signal) → HasSwitch first → HasSwitch (first ++ more)
HasSwitch-append [] more h = absurd h
HasSwitch-append (new_target ip ∷ first) more h = tt
HasSwitch-append (new_mode simulation ∷ first) more h = tt
HasSwitch-append (new_mode normal ∷ first) more h = HasSwitch-append first more h
HasSwitch-append (disconnect ∷ first) more h = HasSwitch-append first more h

append-HasSwitch : (first more : List Signal) → HasSwitch more → HasSwitch (first ++ more)
append-HasSwitch [] more h = h
append-HasSwitch (new_target ip ∷ first) more h = tt
append-HasSwitch (new_mode simulation ∷ first) more h = tt
append-HasSwitch (new_mode normal ∷ first) more h = append-HasSwitch first more h
append-HasSwitch (disconnect ∷ first) more h = append-HasSwitch first more h

-- The robot is disabled, or is going to be.
abbrev pub IsSafe : DsState → List Signal → Type 0
IsSafe sh forwards = (sh.send.enabled ≡ false) ⊎ HasSwitch forwards

-- A call that does not enable the robot.
abbrev pub IsPassive : Call → Type 0
IsPassive call_enable = ⊥
IsPassive _ = Unit {0}

on_signal-IsSafe :
    (s : Signal) (rest : List Signal) (task task' : Sender) (sh sh' : DsState)
    → on_signal true (some s) task sh ≡ ok (task', sh')
    → IsSafe sh (s ∷ rest)
    → IsSafe sh' rest
unfolding on_signal SendState.disable SendState.reset_seqnum
on_signal-IsSafe (new_target ip) rest task task' sh sh' e h = inl (cc e)
on_signal-IsSafe (new_mode simulation) rest task task' sh sh' e h = inl (cc e)
on_signal-IsSafe (new_mode normal) rest task task' sh sh' e h =
    let same : sh ≡ sh' = cc e in rw (← same) h
on_signal-IsSafe disconnect rest task task' sh sh' e h = let same : sh ≡ sh' = cc e in rw (← same) h

-- No round of `udp_conn` enables the robot.
receive-disabled :
    (g : Bitflags) (listening : Bool) (e : Event) (task : Receiver) (sh : DsState)
    → sh.send.enabled ≡ false
    → (receive g listening e task sh).shared.send.enabled ≡ false
unfolding receive SendState.queue_udp SendState.estop SendState.set_ds_mode
receive-disabled g listening (packet now p) task sh h = ground arith
receive-disabled g listening undecoded task sh h = h
receive-disabled g listening stream_end task sh h = h
receive-disabled g listening decoder_panics task sh h = h
receive-disabled g listening silence task sh h = ground arith
receive-disabled g listening (signal disconnect) task sh h = h
receive-disabled g listening (signal (new_target ip)) task sh h = h
receive-disabled g listening (signal (new_mode m)) task sh h = ground arith
receive-disabled g listening signals_end task sh h = h

take_part-disabled :
    (p : Part) (task : Receiver) (sh : DsState)
    → sh.send.enabled ≡ false
    → (take_part p task sh).1.send.enabled ≡ false
unfolding take_part SendState.queue_udp SendState.estop
take_part-disabled (dates need now) task sh h = ground arith
take_part-disabled links task sh h = h
take_part-disabled (stops stopped) task sh h = ground arith
take_part-disabled (shows trace battery) task sh h = h

receive-IsSafe :
    (g : Bitflags) (listening : Bool) (e : Event) (task : Receiver) (sh : DsState)
    (forwards : List Signal)
    → IsSafe sh forwards
    → let r = receive g listening e task sh in IsSafe r.shared (forwards ++ forwarded r.effects)
receive-IsSafe g listening e task sh forwards (inl off) =
    inl (receive-disabled g listening e task sh off)
receive-IsSafe g listening e task sh forwards (inr waits) = inr (HasSwitch-append forwards _ waits)

result-disabled :
    (c : Call) (ds : DriverStation)
    → IsPassive c
    → ds.state.send.enabled ≡ false
    → (result c ds).state.send.enabled ≡ false
unfolding result SendState.set_joystick_supplier SendState.set_alliance SendState.set_mode
    SendState.request SendState.queue_udp SendState.estop SendState.disable
result-disabled call_enable ds passive h = absurd passive
result-disabled call_estop ds passive h = refl
result-disabled call_disable ds passive h = refl
result-disabled _ ds passive h = h

perform-disabled :
    (listening : Bool) (c : Call) (ds ds' : DriverStation)
    → perform listening c ds ≡ ok ds'
    → IsPassive c
    → ds.state.send.enabled ≡ false
    → ds'.state.send.enabled ≡ false
perform-disabled listening c ds ds' e passive h =
    subst (λ (d : DriverStation). d.state.send.enabled ≡ false)
      (perform-result listening c ds ds' e) (result-disabled c ds passive h)

module _ (b : BytesCrate) (g : Bitflags) (f : Float32) where
  -- A step other than a call that enables the robot.
  abbrev pub IsCalm : {sys sys' : System} → Step b g f sys sys' → Type 0
  IsCalm (call_step c ds e) = IsPassive c
  IsCalm _ = Unit {0}

  pub data Calm (sys : System) : System → Type 0 where
    still : Calm sys sys
    calmly :
        {mid end : System} → Calm sys mid → (st : Step b g f mid end) → IsCalm st → Calm sys end

  Step-IsSafe :
      {sys sys' : System} (st : Step b g f sys sys')
      → IsCalm st
      → IsSafe sys.shared sys.forwards
      → IsSafe sys'.shared sys'.forwards
  Step-IsSafe {sys} (tick_step now sent t lives e) calm h =
      rw (tick-KeepsTick b g f now sent sys.sender sys.shared t e).1 h
  Step-IsSafe {sys} (panic_step now sent s p lives made e) calm h =
      rw (control-left g f now sys.shared.send s p made) h
  Step-IsSafe {sys} (forward_step s rest task sh lives taken e) calm h =
      on_signal-IsSafe s rest sys.sender task sys.shared sh e (rw taken at h)
  Step-IsSafe {sys} (traffic_step e traffic runs) calm h =
      receive-IsSafe g sys.alive e sys.receiver sys.shared sys.forwards h
  Step-IsSafe {sys} (part_step p runs) calm (inl off) =
      inl (take_part-disabled p sys.receiver sys.shared off)
  Step-IsSafe {sys} (part_step p runs) calm (inr waits) = inr waits
  Step-IsSafe {sys} (signal_step s rest runs taken) calm h =
      receive-IsSafe g sys.alive (signal s) sys.receiver sys.shared sys.forwards h
  Step-IsSafe {sys} (heard_step h' m sent e) calm h = h
  Step-IsSafe {sys} (begin_step k lt) calm h = h
  Step-IsSafe {sys} (tcp_step e) calm h = h
  Step-IsSafe {sys} (call_step c ds e) calm (inl off) =
      inl (perform-disabled sys.running c (handle sys) ds e calm off)
  Step-IsSafe {sys} (call_step c ds e) calm (inr waits) = inr waits
  Step-IsSafe {sys} drop_step calm h = h

  Calm-IsSafe :
      {sys end : System}
      → Calm sys end
      → IsSafe sys.shared sys.forwards
      → IsSafe end.shared end.forwards
  Calm-IsSafe still h = h
  Calm-IsSafe (calmly r st calm) h = Step-IsSafe st calm (Calm-IsSafe r h)

  none_left : (sh : DsState) → IsSafe sh [] → sh.send.enabled ≡ false
  none_left sh (inl off) = off
  none_left sh (inr waits) = absurd waits

  -- A signal that changes the target or the mode.
  abbrev pub Switches : Signal → DsMode → Type 0
  Switches disconnect m = ⊥
  Switches (new_target ip) m = Unit {0}
  Switches (new_mode k) m = same_mode k m ≡ false

  receive-Switches :
      (s : Signal) (task : Receiver) (sh : DsState)
      → Switches s sh.send.dsmode
      → HasSwitch (forwarded (receive g true (signal s) task sh).effects)
  unfolding receive
  receive-Switches disconnect task sh h = absurd h
  receive-Switches (new_target ip) task sh h = elim (Option-cases task.tcp_tx) [
    | inl e ↦ rw e tt
    | inr (k, e) ↦ rw e tt
  ]
  receive-Switches (new_mode normal) task sh h = elim (Option-cases task.tcp_tx) [
    | inl e ↦ rw (h, e) tt
    | inr (k, e) ↦ rw (h, e) tt
  ]
  receive-Switches (new_mode simulation) task sh h = elim (Option-cases task.tcp_tx) [
    | inl e ↦ rw (h, e) tt
    | inr (k, e) ↦ rw (h, e) tt
  ]

  -- After `udp_conn` has taken a signal that changes the target or the mode, in whatever state the
  -- system was, any steps of the tasks and any calls but one that enables the robot may follow, in any
  -- order: as soon as nothing waits for the sending task the robot is disabled, and the control byte
  -- says so.
  pub Calm-disabled :
      (s : Signal) (rest : List Signal) (sys end : System)
      → Switches s sys.shared.send.dsmode
      → Calm (after_round rest (receive g true (signal s) sys.receiver sys.shared) sys) end
      → end.forwards ≡ []
      → (end.shared.send.enabled ≡ false)
        × (g.contains (control_bits g end.shared.send) control_enabled ≡ false)
  Calm-disabled s rest sys end switches r idle =
      let begun =
        append-HasSwitch sys.forwards _ (receive-Switches s sys.receiver sys.shared switches) in
      let off = none_left end.shared (subst (IsSafe end.shared) idle (Calm-IsSafe r (inr begun))) in
      (off, (control_bits_lem g end.shared.send).0 ∙ off)
