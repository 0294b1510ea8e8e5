-- ===== src/Ds/System/Fit.antt =====
-- That the queued tags of src/ds/state/send.rs fit in their frames, whatever the tasks do.
use ds_rs.Prelude.{◌≡◌, refl, Bool, true, false, inl, inr, Bool-cases, [], ◌∷◌, ok, subst, arith}
use ds_rs.Crates.{Bitflags}
use ds_rs.Proto.Tags.{date_time}
use ds_rs.Proto.Inbound.{emergency_stopped}
use ds_rs.Proto.Outbound.Datagram.{all_fit}
use ds_rs.Ds.SendState
use ds_rs.Ds.SendState.{SendState}
use ds_rs.Ds.SendState.Packet.{all_fit-append}
use ds_rs.Ds.State.{DsState}
use ds_rs.Ds.Signal.{disconnect, new_target, new_mode}
use ds_rs.Ds.Conn.Receiver
use ds_rs.Ds.Conn.Receiver.{
  Receiver, UtcNow, date_tag, with_date, follow_estop, Event, packet, undecoded, stream_end,
  decoder_panics, silence, signal, signals_end,
}
use ds_rs.Ds.Conn.Receiver.Parts.{Part, dates, links, stops, shows, take_part}
use ds_rs.Ds.DriverStation.{DriverStation}
use ds_rs.Ds.DriverStation.Requests.{Call, call_queue_udp, perform, result, perform-result}

-- The queued tags fit in their frames.
abbrev pub IsFit : DsState → Type 0
IsFit sh = all_fit sh.send.pending_udp ≡ true

with_date-IsFit :
    (need : Bool) (now : UtcNow) (sh : DsState) → IsFit sh → IsFit (with_date need now sh)
unfolding SendState.queue_udp
with_date-IsFit true now sh h =
    all_fit-append sh.send.pending_udp (date_time (date_tag now) ∷ []) h refl
with_date-IsFit false now sh h = h

follow_estop-IsFit : (stopped : Bool) (sh : DsState) → IsFit sh → IsFit (follow_estop stopped sh)
unfolding SendState.estop
follow_estop-IsFit true sh h = elim (Bool-cases sh.send.estopped) [
  | inl e ↦ rw e h
  | inr e ↦ rw e h
]
follow_estop-IsFit false sh h = h

pub receive-IsFit :
    (g : Bitflags) (listening : Bool) (e : Event) (task : Receiver) (sh : DsState)
    → IsFit sh
    → IsFit (Receiver.receive g listening e task sh).shared
unfolding Receiver.receive SendState.estop SendState.set_ds_mode
receive-IsFit g listening (packet now p) task sh h =
    follow_estop-IsFit (emergency_stopped g p.status) (with_date p.need_date now sh)
      (with_date-IsFit p.need_date now sh h)
receive-IsFit g listening undecoded task sh h = h
receive-IsFit g listening stream_end task sh h = h
receive-IsFit g listening decoder_panics task sh h = h
receive-IsFit g listening silence task sh h = ground arith
receive-IsFit g listening (signal disconnect) task sh h = h
receive-IsFit g listening (signal (new_target ip)) task sh h = h
receive-IsFit g listening (signal (new_mode m)) task sh h = ground arith
receive-IsFit g listening signals_end task sh h = h

pub take_part-IsFit :
    (p : Part) (task : Receiver) (sh : DsState) → IsFit sh → IsFit (take_part p task sh).1
unfolding take_part
take_part-IsFit (dates need now) task sh h = with_date-IsFit need now sh h
take_part-IsFit links task sh h = h
take_part-IsFit (stops stopped) task sh h = follow_estop-IsFit stopped sh h
take_part-IsFit (shows trace battery) task sh h = h

-- A call that queues a tag queues one that fits.
abbrev pub QueuesFit : Call → Type 0
QueuesFit (call_queue_udp tag) = all_fit (tag ∷ []) ≡ true
QueuesFit _ = Unit {0}

result-IsFit :
    (c : Call) (ds : DriverStation) → QueuesFit c → IsFit ds.state → IsFit (result c ds).state
unfolding result SendState.queue_udp SendState.set_joystick_supplier SendState.set_alliance
    SendState.set_mode SendState.enable SendState.request SendState.estop
result-IsFit (call_queue_udp tag) ds fits h =
    all_fit-append ds.state.send.pending_udp (tag ∷ []) h fits
result-IsFit _ ds fits h = h

pub perform-IsFit :
    (listening : Bool) (c : Call) (ds ds' : DriverStation)
    → perform listening c ds ≡ ok ds'
    → QueuesFit c
    → IsFit ds.state
    → IsFit ds'.state
perform-IsFit listening c ds ds' e fits h =
    subst (λ (d : DriverStation). IsFit d.state) (perform-result listening c ds ds' e)
      (result-IsFit c ds fits h)
