-- ===== src/Ds/System/Tags/Kept.antt =====
-- What the steps of the interface and of the other tasks of src/ds/conn.rs leave of the TCP task that is
-- in use and of its channel.
use ds_rs.Prelude.{
  ℕ, suc, ◌≤◌, ◌≡◌, refl, sym, ap, ◌∙◌, subst, inl, inr, Bool, true, false, Bool-cases, Option,
  none, some, ok, arith,
}
use ds_rs.Crates.{BytesCrate, Bitflags, Float32}
use ds_rs.Proto.Inbound.{emergency_stopped}
use ds_rs.Ds.Mode.{normal, simulation, same_mode}
use ds_rs.Ds.State.{DsState, TcpState, set_tcp_consumer}
use ds_rs.Ds.SendState
use ds_rs.Ds.Signal.{Signal, disconnect, new_target, new_mode}
use ds_rs.Ds.Conn.Receiver.{
  Receiver, Event, UtcNow, packet, undecoded, stream_end, decoder_panics, silence, signal,
  signals_end, receive, with_date, follow_estop, drop_tcp,
}
use ds_rs.Ds.Conn.Sender.{Sender, on_signal}
use ds_rs.Ds.Conn.Sender.Kept.{tick-KeepsTick}
use ds_rs.Ds.DriverStation.{DriverStation}
use ds_rs.Ds.DriverStation.Requests.{Call, call_set_tcp_consumer, perform, result, perform-result}
use ds_rs.Ds.Conn.Receiver.Parts.{Part, dates, links, stops, shows, take_part}
use ds_rs.Ds.System.{
  System, Step, tick_step, panic_step, forward_step, traffic_step, part_step, signal_step,
  heard_step, begin_step, tcp_step, call_step, drop_step, handle,
}
use ds_rs.Ds.System.Tags.{IsOutside}

-- No task number is given twice; a TCP task that is in use after a round, and not a new one, was in use
-- before it; and the channels for tags are left alone.
abbrev KeepsUse : Receiver → DsState → Receiver → DsState → Type 0
KeepsUse task sh task' sh' =
    (task.spawned ≤ task'.spawned)
    × (task.spawned ≡ task'.spawned → task'.tcp_connected ≡ true → task.tcp_connected ≡ true)
    × (sh'.tcp.pending_tcp ≡ sh.tcp.pending_tcp)

with_date-tcp : (need : Bool) (now : UtcNow) (sh : DsState) → (with_date need now sh).tcp ≡ sh.tcp
with_date-tcp true now sh = refl
with_date-tcp false now sh = refl

follow_estop-tcp : (stopped : Bool) (sh : DsState) → (follow_estop stopped sh).tcp ≡ sh.tcp
follow_estop-tcp true sh = elim (Bool-cases sh.send.estopped) [
  | inl e ↦ rw e refl
  | inr e ↦ rw e refl
]
follow_estop-tcp false sh = refl

drop-KeepsUse :
    (tx : Option ℕ) (task : Receiver) (sh sh' : DsState)
    → sh'.tcp ≡ sh.tcp
    → KeepsUse task sh (drop_tcp tx task).0 sh'
drop-KeepsUse none task sh sh' e =
    (omega arith, λ same c. c, ap (λ (tcp : TcpState). tcp.pending_tcp) e)
drop-KeepsUse (some k) task sh sh' e =
    (omega arith, λ same c. cc c, ap (λ (tcp : TcpState). tcp.pending_tcp) e)

receive-KeepsUse :
    (g : Bitflags) (listening : Bool) (e : Event) (task : Receiver) (sh : DsState)
    → let r = receive g listening e task sh in KeepsUse task sh r.task r.shared
unfolding receive
receive-KeepsUse g listening (packet now p) task sh =
    let kept =
      ap (λ (tcp : TcpState). tcp.pending_tcp)
        (follow_estop-tcp (emergency_stopped g p.status) (with_date p.need_date now sh)
          ∙ with_date-tcp p.need_date now sh) in
    elim (Bool-cases task.tcp_connected) [
      | inl e ↦ rw e (omega arith, λ same c. refl, kept)
      | inr e ↦ rw e (omega arith, λ same c. absurd (omega (arith, same)), kept)
    ]
receive-KeepsUse g listening undecoded task sh = (omega arith, λ same c. c, refl)
receive-KeepsUse g listening stream_end task sh = (omega arith, λ same c. c, refl)
receive-KeepsUse g listening decoder_panics task sh = (omega arith, λ same c. c, refl)
receive-KeepsUse g listening silence task sh = elim (Bool-cases task.connected) [
  | inl e ↦ rw e (omega arith, λ same c. c, refl)
  | inr e ↦ rw e (omega arith, λ same c. c, refl)
]
receive-KeepsUse g listening (signal disconnect) task sh = (omega arith, λ same c. c, refl)
receive-KeepsUse g listening (signal (new_target target)) task sh =
    drop-KeepsUse task.tcp_tx task sh sh refl
receive-KeepsUse g listening (signal (new_mode mode)) task sh =
    elim (Bool-cases (same_mode mode sh.send.dsmode)) [
      | inl e ↦ rw e (omega arith, λ same c. c, refl)
      | inr e ↦ rw e (
          drop-KeepsUse task.tcp_tx task sh
            (record sh { send = SendState.set_ds_mode mode sh.send }) refl)
    ]
receive-KeepsUse g listening signals_end task sh = (omega arith, λ same c. c, refl)

take_part-KeepsUse :
    (p : Part) (task : Receiver) (sh : DsState)
    → let (task', sh') = take_part p task sh in KeepsUse task sh task' sh'
unfolding take_part
take_part-KeepsUse (dates need now) task sh =
    (omega arith, λ same c. c, ap (λ (tcp : TcpState). tcp.pending_tcp) (with_date-tcp need now sh))
take_part-KeepsUse links task sh = elim (Bool-cases task.tcp_connected) [
  | inl e ↦ rw e (omega arith, λ same c. refl, refl)
  | inr e ↦ rw e (omega arith, λ same c. absurd (omega (arith, same)), refl)
]
take_part-KeepsUse (stops stopped) task sh = (
  omega arith,
  λ same c. c,
  ap (λ (tcp : TcpState). tcp.pending_tcp) (follow_estop-tcp stopped sh),
)
take_part-KeepsUse (shows trace battery) task sh = (omega arith, λ same c. c, refl)

on_signal-tcp :
    (s : Signal) (task task' : Sender) (sh sh' : DsState)
    → on_signal true (some s) task sh ≡ ok (task', sh')
    → sh'.tcp ≡ sh.tcp
unfolding on_signal
on_signal-tcp (new_target ip) task task' sh sh' e = cc e
on_signal-tcp (new_mode simulation) task task' sh sh' e = cc e
on_signal-tcp (new_mode normal) task task' sh sh' e = cc e
on_signal-tcp disconnect task task' sh sh' e = cc e

result-pending_tcp :
    (c : Call) (ds : DriverStation) → (result c ds).state.tcp.pending_tcp ≡ ds.state.tcp.pending_tcp
unfolding result set_tcp_consumer
result-pending_tcp (call_set_tcp_consumer consumer) ds = refl
result-pending_tcp _ ds = refl

perform-pending_tcp :
    (listening : Bool) (c : Call) (ds ds' : DriverStation)
    → perform listening c ds ≡ ok ds'
    → ds'.state.tcp.pending_tcp ≡ ds.state.tcp.pending_tcp
perform-pending_tcp listening c ds ds' e =
    subst (λ (d : DriverStation). d.state.tcp.pending_tcp ≡ ds.state.tcp.pending_tcp)
      (perform-result listening c ds ds' e) (result-pending_tcp c ds)

-- `udp_conn` runs, and the TCP task that was spawned last, of the number `k`, is in use.
pub record IsInUse (k : ℕ) (sys : System) : Type 0 where
  pub latest : suc k ≡ sys.receiver.spawned
  pub runs : sys.running ≡ true
  pub connected : sys.receiver.tcp_connected ≡ true

-- What a step leaves.
abbrev pub KeepsLink : ℕ → System → System → Type 0
KeepsLink k sys sys' =
    (sys.receiver.spawned ≤ sys'.receiver.spawned)
    × (suc k ≡ sys.receiver.spawned → IsInUse k sys' → IsInUse k sys)
    × (sys'.shared.tcp.pending_tcp ≡ sys.shared.tcp.pending_tcp)

round-KeepsLink :
    (k : ℕ) (sys sys' : System)
    → sys.running ≡ true
    → KeepsUse sys.receiver sys.shared sys'.receiver sys'.shared
    → KeepsLink k sys sys'
round-KeepsLink k sys sys' runs (more, same, kept) = (
  more,
  λ latest in_use. record {
    latest = latest;
    runs = runs;
    connected = same (sym latest ∙ in_use.latest) in_use.connected;
  },
  kept,
)

-- A step that leaves `udp_conn` alone.
outside-KeepsLink :
    (k : ℕ) (sys sys' : System)
    → sys'.receiver ≡ sys.receiver
    → sys'.running ≡ sys.running
    → sys'.shared.tcp.pending_tcp ≡ sys.shared.tcp.pending_tcp
    → KeepsLink k sys sys'
outside-KeepsLink k sys sys' receiver running kept =
    let spawned = ap (λ (r : Receiver). r.spawned) receiver in
    let connected = ap (λ (r : Receiver). r.tcp_connected) receiver in
    (
      omega (arith, spawned),
      λ latest in_use. record {
        latest = latest;
        runs = sym running ∙ in_use.runs;
        connected = sym connected ∙ in_use.connected;
      },
      kept,
    )

module _ (b : BytesCrate) (g : Bitflags) (f : Float32) where
  pub Step-KeepsLink :
      (k : ℕ) {sys sys' : System} (move : Step b g f sys sys')
      → IsOutside b g f move
      → KeepsLink k sys sys'
  Step-KeepsLink k {sys} {sys'} (tick_step now sent t lives e) outside =
      outside-KeepsLink k sys sys' refl refl (
        ap (λ (tcp : TcpState). tcp.pending_tcp)
          (tick-KeepsTick b g f now sent sys.sender sys.shared t e).2)
  Step-KeepsLink k {sys} {sys'} (panic_step now sent s p lives made e) outside =
      outside-KeepsLink k sys sys' refl refl refl
  Step-KeepsLink k {sys} {sys'} (forward_step s rest task sh lives taken e) outside =
      outside-KeepsLink k sys sys' refl refl
        (ap (λ (tcp : TcpState). tcp.pending_tcp) (on_signal-tcp s sys.sender task sys.shared sh e))
  Step-KeepsLink k {sys} {sys'} (traffic_step e traffic runs) outside =
      round-KeepsLink k sys sys' runs (receive-KeepsUse g sys.alive e sys.receiver sys.shared)
  Step-KeepsLink k {sys} {sys'} (part_step p runs) outside =
      round-KeepsLink k sys sys' runs (take_part-KeepsUse p sys.receiver sys.shared)
  Step-KeepsLink k {sys} {sys'} (signal_step s rest runs taken) outside =
      round-KeepsLink k sys sys' runs
        (receive-KeepsUse g sys.alive (signal s) sys.receiver sys.shared)
  Step-KeepsLink k {sys} {sys'} (heard_step h m sent e) outside =
      outside-KeepsLink k sys sys' refl refl refl
  Step-KeepsLink k (begin_step j h) outside = absurd outside
  Step-KeepsLink k (tcp_step e) outside = absurd outside
  Step-KeepsLink k {sys} {sys'} (call_step c ds e) outside =
      outside-KeepsLink k sys sys' refl refl (perform-pending_tcp sys.running c (handle sys) ds e)
  Step-KeepsLink k {sys} {sys'} drop_step outside = outside-KeepsLink k sys sys' refl refl refl
