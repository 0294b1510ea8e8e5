-- ===== src/Ds/Conn/Receiver/Parts.antt =====
-- The round of `udp_conn` in src/ds/conn.rs on a packet, in the parts between which it holds no lock.
use ds_rs.Prelude.{ℕ, ◌≡◌, refl, Bool, true, [], ◌∷◌, List}
use ds_rs.Crates.{Bitflags}
use ds_rs.Proto.Inbound.{UdpResponsePacket, emergency_stopped}
use ds_rs.Ds.State.{DsState, set_battery_voltage, set_trace}
use ds_rs.Ds.Conn.Receiver.{Receiver, UtcNow, packet, connect_tcp, with_date, follow_estop, receive}

-- The queueing of a date, the spawning of a TCP task, the emergency stop, and the trace and the voltage.
pub data Part : Type 0 where
  dates : Bool → UtcNow → Part
  links : Part
  stops : Bool → Part
  shows : ℕ → ℕ → Part

unfoldable pub take_part : Part → Receiver → DsState → Receiver × DsState
take_part (dates need now) task sh = (record task { connected = true }, with_date need now sh)
take_part links task sh = ((connect_tcp task sh).0, sh)
take_part (stops stopped) task sh = (task, follow_estop stopped sh)
take_part (shows trace battery) task sh =
    (task, record sh { recv = set_battery_voltage battery (set_trace trace sh.recv) })

unfoldable pub take_parts : List Part → Receiver → DsState → Receiver × DsState
unfolding take_part
take_parts [] task sh = (task, sh)
take_parts (part ∷ parts) task sh =
    let (task', sh') = take_part part task sh in take_parts parts task' sh'

abbrev pub parts_of : Bitflags → UtcNow → UdpResponsePacket → List Part
parts_of g now p =
    dates p.need_date now
    ∷ links
    ∷ stops (emergency_stopped g p.status)
    ∷ shows p.trace p.battery
    ∷ []

-- The parts of a packet, one after the other, are the round on it.
receive-take_parts :
    (g : Bitflags) (listening : Bool) (now : UtcNow) (p : UdpResponsePacket) (task : Receiver)
    (sh : DsState)
    → let r = receive g listening (packet now p) task sh in
      take_parts (parts_of g now p) task sh ≡ (r.task, r.shared)
unfolding take_parts receive
receive-take_parts g listening now p task sh = refl
