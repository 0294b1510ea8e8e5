-- ===== src/Ds/Conn/Receiver/Packets.antt =====
-- What a packet of the roboRIO, and two seconds without one, do in src/ds/conn.rs.
use ds_rs.Prelude.{◌≡◌, Bool, true, false, not, ◌&&◌, ◌||◌, [], ◌∷◌, ◌++◌, if◌then◌else◌, arith}
use ds_rs.Crates.{Bitflags, zero_f32}
use ds_rs.Proto.Tags.{date_time}
use ds_rs.Proto.Inbound.{UdpResponsePacket, emergency_stopped}
use ds_rs.Ds.Mode.{normal, same_mode}
use ds_rs.Ds.SendState.{queue_udp, estop}
use ds_rs.Ds.State.{DsState, reset, set_trace, set_battery_voltage}
use ds_rs.Ds.Conn.Receiver.{
  Receiver, UtcNow, packet, silence, spawn_tcp, continue, Round, localhost, date_tag, receive,
}

module _ (g : Bitflags) (listening : Bool) (now : UtcNow) (p : UdpResponsePacket) (task : Receiver)
    (sh : DsState) where
  abbrev after : Round
  after = receive g listening (packet now p) task sh

  -- After a packet the shared state shows its trace and its voltage. The robot counts as stopped if
  -- it did or if the packet says so, and a stop that is new disables it; nothing else enables or
  -- disables it. A date is queued exactly if the packet asks for one. The TCP task counts as
  -- connected: a new one is spawned exactly if it did not, to the target or, in a simulation, to the
  -- local host; and the loop goes on.
  pub receive-packet :
      (after.shared.recv ≡ record { battery_voltage = p.battery; trace = p.trace })
      × (after.shared.send.estopped ≡ (sh.send.estopped || emergency_stopped g p.status))
      × (after.shared.send.enabled
          ≡ (sh.send.enabled && (sh.send.estopped || not (emergency_stopped g p.status))))
      × (after.shared.send.pending_udp ≡ (
          if p.need_date
          then sh.send.pending_udp ++ date_time (date_tag now) ∷ []
          else sh.send.pending_udp))
      × (after.task.tcp_connected ≡ true)
      × (after.task.connected ≡ true)
      × (after.effects ≡ (
          if task.tcp_connected
          then []
          else spawn_tcp task.spawned
              (if same_mode sh.send.dsmode normal then task.target_ip else localhost)
            ∷ []))
      × (after.flow ≡ continue)
  unfolding receive queue_udp estop set_trace set_battery_voltage
  receive-packet = ground arith

-- Two seconds without a packet reset the received state, once: while the silence lasts, and until the
-- next packet, a further one changes nothing. What is sent is not touched, and the loop goes on.
receive-silence :
    (g : Bitflags) (listening : Bool) (task : Receiver) (sh : DsState)
    → let first = receive g listening silence task sh in
      let second = receive g listening silence first.task first.shared in
      (first.task.connected ≡ false)
      × (first.shared.recv
          ≡ (if task.connected then record { battery_voltage = zero_f32; trace = 0 } else sh.recv))
      × (first.shared.send ≡ sh.send)
      × (second
          ≡ record { task = first.task; shared = first.shared; effects = []; flow = continue })
unfolding receive reset
receive-silence g listening task sh = ground arith
