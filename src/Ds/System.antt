-- ===== src/Ds/System.antt =====
-- The whole driver station of src/ds.rs and src/ds/conn.rs: the interface, the tasks `udp_conn` with
-- its sending task, `sim_conn` and `tcp_conn`, the state that they share and the channels between them.
pub mod Calls
pub mod Channels
pub mod Choices
pub mod Targets
pub mod Settle
pub mod Drop
pub mod Disabled
pub mod Fit
pub mod Ticks
pub mod Tags
use ds_rs.Prelude.{ℕ, ◌<◌, ◌≡◌, Bool, true, false, List, [], ◌∷◌, ◌++◌, some, ok, panicked}
use ds_rs.Crates.{BytesCrate, Bitflags, Float32}
use ds_rs.Proto.Control.{Alliance}
use ds_rs.Ds.Mode.{DsMode, normal}
use ds_rs.Ds.Backoff.{Attempt}
use ds_rs.Ds.SendState.{SendState, control}
use ds_rs.Proto.Outbound.{UdpControlPacket}
use ds_rs.Ds.State
use ds_rs.Ds.State.{DsState}
use ds_rs.Ds.Signal.{Address, Signal}
use ds_rs.Ds.Conn.Receiver
use ds_rs.Ds.Conn.Receiver.{
  Receiver, Event, packet, undecoded, stream_end, decoder_panics, silence, signal, signals_end,
  Effect, spawn_tcp, tell_tcp, forward, Flow, continue, return, fail, panic, Round, receive,
}
use ds_rs.Ds.Conn.Receiver.Parts.{Part, take_part}
use ds_rs.Ds.Conn.Sender
use ds_rs.Ds.Conn.Sender.{Sender, SendError, Tick, tick, on_signal}
use ds_rs.Ds.Conn.Tcp
use ds_rs.Ds.Conn.Simulator.{Heard, watch}
use ds_rs.Ds.DriverStation.{DriverStation, drop}
use ds_rs.Ds.DriverStation.Requests.{Call, perform}

-- `running` says whether `udp_conn` has not ended yet, and `alive` whether the sending task has not; `signals` is the channel to it, and
-- `forwards` the one from it to the sending task, each with what has not been received yet.
pub record System : Type 0 where
  pub receiver : Receiver
  pub running : Bool
  pub alive : Bool
  pub sender : Sender
  pub opmode : DsMode
  pub shared : DsState
  pub signals : List Signal
  pub forwards : List Signal
  pub team_number : ℕ

-- What `DriverStation::new` sets up and spawns, before it awaits `udp_conn`.
unfoldable pub new : Address → Alliance → ℕ → System
unfolding State.new
new ip alliance team_number = record {
  receiver = Receiver.start ip;
  running = true;
  alive = true;
  sender = Sender.start ip;
  opmode = normal;
  shared = State.new alliance;
  signals = [];
  forwards = [];
  team_number = team_number;
}

-- The handle that the interface has of the system.
abbrev pub handle : System → DriverStation
handle sys = record { thread_tx = sys.signals; team_number = sys.team_number; state = sys.shared }

abbrev pub with_handle : DriverStation → System → System
with_handle ds sys = record sys {
  signals = ds.thread_tx;
  team_number = ds.team_number;
  shared = ds.state;
}

abbrev pub forwarded : List Effect → List Signal
forwarded [] = []
forwarded (forward s ∷ effects) = s ∷ forwarded effects
forwarded (spawn_tcp k ip ∷ effects) = forwarded effects
forwarded (tell_tcp k s ∷ effects) = forwarded effects

abbrev pub keeps_running : Flow → Bool
keeps_running continue = true
keeps_running return = false
keeps_running fail = false
keeps_running panic = false

-- The system after a round of `udp_conn`, which leaves `rest` on its channel.
abbrev pub after_round : List Signal → Round → System → System
after_round rest r sys = record sys {
  receiver = r.task;
  running = keeps_running r.flow;
  shared = r.shared;
  signals = rest;
  forwards = sys.forwards ++ forwarded r.effects;
}

-- The system after one part of the round on a packet, between whose parts the other tasks may go on.
abbrev pub after_part : Part → System → System
after_part p sys = record sys {
  receiver = (take_part p sys.receiver sys.shared).0;
  shared = (take_part p sys.receiver sys.shared).1;
}

-- What `udp_conn` receives from its socket, and not from the channel.
abbrev pub IsTraffic : Event → Type 0
IsTraffic (packet now p) = Unit {0}
IsTraffic undecoded = Unit {0}
IsTraffic stream_end = Unit {0}
IsTraffic decoder_panics = Unit {0}
IsTraffic silence = Unit {0}
IsTraffic (signal s) = ⊥
IsTraffic signals_end = ⊥

module _ (b : BytesCrate) (g : Bitflags) (f : Float32) where
  -- One step: a tick of the sending task that returns, or one that panics when the packet has been
  -- made, after which that task is gone; a signal that it takes, where every bind and connect
  -- succeeds; traffic or a signal that `udp_conn` takes, or one part of its round on a packet; a round
  -- of the simulator task; the start of a TCP task that has been spawned, or an event of one; a call
  -- of the interface, or its end. Calls may come at any time, though `DriverStation::new` gives its
  -- caller the handle late.
  pub data Step (sys : System) : System → Type 0 where
    tick_step :
        (now : ℕ) (sent : Attempt (Unit {0}) SendError) (t : Tick)
        → sys.alive ≡ true
        → tick b g f now sent sys.sender sys.shared ≡ ok t
        → Step sys (record sys { sender = t.task; shared = t.shared })
    panic_step :
        (now : ℕ) (sent : Attempt (Unit {0}) SendError) (s : SendState) (packet : UdpControlPacket)
        → sys.alive ≡ true
        → control g f now sys.shared.send ≡ ok (s, packet)
        → tick b g f now sent sys.sender sys.shared ≡ panicked
        → Step sys (record sys { alive = false; shared = record sys.shared { send = s } })
    forward_step :
        (s : Signal) (rest : List Signal) (task : Sender) (sh : DsState)
        → sys.alive ≡ true
        → sys.forwards ≡ s ∷ rest
        → on_signal true (some s) sys.sender sys.shared ≡ ok (task, sh)
        → Step sys (record sys { sender = task; shared = sh; forwards = rest })
    traffic_step :
        (e : Event)
        → IsTraffic e
        → sys.running ≡ true
        → Step sys (after_round sys.signals (receive g sys.alive e sys.receiver sys.shared) sys)
    part_step : (p : Part) → sys.running ≡ true → Step sys (after_part p sys)
    signal_step :
        (s : Signal) (rest : List Signal)
        → sys.running ≡ true
        → sys.signals ≡ s ∷ rest
        → Step sys (after_round rest (receive g sys.alive (signal s) sys.receiver sys.shared) sys)
    heard_step :
        (h : Heard) (m : DsMode) (sent : List Signal)
        → watch sys.running h sys.opmode ≡ ok (m, sent)
        → Step sys (record sys { opmode = m; signals = sys.signals ++ sent })
    begin_step :
        (k : ℕ)
        → k < sys.receiver.spawned
        → Step sys (record sys { shared = record sys.shared { tcp = Tcp.begin k sys.shared.tcp } })
    tcp_step :
        (e : Tcp.Event)
        → Step sys (record sys {
          shared = record sys.shared { tcp = (Tcp.on_event e sys.shared.tcp).tcp };
        })
    call_step :
        (c : Call) (ds : DriverStation)
        → perform sys.running c (handle sys) ≡ ok ds
        → Step sys (with_handle ds sys)
    drop_step : Step sys (record sys { signals = drop sys.running (handle sys) })

  pub data Reach (sys : System) : System → Type 0 where
    here : Reach sys sys
    next : {mid end : System} → Reach sys mid → Step mid end → Reach sys end
