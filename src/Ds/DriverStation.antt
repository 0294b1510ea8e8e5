-- ===== src/Ds/DriverStation.antt =====
-- `DriverStation` of src/ds.rs: the interface over the shared state and the channel to `udp_conn`.
pub mod Calls
pub mod Requests
pub mod Start
use ds_rs.Prelude.{
  ℕ, Bool, List, [], ◌∷◌, ◌++◌, length, Outcome, ok, err, panicked, message, ◌==◌, if◌then◌else◌,
}
use ds_rs.Util.{ip_from_team_number}
use ds_rs.Proto.Tags.{UdpTag}
use ds_rs.Proto.Control.{Alliance, request_restart_code, request_reboot_roborio}
use ds_rs.Proto.Tcp.{TcpTag, game_data}
use ds_rs.Ds.Mode.{Mode, DsMode}
use ds_rs.Ds.SendState
use ds_rs.Ds.SendState.{SendState, JoystickSupplier}
use ds_rs.Ds.State
use ds_rs.Ds.State.{DsState}
use ds_rs.Ds.Signal.{Address, Signal, disconnect, new_target}

-- The channel is the list of the signals sent on it so far.
pub record DriverStation : Type 0 where
  pub thread_tx : List Signal
  pub team_number : ℕ
  pub state : DsState

-- A method that changes the part of the state behind the first lock, or the one of TCP.
abbrev on_send : (SendState → SendState) → DriverStation → DriverStation
on_send change ds = record ds { state = record ds.state { send = change ds.state.send } }

unfoldable pub set_joystick_supplier : JoystickSupplier → DriverStation → DriverStation
set_joystick_supplier supplier = on_send (SendState.set_joystick_supplier supplier)

unfoldable pub set_tcp_consumer : ℕ → DriverStation → DriverStation
set_tcp_consumer consumer ds = record ds {
  state = record ds.state { tcp = State.set_tcp_consumer consumer ds.state.tcp };
}

unfoldable pub set_alliance : Alliance → DriverStation → DriverStation
set_alliance alliance = on_send (SendState.set_alliance alliance)

unfoldable pub set_mode : Mode → DriverStation → DriverStation
set_mode mode = on_send (SendState.set_mode mode)

unfoldable pub ds_mode : DriverStation → DsMode
ds_mode ds = SendState.Getters.ds_mode (State.Getters.send ds.state)

-- `self.thread_tx.send(…).unwrap()`, where `listening` says whether `udp_conn` still runs.
abbrev pub tell : Bool → Signal → DriverStation → Outcome DriverStation
tell listening s ds =
    if listening then ok (record ds { thread_tx = ds.thread_tx ++ s ∷ [] }) else panicked

unfoldable pub set_team_number : Bool → ℕ → DriverStation → Outcome DriverStation
set_team_number listening team_number ds =
    tell listening (new_target (ip_from_team_number team_number))
      (record ds { team_number = team_number })

-- `172.22.11.2`
abbrev pub usb_address : Address
usb_address = b'1' ∷ b'7' ∷ b'2' ∷ b'.' ∷ b'2' ∷ b'2' ∷ b'.' ∷ b'1' ∷ b'1' ∷ b'.' ∷ b'2' ∷ []

unfoldable pub set_use_usb : Bool → Bool → DriverStation → Outcome DriverStation
set_use_usb listening use_usb ds =
    if use_usb
    then tell listening (new_target usb_address) ds
    else tell listening (new_target (ip_from_team_number ds.team_number)) ds

-- What `let _ = …` keeps of the result of `queue_tcp`: the delivery, if there was one.
abbrev delivered : Outcome (ℕ × TcpTag) → List (ℕ × TcpTag)
delivered (ok d) = d ∷ []
delivered (err e) = []
delivered panicked = []

unfoldable pub queue_tcp : (ℕ → Bool) → TcpTag → DriverStation → List (ℕ × TcpTag)
queue_tcp is_open tcp_tag ds = delivered (State.queue_tcp is_open tcp_tag ds.state.tcp)

-- The length of a `&str` is the number of its bytes.
unfoldable pub set_game_specific_message :
    (ℕ → Bool) → List ℕ → DriverStation → Outcome (List (ℕ × TcpTag))
set_game_specific_message is_open text ds =
    if length text == 3
    then ok (delivered (State.queue_tcp is_open (game_data (record { gsm = text })) ds.state.tcp))
    else err message

unfoldable pub mode : DriverStation → Mode
mode ds = SendState.Getters.mode (State.Getters.send ds.state)

unfoldable pub enable : DriverStation → DriverStation
enable = on_send SendState.enable

unfoldable pub restart_code : DriverStation → DriverStation
restart_code = on_send (SendState.request request_restart_code)

unfoldable pub restart_roborio : DriverStation → DriverStation
restart_roborio = on_send (SendState.request request_reboot_roborio)

unfoldable pub enabled : DriverStation → Bool
enabled ds = SendState.Getters.enabled (State.Getters.send ds.state)

unfoldable pub trace : DriverStation → ℕ
trace ds = State.Getters.trace (State.Getters.recv ds.state)

unfoldable pub battery_voltage : DriverStation → ℕ
battery_voltage ds = State.Getters.battery_voltage (State.Getters.recv ds.state)

unfoldable pub queue_udp : UdpTag → DriverStation → DriverStation
queue_udp udp_tag = on_send (SendState.queue_udp udp_tag)

unfoldable pub udp_queue : DriverStation → List UdpTag
udp_queue ds = SendState.Getters.pending_udp (State.Getters.send ds.state)

unfoldable pub estop : DriverStation → DriverStation
estop = on_send SendState.estop

unfoldable pub estopped : DriverStation → Bool
estopped ds = SendState.Getters.estopped (State.Getters.send ds.state)

unfoldable pub disable : DriverStation → DriverStation
disable = on_send SendState.disable

-- `Drop::drop`, which ignores a channel that is closed.
unfoldable pub drop : Bool → DriverStation → List Signal
drop listening ds = if listening then ds.thread_tx ++ disconnect ∷ [] else ds.thread_tx
