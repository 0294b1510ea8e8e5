-- ===== src/Ds/DriverStation/Requests.antt =====
-- The methods of `DriverStation` in src/ds.rs that change something, as values: one call each.
use ds_rs.Prelude.{ℕ, ◌≡◌, Bool, true, false, [], ◌∷◌, ◌++◌, ok, Outcome, if◌then◌else◌}
use ds_rs.Util.{ip_from_team_number}
use ds_rs.Ds.Signal.{new_target}
use ds_rs.Proto.Tags.{UdpTag}
use ds_rs.Proto.Control.{Alliance}
use ds_rs.Ds.Mode.{Mode}
use ds_rs.Ds.SendState.{JoystickSupplier}
use ds_rs.Ds.DriverStation.{
  DriverStation, set_joystick_supplier, set_tcp_consumer, set_alliance, set_mode, set_team_number,
  usb_address, set_use_usb, enable, restart_code, restart_roborio, queue_udp, estop, disable,
}

pub data Call : Type 0 where
  call_set_joystick_supplier : JoystickSupplier → Call
  call_set_tcp_consumer : ℕ → Call
  call_set_alliance : Alliance → Call
  call_set_mode : Mode → Call
  call_set_team_number : ℕ → Call
  call_set_use_usb : Bool → Call
  call_enable : Call
  call_restart_code : Call
  call_restart_roborio : Call
  call_queue_udp : UdpTag → Call
  call_estop : Call
  call_disable : Call

-- A call, where `listening` says whether `udp_conn` still runs.
unfoldable pub perform : Bool → Call → DriverStation → Outcome DriverStation
unfolding set_joystick_supplier set_tcp_consumer set_alliance set_mode set_team_number set_use_usb
    enable restart_code restart_roborio queue_udp estop disable
perform listening (call_set_joystick_supplier supplier) ds = ok (set_joystick_supplier supplier ds)
perform listening (call_set_tcp_consumer consumer) ds = ok (set_tcp_consumer consumer ds)
perform listening (call_set_alliance alliance) ds = ok (set_alliance alliance ds)
perform listening (call_set_mode mode) ds = ok (set_mode mode ds)
perform listening (call_set_team_number team_number) ds = set_team_number listening team_number ds
perform listening (call_set_use_usb use_usb) ds = set_use_usb listening use_usb ds
perform listening call_enable ds = ok (enable ds)
perform listening call_restart_code ds = ok (restart_code ds)
perform listening call_restart_roborio ds = ok (restart_roborio ds)
perform listening (call_queue_udp udp_tag) ds = ok (queue_udp udp_tag ds)
perform listening call_estop ds = ok (estop ds)
perform listening call_disable ds = ok (disable ds)

-- The interface after a call that returned.
unfoldable pub result : Call → DriverStation → DriverStation
unfolding set_joystick_supplier set_tcp_consumer set_alliance set_mode enable restart_code
    restart_roborio queue_udp estop disable
result (call_set_joystick_supplier supplier) ds = set_joystick_supplier supplier ds
result (call_set_tcp_consumer consumer) ds = set_tcp_consumer consumer ds
result (call_set_alliance alliance) ds = set_alliance alliance ds
result (call_set_mode mode) ds = set_mode mode ds
result (call_set_team_number n) ds = record ds {
  team_number = n;
  thread_tx = ds.thread_tx ++ new_target (ip_from_team_number n) ∷ [];
}
result (call_set_use_usb use_usb) ds = record ds {
  thread_tx =
      ds.thread_tx
      ++ new_target (if use_usb then usb_address else ip_from_team_number ds.team_number) ∷ [];
}
result call_enable ds = enable ds
result call_restart_code ds = restart_code ds
result call_restart_roborio ds = restart_roborio ds
result (call_queue_udp udp_tag) ds = queue_udp udp_tag ds
result call_estop ds = estop ds
result call_disable ds = disable ds

pub perform-result :
    (listening : Bool) (c : Call) (ds ds' : DriverStation)
    → perform listening c ds ≡ ok ds'
    → result c ds ≡ ds'
unfolding perform result
perform-result true (call_set_team_number n) ds ds' e = cc e
perform-result false (call_set_team_number n) ds ds' e = absurd (cc e)
perform-result true (call_set_use_usb true) ds ds' e = cc e
perform-result true (call_set_use_usb false) ds ds' e = cc e
perform-result false (call_set_use_usb true) ds ds' e = absurd (cc e)
perform-result false (call_set_use_usb false) ds ds' e = absurd (cc e)
perform-result listening _ ds ds' e = cc e
