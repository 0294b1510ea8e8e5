-- ===== src/LibDs/Station/Values.antt =====
-- What the functions of libDS/src/cds.rs answer.
use ds_rs.Prelude.{
  ℕ, ◌≡◌, refl, ap, ◌∙◌, Bool, true, false, ◌||◌, none, some, List, [], ◌∷◌, ◌++◌, length, ok, ◌==◌,
  ==_iff, if◌then◌else◌, arith,
}
use ds_rs.Crates.{zero_f32}
use ds_rs.Proto.Tcp.{TcpTag, game_data}
use ds_rs.Proto.Tcp.Utf8.{is_utf8}
use ds_rs.Ds.SendState
use ds_rs.Ds.State
use ds_rs.Ds.Signal.{new_target}
use ds_rs.Util.{ip_from_team_number}
use ds_rs.Ds.DriverStation
use ds_rs.Ds.DriverStation.{DriverStation}
use ds_rs.LibDs.Modes.{Mode, c_autonomous, c_teleoperated, c_test, to_ds, from_ds}
use ds_rs.LibDs.Memory.{Memory, done, panic, ◌>>=◌, put, station_cell}
use ds_rs.LibDs.Station
use ds_rs.LibDs.Station.{
  Text, Course, change_if, get_or, new_team, new_ip, destroy, set_alliance, set_team_number,
  set_use_usb, get_team_number, set_game_specific_message, get_mode, set_mode, get_ds_mode, enable,
  disable, enabled, estop, estopped, restart_code, restart_roborio, trace, battery_voltage,
  set_tcp_consumer,
}

-- Given NULL for the driver station, or for the alliance that it is made from, every function leaves
-- the memory as it is, and returns: NULL for a driver station, 0 for a number, a trace or a voltage,
-- false for a question, the code -1 (255) for a message and 1 for a mode that is asked for.
null_lem :
    (mem : Memory) (listening : Bool) (is_open : ℕ → Bool) (n p : ℕ) (ip : Text) (flag : Bool)
    (mode : Mode) (c : Course)
    → (new_team c n 0 mem ≡ done (0, mem))
      × (new_ip c ip 0 n mem ≡ done (0, mem))
      × (new_ip c none p n mem ≡ done (0, mem))
      × (destroy listening 0 mem ≡ done ([], mem))
      × (set_alliance 0 p mem ≡ done (tt, mem))
      × (set_alliance p 0 mem ≡ done (tt, mem))
      × (set_team_number listening 0 n mem ≡ done (tt, mem))
      × (set_use_usb listening 0 flag mem ≡ done (tt, mem))
      × (get_team_number 0 mem ≡ done (0, mem))
      × (set_game_specific_message is_open 0 ip mem ≡ done (([], 255), mem))
      × (set_game_specific_message is_open p none mem ≡ done (([], 255), mem))
      × (get_mode 0 flag mem ≡ done ((1, none), mem))
      × (get_mode p true mem ≡ done ((1, none), mem))
      × (get_ds_mode 0 flag mem ≡ done ((1, none), mem))
      × (get_ds_mode p true mem ≡ done ((1, none), mem))
      × (set_mode 0 mode mem ≡ done (tt, mem))
      × (enable 0 mem ≡ done (tt, mem))
      × (disable 0 mem ≡ done (tt, mem))
      × (enabled 0 mem ≡ done (false, mem))
      × (estop 0 mem ≡ done (tt, mem))
      × (estopped 0 mem ≡ done (false, mem))
      × (restart_code 0 mem ≡ done (tt, mem))
      × (restart_roborio 0 mem ≡ done (tt, mem))
      × (trace 0 mem ≡ done (0, mem))
      × (battery_voltage 0 mem ≡ done (zero_f32, mem))
      × (set_tcp_consumer 0 p mem ≡ done (tt, mem))
unfolding new_team new_ip destroy set_alliance set_team_number set_use_usb get_team_number
    set_game_specific_message get_mode set_mode get_ds_mode enable disable enabled estop estopped
    restart_code restart_roborio trace battery_voltage set_tcp_consumer
null_lem mem listening is_open n p ip flag mode c = (
  refl,
  rw (or_true (Station.is_null ip)) refl,
  refl,
  refl,
  refl,
  rw (or_true (p == 0)) refl,
  refl,
  refl,
  refl,
  refl,
  rw (or_true (p == 0)) refl,
  refl,
  rw (or_true (p == 0)) refl,
  refl,
  rw (or_true (p == 0)) refl,
  refl,
  refl,
  refl,
  refl,
  refl,
  refl,
  refl,
  refl,
  refl,
  refl,
  refl,
)
  where
    or_true : (x : Bool) → (x || true) ≡ true
    or_true true = refl
    or_true false = refl

from_ds-to_ds : (m : Mode) → from_ds (to_ds m) ≡ m
unfolding from_ds to_ds
from_ds-to_ds c_autonomous = refl
from_ds-to_ds c_teleoperated = refl
from_ds-to_ds c_test = refl

module _ (mem : Memory) (ds : ℕ) (d : DriverStation) (live : mem.cells ds ≡ some (station_cell d))
    (given : (ds == 0) ≡ false) where
  -- The memory in which the station behind the pointer is another one.
  abbrev pub with_station : DriverStation → Memory
  with_station d' = put ds (some (station_cell d')) mem

  change_if-live :
      (method : DriverStation → DriverStation)
      → change_if ds (λ x. ok (method x)) mem ≡ done (tt, with_station (method d))
  change_if-live method = rw (given, live, ◌>>=◌) refl

  get_or-changed :
      {A : Type 0} (null : A) (getter : DriverStation → A) (d' : DriverStation)
      → get_or null ds getter (with_station d') ≡ done (getter d', with_station d')
  get_or-changed null getter d' = rw (given, (==_iff ds ds).1 refl, ◌>>=◌) refl

  -- A change, and an answer after it.
  change_if-get_or :
      {A : Type 0} (null : A) (method : DriverStation → DriverStation) (getter : DriverStation → A)
      → (do _ ← change_if ds (λ x. ok (method x)); get_or null ds getter) mem
        ≡ done (getter (method d), with_station (method d))
  change_if-get_or null method getter =
      rw (change_if-live method, ◌>>=◌) (get_or-changed null getter (method d))

  get_mode-changed :
      (d' : DriverStation)
      → get_mode ds false (with_station d')
        ≡ done ((0, some (from_ds (DriverStation.mode d'))), with_station d')
  unfolding get_mode
  get_mode-changed d' = rw (given, (==_iff ds ds).1 refl, ◌>>=◌) refl

  -- For a pointer to a driver station: the mode that is set is the mode that is read; after enable
  -- the robot counts as enabled, after disable it does not, after a stop it counts as stopped and
  -- not as enabled; and the team number that is set, while the tasks run, is the one that is read.
  -- Only the station behind the pointer has changed then, by the method of the driver station.
  pub setters_lem :
      (m : Mode) (n : ℕ)
      → ((do _ ← set_mode ds m; get_mode ds false) mem
          ≡ done ((0, some m), with_station (DriverStation.set_mode (to_ds m) d)))
        × ((do _ ← enable ds; enabled ds) mem ≡ done (true, with_station (DriverStation.enable d)))
        × ((do _ ← disable ds; enabled ds) mem
            ≡ done (false, with_station (DriverStation.disable d)))
        × ((do _ ← estop ds; enabled ds) mem ≡ done (false, with_station (DriverStation.estop d)))
        × ((do _ ← estop ds; estopped ds) mem ≡ done (true, with_station (DriverStation.estop d)))
        × ((d' : DriverStation) × (DriverStation.set_team_number true n d ≡ ok d')
            × ((do _ ← set_team_number true ds n; get_team_number ds) mem
                ≡ done (n, with_station d')))
  unfolding set_mode enable disable enabled estop estopped set_team_number get_team_number
      DriverStation.set_mode DriverStation.mode DriverStation.enable DriverStation.disable
      DriverStation.enabled DriverStation.estop DriverStation.estopped DriverStation.set_team_number
      SendState.set_mode SendState.enable SendState.disable SendState.estop
  setters_lem m n = (
    rw (change_if-live (DriverStation.set_mode (to_ds m)), ◌>>=◌)
        (get_mode-changed (DriverStation.set_mode (to_ds m) d)
          ∙ ap (λ k. done ((0, some k), with_station (DriverStation.set_mode (to_ds m) d)))
              (from_ds-to_ds m)),
    change_if-get_or false DriverStation.enable DriverStation.enabled,
    change_if-get_or false DriverStation.disable DriverStation.enabled,
    change_if-get_or false DriverStation.estop DriverStation.enabled,
    change_if-get_or false DriverStation.estop DriverStation.estopped,
    (
      _,
      refl,
      change_if-get_or 0
          (λ x. record x {
            team_number = n;
            thread_tx = x.thread_tx ++ new_target (ip_from_team_number n) ∷ [];
          })
          (λ x. x.team_number),
    ),
  )

  -- What the channel of the TCP task in use gets.
  abbrev pub deliveries : (ℕ → Bool) → List ℕ → List (ℕ × TcpTag)
  deliveries is_open text = elim d.state.tcp.pending_tcp [
    | none ↦ []
    | some tx ↦ if is_open tx then (tx, game_data (record { gsm = text })) ∷ [] else []
  ]

  -- A message for a driver station: text that is not UTF-8 panics; else the code is 0 if it is three
  -- bytes long, and 1 if it is not. It reaches the channel of the TCP task if there is an open one;
  -- if not the code is 0 all the same.
  pub message_code_lem :
      (is_open : ℕ → Bool) (text : List ℕ)
      → set_game_specific_message is_open ds (some text) mem ≡ (
          if is_utf8 text
          then (if length text == 3
              then done ((deliveries is_open text, 0), mem)
              else done (([], 1), mem))
          else panic)
  unfolding set_game_specific_message DriverStation.set_game_specific_message State.queue_tcp
  message_code_lem is_open text = rw (given, ◌>>=◌) (ground arith)
