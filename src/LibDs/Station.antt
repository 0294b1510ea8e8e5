-- ===== src/LibDs/Station.antt =====
-- libDS/src/cds.rs: the functions of the C interface over a driver station. A text is none for NULL,
-- or the bytes before its first zero; an out parameter is whether it is NULL, and what is written to
-- it a part of the result. A call of a method of the driver station is its run to the end, which for a
-- constructor is the end of the task that it awaits, and a team number one of 16 bits, as src/ds.rs
-- has it: libDS was written for methods that were not `async` and took 32 bits. What the tasks change
-- between two calls is left out.
pub mod Frame
pub mod Calls
pub mod Safe
pub mod Programs
pub mod Values
pub mod Owners
use ds_rs.Prelude.{
  ℕ, Bool, true, false, ◌||◌, Option, none, some, List, [], ◌∷◌, Outcome, ok, err, panicked, ◌==◌,
  if◌then◌else◌,
}
use ds_rs.Crates.{Bitflags, zero_f32}
use ds_rs.Proto.Control
use ds_rs.Proto.Tcp.{TcpTag, TcpPacket, stdout, dummy}
use ds_rs.Proto.Tcp.Utf8.{is_utf8}
use ds_rs.Ds.Signal.{Signal}
use ds_rs.Ds.DriverStation
use ds_rs.Ds.DriverStation.{DriverStation}
use ds_rs.Ds.DriverStation.Start
use ds_rs.Ds.Conn.Receiver.{Event}
use ds_rs.LibDs.Modes.{Mode, DsMode, to_ds, from_ds, ds_mode_from_ds}
use ds_rs.LibDs.Memory.{
  Action, ◌>>=◌, pure, lift, await, alliance_cell, station_cell, into_raw, alliance_from_raw,
  station_at, assign,
}

abbrev pub Text : Type 0
Text = Option (List ℕ)

abbrev pub is_null : Text → Bool
is_null none = true
is_null (some text) = false

-- `CStr::from_ptr(…).to_str().unwrap()`
abbrev pub to_str : Text → Outcome (List ℕ)
to_str none = panicked
to_str (some text) = if is_utf8 text then ok text else panicked

-- A method that changes the station behind the pointer.
abbrev pub change : ℕ → (DriverStation → Outcome DriverStation) → Action (Unit {0})
change ds method = do d ← station_at ds; d' ← lift (method d); assign ds (some (station_cell d'))

-- `if ds.is_null() { return; }` in front of it.
abbrev pub change_if : ℕ → (DriverStation → Outcome DriverStation) → Action (Unit {0})
change_if ds method = if ds == 0 then pure tt else change ds method

-- What a getter answers, with the value for NULL.
abbrev pub get_or {ℓ} : {A : Type ℓ} → A → ℕ → (DriverStation → A) → Action A
get_or null ds getter = if ds == 0 then pure null else (do d ← station_at ds; pure (getter d))

unfoldable pub alliance_new_red : ℕ → Action ℕ
alliance_new_red position = do a ← lift (Control.new_red position); into_raw (alliance_cell a)

unfoldable pub alliance_new_blue : ℕ → Action ℕ
alliance_new_blue position = do a ← lift (Control.new_blue position); into_raw (alliance_cell a)

-- What the task that a constructor awaits goes through: whether it gets its socket, and then the
-- events of its loop, each with whether the sending task listens.
pub record Course : Type 0 where
  pub flags : Bitflags
  pub binds : Bool
  pub events : List (Bool × Event)

unfoldable pub new_team : Course → ℕ → ℕ → Action ℕ
new_team c team_number alliance = if alliance == 0 then pure 0 else (do
  a ← alliance_from_raw alliance
  d ← await (Start.new_team c.flags c.binds c.events team_number a)
  into_raw (station_cell d))

unfoldable pub new_ip : Course → Text → ℕ → ℕ → Action ℕ
new_ip c ip alliance team_number = if is_null ip || (alliance == 0) then pure 0 else (do
  a ← alliance_from_raw alliance
  text ← lift (to_str ip)
  d ← await (Start.new c.flags c.binds c.events text a team_number)
  into_raw (station_cell d))

-- `DS_DriverStation_destroy`, with the signals that are left on the channel.
unfoldable pub destroy : Bool → ℕ → Action (List Signal)
destroy listening ds =
    if ds == 0
    then pure []
    else (do d ← station_at ds; _ ← assign ds none; pure (DriverStation.drop listening d))

unfoldable pub set_alliance : ℕ → ℕ → Action (Unit {0})
set_alliance ds alliance =
    if (ds == 0) || (alliance == 0)
    then pure tt
    else (do a ← alliance_from_raw alliance; change ds (λ d. ok (DriverStation.set_alliance a d)))

unfoldable pub set_team_number : Bool → ℕ → ℕ → Action (Unit {0})
set_team_number listening ds n = change_if ds (DriverStation.set_team_number listening n)

unfoldable pub set_use_usb : Bool → ℕ → Bool → Action (Unit {0})
set_use_usb listening ds use_usb = change_if ds (DriverStation.set_use_usb listening use_usb)

unfoldable pub get_team_number : ℕ → Action ℕ
get_team_number ds = get_or 0 ds (λ d. d.team_number)

-- What the channel of the TCP task gets, and the code; -1 is 255 as eight bits.
abbrev pub code_of : Outcome (List (ℕ × TcpTag)) → Outcome (List (ℕ × TcpTag) × ℕ)
code_of (ok sent) = ok (sent, 0)
code_of (err e) = ok ([], 1)
code_of panicked = panicked

unfoldable pub set_game_specific_message : (ℕ → Bool) → ℕ → Text → Action (List (ℕ × TcpTag) × ℕ)
set_game_specific_message is_open ds text =
    if (ds == 0) || is_null text then pure ([], 255) else (do
      msg ← lift (to_str text)
      d ← station_at ds
      lift (code_of (DriverStation.set_game_specific_message is_open msg d)))

unfoldable pub get_mode : ℕ → Bool → Action (ℕ × Option Mode)
get_mode ds null =
    if (ds == 0) || null
    then pure (1, none)
    else (do d ← station_at ds; pure (0, some (from_ds (DriverStation.mode d))))

unfoldable pub set_mode : ℕ → Mode → Action (Unit {0})
set_mode ds mode = change_if ds (λ d. ok (DriverStation.set_mode (to_ds mode) d))

unfoldable pub get_ds_mode : ℕ → Bool → Action (ℕ × Option DsMode)
get_ds_mode ds null =
    if (ds == 0) || null
    then pure (1, none)
    else (do d ← station_at ds; pure (0, some (ds_mode_from_ds (DriverStation.ds_mode d))))

unfoldable pub enable : ℕ → Action (Unit {0})
enable ds = change_if ds (λ d. ok (DriverStation.enable d))

unfoldable pub disable : ℕ → Action (Unit {0})
disable ds = change_if ds (λ d. ok (DriverStation.disable d))

unfoldable pub enabled : ℕ → Action Bool
enabled ds = get_or false ds DriverStation.enabled

unfoldable pub estop : ℕ → Action (Unit {0})
estop ds = change_if ds (λ d. ok (DriverStation.estop d))

unfoldable pub estopped : ℕ → Action Bool
estopped ds = get_or false ds DriverStation.estopped

unfoldable pub restart_code : ℕ → Action (Unit {0})
restart_code ds = change_if ds (λ d. ok (DriverStation.restart_code d))

unfoldable pub restart_roborio : ℕ → Action (Unit {0})
restart_roborio ds = change_if ds (λ d. ok (DriverStation.restart_roborio d))

unfoldable pub trace : ℕ → Action ℕ
trace ds = get_or 0 ds DriverStation.trace

unfoldable pub battery_voltage : ℕ → Action ℕ
battery_voltage ds = get_or zero_f32 ds DriverStation.battery_voltage

-- A callback is known by a number, as a consumer is.
unfoldable pub set_tcp_consumer : ℕ → ℕ → Action (Unit {0})
set_tcp_consumer ds callback = change_if ds (λ d. ok (DriverStation.set_tcp_consumer callback d))

abbrev pub has_zero : List ℕ → Bool
has_zero [] = false
has_zero (c ∷ cs) = (c == 0) || has_zero cs

-- The closure that `set_tcp_consumer` registers: what it calls the callback with. `CString::new`
-- refuses a text with a zero.
unfoldable pub consume : TcpPacket → Outcome (Option (List ℕ))
consume (stdout out) = if has_zero out.text then panicked else ok (some out.text)
consume dummy = ok none
