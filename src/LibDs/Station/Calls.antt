-- ===== src/LibDs/Station/Calls.antt =====
-- What a C program may call of libDS/src/cds.rs, and that it is then safe.
use ds_rs.Prelude.{ℕ, ◌≡◌, ◌⊎◌, Bool, false, ◌==◌}
use ds_rs.LibDs.Modes.{Mode}
use ds_rs.LibDs.Memory.{Memory, Result, done, panic, waits, undefined}
use ds_rs.LibDs.Station
use ds_rs.LibDs.Station.{Text, Course}
use ds_rs.LibDs.Station.Frame.{kind}

-- One call of each function, with its arguments.
pub data Call : Type 0 where
  call_alliance_new_red : ℕ → Call
  call_alliance_new_blue : ℕ → Call
  call_new_team : Course → ℕ → ℕ → Call
  call_new_ip : Course → Text → ℕ → ℕ → Call
  call_destroy : ℕ → Call
  call_set_alliance : ℕ → ℕ → Call
  call_set_team_number : ℕ → ℕ → Call
  call_set_use_usb : ℕ → Bool → Call
  call_get_team_number : ℕ → Call
  call_set_game_specific_message : ℕ → Text → Call
  call_get_mode : ℕ → Bool → Call
  call_set_mode : ℕ → Mode → Call
  call_get_ds_mode : ℕ → Bool → Call
  call_enable : ℕ → Call
  call_disable : ℕ → Call
  call_enabled : ℕ → Call
  call_estop : ℕ → Call
  call_estopped : ℕ → Call
  call_restart_code : ℕ → Call
  call_restart_roborio : ℕ → Call
  call_trace : ℕ → Call
  call_battery_voltage : ℕ → Call
  call_set_tcp_consumer : ℕ → ℕ → Call

-- The memory after a call, without what it returned.
abbrev pub memory_of {ℓ} : {A : Type ℓ} → Result (A × Memory) → Result (Unit {0} × Memory)
memory_of (done (a, mem)) = done (tt, mem)
memory_of panic = panic
memory_of waits = waits
memory_of undefined = undefined

module _ (listening : Bool) (is_open : ℕ → Bool) where
  unfoldable pub run : Call → Memory → Result (Unit {0} × Memory)
  unfolding Station.alliance_new_red Station.alliance_new_blue Station.new_team Station.new_ip
      Station.destroy Station.set_alliance Station.set_team_number Station.set_use_usb
      Station.get_team_number Station.set_game_specific_message Station.get_mode Station.set_mode
      Station.get_ds_mode Station.enable Station.disable Station.enabled Station.estop
      Station.estopped Station.restart_code Station.restart_roborio Station.trace
      Station.battery_voltage Station.set_tcp_consumer
  run (call_alliance_new_red position) mem = memory_of (Station.alliance_new_red position mem)
  run (call_alliance_new_blue position) mem = memory_of (Station.alliance_new_blue position mem)
  run (call_new_team c n alliance) mem = memory_of (Station.new_team c n alliance mem)
  run (call_new_ip c ip alliance n) mem = memory_of (Station.new_ip c ip alliance n mem)
  run (call_destroy ds) mem = memory_of (Station.destroy listening ds mem)
  run (call_set_alliance ds alliance) mem = memory_of (Station.set_alliance ds alliance mem)
  run (call_set_team_number ds n) mem = memory_of (Station.set_team_number listening ds n mem)
  run (call_set_use_usb ds use_usb) mem = memory_of (Station.set_use_usb listening ds use_usb mem)
  run (call_get_team_number ds) mem = memory_of (Station.get_team_number ds mem)
  run (call_set_game_specific_message ds text) mem =
      memory_of (Station.set_game_specific_message is_open ds text mem)
  run (call_get_mode ds null) mem = memory_of (Station.get_mode ds null mem)
  run (call_set_mode ds mode) mem = memory_of (Station.set_mode ds mode mem)
  run (call_get_ds_mode ds null) mem = memory_of (Station.get_ds_mode ds null mem)
  run (call_enable ds) mem = memory_of (Station.enable ds mem)
  run (call_disable ds) mem = memory_of (Station.disable ds mem)
  run (call_enabled ds) mem = memory_of (Station.enabled ds mem)
  run (call_estop ds) mem = memory_of (Station.estop ds mem)
  run (call_estopped ds) mem = memory_of (Station.estopped ds mem)
  run (call_restart_code ds) mem = memory_of (Station.restart_code ds mem)
  run (call_restart_roborio ds) mem = memory_of (Station.restart_roborio ds mem)
  run (call_trace ds) mem = memory_of (Station.trace ds mem)
  run (call_battery_voltage ds) mem = memory_of (Station.battery_voltage ds mem)
  run (call_set_tcp_consumer ds callback) mem = memory_of (Station.set_tcp_consumer ds callback mem)

-- A pointer that may be handed over: NULL, or one to a thing of the kind.
abbrev pub MayUse : ℕ → ℕ → Memory → Type 0
MayUse k p mem = (p ≡ 0) ⊎ (kind (mem.cells p) ≡ k)

abbrev pub IsAllowed : Call → Memory → Type 0
IsAllowed (call_alliance_new_red position) mem = Unit {0}
IsAllowed (call_alliance_new_blue position) mem = Unit {0}
IsAllowed (call_new_team c n alliance) mem = MayUse 1 alliance mem
IsAllowed (call_new_ip c ip alliance n) mem = MayUse 1 alliance mem
IsAllowed (call_set_alliance ds alliance) mem = MayUse 2 ds mem × MayUse 1 alliance mem
IsAllowed (call_destroy ds) mem = MayUse 2 ds mem
IsAllowed (call_set_team_number ds n) mem = MayUse 2 ds mem
IsAllowed (call_set_use_usb ds use_usb) mem = MayUse 2 ds mem
IsAllowed (call_get_team_number ds) mem = MayUse 2 ds mem
IsAllowed (call_set_game_specific_message ds text) mem = MayUse 2 ds mem
IsAllowed (call_get_mode ds null) mem = MayUse 2 ds mem
IsAllowed (call_set_mode ds mode) mem = MayUse 2 ds mem
IsAllowed (call_get_ds_mode ds null) mem = MayUse 2 ds mem
IsAllowed (call_enable ds) mem = MayUse 2 ds mem
IsAllowed (call_disable ds) mem = MayUse 2 ds mem
IsAllowed (call_enabled ds) mem = MayUse 2 ds mem
IsAllowed (call_estop ds) mem = MayUse 2 ds mem
IsAllowed (call_estopped ds) mem = MayUse 2 ds mem
IsAllowed (call_restart_code ds) mem = MayUse 2 ds mem
IsAllowed (call_restart_roborio ds) mem = MayUse 2 ds mem
IsAllowed (call_trace ds) mem = MayUse 2 ds mem
IsAllowed (call_battery_voltage ds) mem = MayUse 2 ds mem
IsAllowed (call_set_tcp_consumer ds callback) mem = MayUse 2 ds mem

-- The pointers that are no longer valid after a call.
abbrev pub takes_back : Call → ℕ → Bool
takes_back (call_new_team c n alliance) q = q == alliance
takes_back (call_new_ip c ip alliance n) q = q == alliance
takes_back (call_set_alliance ds alliance) q = q == alliance
takes_back (call_destroy ds) q = q == ds
takes_back _ q = false
