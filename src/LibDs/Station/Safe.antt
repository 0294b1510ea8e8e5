-- ===== src/LibDs/Station/Safe.antt =====
-- That a C program which uses the pointers of libDS/src/cds.rs as it may has no undefined behaviour.
use ds_rs.Prelude.{
  ℕ, ◌≡◌, refl, sym, ◌∙◌, ap, inl, inr, Bool, true, false, Bool-cases, ◌||◌, Option, none, some,
  Outcome, ok, err, panicked, ◌==◌, ==_iff, if◌then◌else◌, arith,
}
use ds_rs.Proto.Control
use ds_rs.Ds.DriverStation
use ds_rs.Ds.DriverStation.Start
use ds_rs.Ds.DriverStation.{DriverStation}
use ds_rs.Crates.{zero_f32}
use ds_rs.LibDs.Modes.{to_ds}
use ds_rs.LibDs.Memory.{
  Memory, Result, done, panic, waits, undefined, Action, ◌>>=◌, lift, await, pure, alliance_cell,
  station_cell, put, station_at,
}
use ds_rs.LibDs.Station
use ds_rs.LibDs.Station.{Text, Course, is_null, to_str, code_of, change_if, get_or}
use ds_rs.LibDs.Station.Frame.{
  kind, IsGood, IsFine, into_raw-IsFine, pure-IsFine, station_at-IsFine, alliance_from_raw-IsFine,
  change-IsFine, change_if-IsFine, get_or-IsFine, not_null, other_cell, put-IsFine,
}
use ds_rs.LibDs.Station.Calls.{
  Call, call_alliance_new_red, call_alliance_new_blue, call_new_team, call_new_ip, call_destroy,
  call_set_alliance, call_set_team_number, call_set_use_usb, call_get_team_number,
  call_set_game_specific_message, call_get_mode, call_set_mode, call_get_ds_mode, call_enable,
  call_disable, call_enabled, call_estop, call_estopped, call_restart_code, call_restart_roborio,
  call_trace, call_battery_voltage, call_set_tcp_consumer, memory_of, run, MayUse, IsAllowed,
  takes_back,
}

memory_of-IsFine {ℓ} :
    {A : Type ℓ} (taken : ℕ → Bool) (mem : Memory) (o : Result (A × Memory))
    → IsFine taken mem o
    → IsFine taken mem (memory_of o)
memory_of-IsFine taken mem (done (a, mem')) fine = fine
memory_of-IsFine taken mem panic fine = tt
memory_of-IsFine taken mem waits fine = tt
memory_of-IsFine taken mem undefined fine = fine

itself : (p : ℕ) → (p == p) ≡ true
itself p = (==_iff p p).1 refl

-- What is made of an answer that cannot be undefined.
lift-IsFine :
    {A B : Type 0} (mem : Memory) (taken : ℕ → Bool) (o : Outcome A) (next : A → Action B)
    → ((a : A) → IsFine taken mem (next a mem))
    → IsFine taken mem ((lift o >>= next) mem)
lift-IsFine mem taken (ok a) next fine = fine a
lift-IsFine mem taken (err e) next fine = tt
lift-IsFine mem taken panicked next fine = tt

await-IsFine :
    {A B : Type 0} (mem : Memory) (taken : ℕ → Bool) (o : Outcome (Option A)) (next : A → Action B)
    → ((a : A) → IsFine taken mem (next a mem))
    → IsFine taken mem ((await o >>= next) mem)
await-IsFine mem taken (ok (some a)) next fine = fine a
await-IsFine mem taken (ok none) next fine = tt
await-IsFine mem taken (err e) next fine = tt
await-IsFine mem taken panicked next fine = tt

-- A station and an alliance are apart.
station_apart :
    (mem : Memory) (ds p : ℕ) → kind (mem.cells ds) ≡ 2 → kind (mem.cells p) ≡ 1 → (ds == p) ≡ false
station_apart mem ds p stands live = elim (Bool-cases (ds == p)) [
  | inl e ↦
      let clash : 2 ≡ 1 = sym stands ∙ ap (λ q. kind (mem.cells q)) ((==_iff ds p).0 e) ∙ live in
      absurd (omega (arith, clash))
  | inr e ↦ e
]

module _ (mem : Memory) (good : IsGood mem) where
  answer-IsFine : {A : Type 0} (taken : ℕ → Bool) (o : Outcome A) → IsFine taken mem (lift o mem)
  answer-IsFine taken (ok a) = pure-IsFine mem good taken a
  answer-IsFine taken (err e) = tt
  answer-IsFine taken panicked = tt

  -- A guard against NULL in front of a call.
  guard-IsFine :
      {A : Type 0} (taken : ℕ → Bool) (null : Bool) (a : A) (rest : Action A)
      → (null ≡ false → IsFine taken mem (rest mem))
      → IsFine taken mem ((if null then pure a else rest) mem)
  guard-IsFine taken true a rest fine = pure-IsFine mem good taken a
  guard-IsFine taken false a rest fine = fine refl

  new_team-IsFine :
      (c : Course) (n p : ℕ)
      → MayUse 1 p mem
      → IsFine (λ q. q == p) mem (Station.new_team c n p mem)
  unfolding Station.new_team
  new_team-IsFine c n p may = guard-IsFine _ (p == 0) 0 _ (λ e.
      alliance_from_raw-IsFine mem good _ p _ (not_null mem p may e) (itself p) (λ a good'.
        await-IsFine (put p none mem) (λ q. q == p) (Start.new_team c.flags c.binds c.events n a) _
          (λ d. into_raw-IsFine (put p none mem) good' _ (station_cell d))))

  new_ip-IsFine :
      (c : Course) (ip : Text) (n p : ℕ)
      → MayUse 1 p mem
      → IsFine (λ q. q == p) mem (Station.new_ip c ip p n mem)
  unfolding Station.new_ip
  new_ip-IsFine c none n p may =
      guard-IsFine {A = ℕ} (λ q. q == p) true 0 (pure 0) (λ e. absurd (cc e))
  new_ip-IsFine c (some text) n p may = guard-IsFine _ (p == 0) 0 _ (λ e.
      alliance_from_raw-IsFine mem good _ p _ (not_null mem p may e) (itself p) (λ a good'.
        lift-IsFine (put p none mem) (λ q. q == p) (to_str (some text)) _
          (λ s.
            await-IsFine (put p none mem) (λ q. q == p) (Start.new c.flags c.binds c.events s a n) _
              (λ d. into_raw-IsFine (put p none mem) good' _ (station_cell d)))))

  destroy-IsFine :
      (listening : Bool) (p : ℕ)
      → MayUse 2 p mem
      → IsFine (λ q. q == p) mem (Station.destroy listening p mem)
  unfolding Station.destroy
  destroy-IsFine listening p may = guard-IsFine _ (p == 0) _ _ (λ e.
      let live = not_null mem p may e in
      station_at-IsFine mem good _ p _ live (λ d.
        put-IsFine mem good (DriverStation.drop listening d) (λ q. q == p) p none
          (λ z. omega (arith, live, z)) (inr (itself p))))

  set_alliance-IsFine :
      (ds p : ℕ)
      → MayUse 2 ds mem
      → MayUse 1 p mem
      → IsFine (λ q. q == p) mem (Station.set_alliance ds p mem)
  unfolding Station.set_alliance
  set_alliance-IsFine ds p station may = guard-IsFine _ ((ds == 0) || (p == 0)) tt _ (λ e.
      let live = not_null mem p may (ground (arith, e)) in
      let stands = not_null mem ds station (ground (arith, e)) in
      let apart : (ds == p) ≡ false = station_apart mem ds p stands live in
      alliance_from_raw-IsFine mem good _ p _ live (itself p) (λ a good'.
        change-IsFine (put p none mem) good' (λ q. q == p) ds
          (λ d. ok (DriverStation.set_alliance a d))
          (rw (other_cell mem good p ds none apart) stands)))

  set_game_specific_message-IsFine :
      (is_open : ℕ → Bool) (ds : ℕ) (text : Text)
      → MayUse 2 ds mem
      → IsFine (λ q. false) mem (Station.set_game_specific_message is_open ds text mem)
  unfolding Station.set_game_specific_message
  set_game_specific_message-IsFine is_open ds text may =
      guard-IsFine _ ((ds == 0) || is_null text) _ _ (λ e. lift-IsFine mem _ (to_str text) _ (λ msg.
        station_at-IsFine mem good _ ds _ (not_null mem ds may (ground (arith, e))) (λ d.
          answer-IsFine (λ q. false)
            (code_of (DriverStation.set_game_specific_message is_open msg d)))))

  read-IsFine :
      {A : Type 0} (ds : ℕ) (null : Bool) (a : A) (getter : DriverStation → A)
      → MayUse 2 ds mem
      → IsFine
          (λ q. false)
          mem
          ((if (ds == 0) || null then pure a else (do d ← station_at ds; pure (getter d))) mem)
  read-IsFine ds null a getter may = guard-IsFine _ ((ds == 0) || null) a _ (λ e.
      station_at-IsFine mem good _ ds _ (not_null mem ds may (ground (arith, e)))
        (λ d. pure-IsFine mem good _ (getter d)))

  changes :
      (ds : ℕ) (method : DriverStation → Outcome DriverStation)
      → MayUse 2 ds mem
      → IsFine (λ q. false) mem (memory_of (change_if ds method mem))
  changes ds method h =
      memory_of-IsFine _ mem _ (change_if-IsFine mem good (λ q. false) ds method h)

  answers :
      {A : Type 0} (null : A) (ds : ℕ) (getter : DriverStation → A)
      → MayUse 2 ds mem
      → IsFine (λ q. false) mem (memory_of (get_or null ds getter mem))
  answers null ds getter h =
      memory_of-IsFine _ mem _ (get_or-IsFine mem good (λ q. false) null ds getter h)

  -- A call with pointers that are NULL or point to things of the right types has no undefined
  -- behaviour, and if it returns, the memory is good again: every pointer that the call does not
  -- take back still points to a thing of its type.
  pub run-IsFine :
      (listening : Bool) (is_open : ℕ → Bool) (c : Call)
      → IsAllowed c mem
      → IsFine (takes_back c) mem (run listening is_open c mem)
  unfolding run Station.alliance_new_red Station.alliance_new_blue Station.set_team_number
      Station.set_use_usb Station.get_team_number Station.get_mode Station.set_mode
      Station.get_ds_mode Station.enable Station.disable Station.enabled Station.estop
      Station.estopped Station.restart_code Station.restart_roborio Station.trace
      Station.battery_voltage Station.set_tcp_consumer
  run-IsFine listening is_open (call_alliance_new_red position) h = memory_of-IsFine _ mem _ (
      lift-IsFine mem (λ q. false) (Control.new_red position) _
        (λ a. into_raw-IsFine mem good (λ q. false) (alliance_cell a)))
  run-IsFine listening is_open (call_alliance_new_blue position) h = memory_of-IsFine _ mem _ (
      lift-IsFine mem (λ q. false) (Control.new_blue position) _
        (λ a. into_raw-IsFine mem good (λ q. false) (alliance_cell a)))
  run-IsFine listening is_open (call_new_team c n alliance) h =
      memory_of-IsFine _ mem _ (new_team-IsFine c n alliance h)
  run-IsFine listening is_open (call_new_ip c ip alliance n) h =
      memory_of-IsFine _ mem _ (new_ip-IsFine c ip n alliance h)
  run-IsFine listening is_open (call_destroy ds) h =
      memory_of-IsFine _ mem _ (destroy-IsFine listening ds h)
  run-IsFine listening is_open (call_set_alliance ds alliance) h =
      memory_of-IsFine _ mem _ (set_alliance-IsFine ds alliance h.0 h.1)
  run-IsFine listening is_open (call_set_game_specific_message ds text) h =
      memory_of-IsFine _ mem _ (set_game_specific_message-IsFine is_open ds text h)
  run-IsFine listening is_open (call_get_mode ds null) h =
      memory_of-IsFine _ mem _ (read-IsFine ds null _ _ h)
  run-IsFine listening is_open (call_get_ds_mode ds null) h =
      memory_of-IsFine _ mem _ (read-IsFine ds null _ _ h)
  run-IsFine listening is_open (call_get_team_number ds) h = answers 0 ds (λ d. d.team_number) h
  run-IsFine listening is_open (call_enabled ds) h = answers false ds DriverStation.enabled h
  run-IsFine listening is_open (call_estopped ds) h = answers false ds DriverStation.estopped h
  run-IsFine listening is_open (call_trace ds) h = answers 0 ds DriverStation.trace h
  run-IsFine listening is_open (call_battery_voltage ds) h =
      answers zero_f32 ds DriverStation.battery_voltage h
  run-IsFine listening is_open (call_set_team_number ds n) h =
      changes ds (DriverStation.set_team_number listening n) h
  run-IsFine listening is_open (call_set_use_usb ds use_usb) h =
      changes ds (DriverStation.set_use_usb listening use_usb) h
  run-IsFine listening is_open (call_set_mode ds mode) h =
      changes ds (λ d. ok (DriverStation.set_mode (to_ds mode) d)) h
  run-IsFine listening is_open (call_enable ds) h = changes ds (λ d. ok (DriverStation.enable d)) h
  run-IsFine listening is_open (call_disable ds) h =
      changes ds (λ d. ok (DriverStation.disable d)) h
  run-IsFine listening is_open (call_estop ds) h = changes ds (λ d. ok (DriverStation.estop d)) h
  run-IsFine listening is_open (call_restart_code ds) h =
      changes ds (λ d. ok (DriverStation.restart_code d)) h
  run-IsFine listening is_open (call_restart_roborio ds) h =
      changes ds (λ d. ok (DriverStation.restart_roborio d)) h
  run-IsFine listening is_open (call_set_tcp_consumer ds callback) h =
      changes ds (λ d. ok (DriverStation.set_tcp_consumer callback d)) h
