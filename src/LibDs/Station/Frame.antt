-- ===== src/LibDs/Station/Frame.antt =====
-- What the functions of libDS/src/cds.rs may do to the memory behind the pointers.
use ds_rs.Prelude.{
  ℕ, ◌<◌, ◌≤◌, ◌≡◌, ◌≢◌, refl, sym, ◌∙◌, ap, ◌⊎◌, inl, inr, Bool, true, false, Bool-cases, ==_iff,
  ltb, ltb→lt, Option, none, some, Outcome, ok, err, panicked, ◌==◌, arith,
}
use ds_rs.Proto.Control.{Alliance}
use ds_rs.Ds.DriverStation.{DriverStation}
use ds_rs.LibDs.Memory.{
  Cell, alliance_cell, station_cell, Memory, Result, done, panic, waits, undefined, Action, ◌>>=◌,
  pure, put, into_raw, lift, alliance_from_raw, station_at, assign,
}
use ds_rs.LibDs.Station.{change, change_if, get_or}

-- What is behind a pointer: nothing, an alliance or a driver station.
abbrev pub kind : Option Cell → ℕ
kind none = 0
kind (some (alliance_cell a)) = 1
kind (some (station_cell d)) = 2

-- A memory in which NULL, and what has not been given out yet, points to nothing.
pub record IsGood (mem : Memory) : Type 0 where
  pub positive : 0 < mem.fresh
  pub null : kind (mem.cells 0) ≡ 0
  pub free : (q : ℕ) → mem.fresh ≤ q → kind (mem.cells q) ≡ 0

-- The result of a call that may take back the pointers of `taken`: no undefined behaviour, and if it
-- returns, a good memory in which the other pointers still point to things of their types.
abbrev pub IsFine {ℓ} : {A : Type ℓ} → (ℕ → Bool) → Memory → Result (A × Memory) → Type 0
IsFine taken mem (done (a, mem')) =
    IsGood mem'
    × ((q : ℕ) → q < mem.fresh → taken q ≡ false → kind (mem'.cells q) ≡ kind (mem.cells q))
IsFine taken mem panic = Unit {0}
IsFine taken mem waits = Unit {0}
IsFine taken mem undefined = ⊥

module _ (mem : Memory) (good : IsGood mem) where
  live-lt : (p : ℕ) → kind (mem.cells p) ≢ 0 → p < mem.fresh
  live-lt p live = elim (Bool-cases (ltb p mem.fresh)) [
    | inl below ↦ ltb→lt p mem.fresh below
    | inr above ↦ absurd (live (good.free p (ground arith)))
  ]

  pub other_cell :
      (p q : ℕ) (c : Option Cell) → (q == p) ≡ false → (put p c mem).cells q ≡ mem.cells q
  other_cell p q c e = rw e refl

  put-frame :
      (taken : ℕ → Bool) (p : ℕ) (c : Option Cell)
      → (kind c ≡ kind (mem.cells p)) ⊎ (taken p ≡ true)
      → (q : ℕ) → taken q ≡ false
      → kind ((put p c mem).cells q) ≡ kind (mem.cells q)
  put-frame taken p c h q kept = elim (Bool-cases (q == p)) [
    | inr e ↦ ap kind (other_cell p q c e)
    | inl e ↦ same_cell ((==_iff q p).0 e) e h
  ]
    where
      same_cell :
          q ≡ p
          → (q == p) ≡ true
          → (kind c ≡ kind (mem.cells p)) ⊎ (taken p ≡ true)
          → kind ((put p c mem).cells q) ≡ kind (mem.cells q)
      same_cell here e (inl same) = rw e (rw here same)
      same_cell here e (inr gone) = absurd (cc (here, gone, kept))

  -- What is behind a live pointer may change, within its type or if it is taken back.
  pub put-IsFine :
      {A : Type 0} (a : A) (taken : ℕ → Bool) (p : ℕ) (c : Option Cell)
      → kind (mem.cells p) ≢ 0
      → (kind c ≡ kind (mem.cells p)) ⊎ (taken p ≡ true)
      → IsFine taken mem (done (a, put p c mem))
  put-IsFine a taken p c live h =
      let below : p < mem.fresh = live-lt p live in
      let above : 0 ≢ p = λ e. live (rw (← e) good.null) in
      (
        record {
          positive = good.positive;
          null = rw (other_cell p 0 c (ground arith)) good.null;
          free = λ q beyond. rw (other_cell p q c (ground arith)) (good.free q beyond);
        },
        λ q lt kept. put-frame taken p c h q kept,
      )

  pub into_raw-IsFine : (taken : ℕ → Bool) (c : Cell) → IsFine taken mem (into_raw c mem)
  into_raw-IsFine taken c = (
    record {
      positive = omega arith;
      null = rw (other_cell mem.fresh 0 (some c) (ground (arith, good.positive))) good.null;
      free = λ q beyond.
          rw (other_cell mem.fresh q (some c) (ground arith)) (good.free q (omega arith));
    },
    λ q lt kept. ap kind (other_cell mem.fresh q (some c) (ground arith)),
  )

  -- What comes after a pointer has been taken back.
  after-IsFine :
      {A : Type 0} (taken : ℕ → Bool) (p : ℕ) (o : Result (A × Memory))
      → taken p ≡ true
      → IsFine taken (put p none mem) o
      → IsFine taken mem o
  after-IsFine taken p (done (a, mem')) h (good', frame) =
      (good', λ q lt kept. frame q lt kept ∙ put-frame taken p none (inr h) q kept)
  after-IsFine taken p panic h fine = tt
  after-IsFine taken p waits h fine = tt
  after-IsFine taken p undefined h fine = fine

alliance-cases : (c : Option Cell) → kind c ≡ 1 → (a : Alliance) × (c ≡ some (alliance_cell a))
alliance-cases none h = absurd (omega (arith, h))
alliance-cases (some (alliance_cell a)) h = (a, refl)
alliance-cases (some (station_cell d)) h = absurd (omega (arith, h))

station-cases : (c : Option Cell) → kind c ≡ 2 → (d : DriverStation) × (c ≡ some (station_cell d))
station-cases none h = absurd (omega (arith, h))
station-cases (some (alliance_cell a)) h = absurd (omega (arith, h))
station-cases (some (station_cell d)) h = (d, refl)

module _ {A : Type 0} (mem : Memory) (p : ℕ) where
  station_at-some :
      (next : DriverStation → Action A) (d : DriverStation)
      → mem.cells p ≡ some (station_cell d)
      → (station_at p >>= next) mem ≡ next d mem
  station_at-some next d e = rw (e, ◌>>=◌) refl

  alliance_from_raw-some :
      (next : Alliance → Action A) (a : Alliance)
      → mem.cells p ≡ some (alliance_cell a)
      → (alliance_from_raw p >>= next) mem ≡ next a (put p none mem)
  alliance_from_raw-some next a e = rw (e, ◌>>=◌) refl

-- A pointer that may be NULL, and is not.
pub not_null :
    {k : ℕ} (mem : Memory) (p : ℕ)
    → (p ≡ 0) ⊎ (kind (mem.cells p) ≡ k)
    → (p == 0) ≡ false
    → kind (mem.cells p) ≡ k
not_null mem p (inl null) e = absurd (cc ((==_iff p 0).1 null, e))
not_null mem p (inr live) e = live

module _ (mem : Memory) (good : IsGood mem) (taken : ℕ → Bool) where
  pub pure-IsFine : {A : Type 0} (a : A) → IsFine taken mem (pure a mem)
  pure-IsFine a = (good, λ q lt kept. refl)

  -- A station behind a pointer is read, and what follows is fine if it is for every station.
  pub station_at-IsFine :
      {A : Type 0} (ds : ℕ) (next : DriverStation → Action A)
      → kind (mem.cells ds) ≡ 2
      → ((d : DriverStation) → IsFine taken mem (next d mem))
      → IsFine taken mem ((station_at ds >>= next) mem)
  station_at-IsFine ds next live fine =
      let (d, e) = station-cases (mem.cells ds) live in
      rw (station_at-some mem ds next d e) (fine d)

  -- An alliance is taken back, and what follows is fine if it is for every alliance.
  pub alliance_from_raw-IsFine :
      {A : Type 0} (p : ℕ) (next : Alliance → Action A)
      → kind (mem.cells p) ≡ 1
      → taken p ≡ true
      → ((a : Alliance)
          → IsGood (put p none mem)
          → IsFine taken (put p none mem) (next a (put p none mem)))
      → IsFine taken mem ((alliance_from_raw p >>= next) mem)
  alliance_from_raw-IsFine p next live gone fine =
      let (a, e) = alliance-cases (mem.cells p) live in
      let (good', frame) = put-IsFine mem good tt taken p none (λ z. omega arith) (inr gone) in
      after-IsFine mem good taken p _ gone
        (rw (alliance_from_raw-some mem p next a e) (fine a good'))

  pub change-IsFine :
      (ds : ℕ) (method : DriverStation → Outcome DriverStation)
      → kind (mem.cells ds) ≡ 2
      → IsFine taken mem (change ds method mem)
  change-IsFine ds method live = station_at-IsFine ds _ live (λ d. changed (method d))
    where
      changed :
          (o : Outcome DriverStation)
          → IsFine taken mem ((do d' ← lift o; assign ds (some (station_cell d'))) mem)
      changed (ok d) =
          put-IsFine mem good tt taken ds (some (station_cell d)) (λ z. omega arith)
            (inl (sym live))
      changed (err e) = tt
      changed panicked = tt

  pub change_if-IsFine :
      (ds : ℕ) (method : DriverStation → Outcome DriverStation)
      → (ds ≡ 0) ⊎ (kind (mem.cells ds) ≡ 2)
      → IsFine taken mem (change_if ds method mem)
  change_if-IsFine ds method h = elim (Bool-cases (ds == 0)) [
    | inl e ↦ rw e (pure-IsFine tt)
    | inr e ↦ rw e (change-IsFine ds method (not_null mem ds h e))
  ]

  pub get_or-IsFine :
      {A : Type 0} (null : A) (ds : ℕ) (getter : DriverStation → A)
      → (ds ≡ 0) ⊎ (kind (mem.cells ds) ≡ 2)
      → IsFine taken mem (get_or null ds getter mem)
  get_or-IsFine null ds getter h = elim (Bool-cases (ds == 0)) [
    | inl e ↦ rw e (pure-IsFine null)
    | inr e ↦ rw e (station_at-IsFine ds _ (not_null mem ds h e) (λ d. pure-IsFine (getter d)))
  ]
