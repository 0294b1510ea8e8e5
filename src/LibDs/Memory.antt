-- ===== src/LibDs/Memory.antt =====
-- The memory behind the pointers of libDS/src/cds.rs: what `Box::into_raw` gives away is there until
-- `Box::from_raw` takes it back. A pointer is a number, and NULL is 0.
use ds_rs.Prelude.{ℕ, suc, Option, none, some, Outcome, ok, err, panicked, ◌==◌, if◌then◌else◌}
use ds_rs.Proto.Control.{Alliance}
use ds_rs.Ds.DriverStation.{DriverStation}

pub data Cell : Type 0 where
  alliance_cell : Alliance → Cell
  station_cell : DriverStation → Cell

-- `fresh` is the address that the allocator gives out next.
pub record Memory : Type 0 where
  pub cells : ℕ → Option Cell
  pub fresh : ℕ

-- A call returns, panics, is still waiting for a task, or has undefined behaviour: the use of a pointer to nothing, or to a thing
-- of another type.
pub data Result {ℓ} (A : Type ℓ) : Type ℓ where
  done : A → Result A
  panic : Result A
  waits : Result A
  undefined : Result A

abbrev pub Action {ℓ} : Type ℓ → Type ℓ
Action A = Memory → Result (A × Memory)

infixl 5 ◌>>=◌
abbrev pub ◌>>=◌ {ℓ κ} : {A : Type ℓ} {B : Type κ} → Action A → (A → Action B) → Action B
◌>>=◌ m f mem = elim (m mem) [
  | done (a, mem') ↦ f a mem'
  | panic ↦ panic
  | waits ↦ waits
  | undefined ↦ undefined
]

abbrev pub pure {ℓ} : {A : Type ℓ} → A → Action A
pure a mem = done (a, mem)

-- A call of the driver station; an error that is unwrapped panics.
abbrev pub lift {ℓ} : {A : Type ℓ} → Outcome A → Action A
lift o mem = elim o [ ok a ↦ done (a, mem) | err e ↦ panic | panicked ↦ panic ]

-- What a constructor that awaits a task has made: nothing as long as it waits.
abbrev pub await {ℓ} : {A : Type ℓ} → Outcome (Option A) → Action A
await (ok (some a)) mem = done (a, mem)
await (ok none) mem = waits
await (err e) mem = panic
await panicked mem = panic

abbrev pub put : ℕ → Option Cell → Memory → Memory
put p c mem = record mem { cells = λ q. if q == p then c else mem.cells q }

-- `Box::into_raw(Box::new(…))`
abbrev pub into_raw : Cell → Action ℕ
into_raw c mem = done (mem.fresh, record (put mem.fresh (some c) mem) { fresh = suc mem.fresh })

-- `*Box::from_raw(alliance)`
abbrev take_alliance : ℕ → Option Cell → Action Alliance
take_alliance p none mem = undefined
take_alliance p (some (station_cell d)) mem = undefined
take_alliance p (some (alliance_cell a)) mem = done (a, put p none mem)

abbrev pub alliance_from_raw : ℕ → Action Alliance
alliance_from_raw p mem = take_alliance p (mem.cells p) mem

-- `(*ds)`
abbrev read_station : Option Cell → Action DriverStation
read_station none mem = undefined
read_station (some (alliance_cell a)) mem = undefined
read_station (some (station_cell d)) mem = done (d, mem)

abbrev pub station_at : ℕ → Action DriverStation
station_at p mem = read_station (mem.cells p) mem

-- The object behind a pointer after a method that changed it, or without it.
abbrev pub assign : ℕ → Option Cell → Action (Unit {0})
assign p c mem = done (tt, put p c mem)
