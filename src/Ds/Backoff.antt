-- ===== src/Ds/Backoff.antt =====
-- src/ds/conn/backoff.rs: how long to wait before an operation that failed is tried again.
-- A `Duration` is its number of nanoseconds.
pub mod Waits
use ds_rs.Prelude.{
  ℕ, ◌+◌, ◌*◌, ◌^◌, min, Bool, true, false, Option, none, some, Outcome, ok, panicked, ◌>>=◌, ltb,
  ◌==◌, if◌then◌else◌,
}

pub record ExponentialBackoff : Type 0 where
  pub attempt : ℕ
  pub max_timeout : ℕ
  pub use_max : Bool
  pub timeout : Option ℕ

unfoldable pub new : ℕ → ExponentialBackoff
new max_timeout = record { attempt = 0; max_timeout = max_timeout; use_max = false; timeout = none }

unfoldable pub reset : ExponentialBackoff → ExponentialBackoff
reset s = record s { use_max = false; attempt = 0; timeout = none }

-- A result of an `n`-bit operation, which panics on overflow (overflow checks on).
abbrev pub checked : ℕ → ℕ → Outcome ℕ
checked n x = if ltb x (2 ^ n) then ok x else panicked

-- `Duration::from_millis`
abbrev pub from_millis : ℕ → ℕ
from_millis n = n * 1000000

-- The part of `calculate_wait` behind the short circuit.
abbrev pub with_delay : ExponentialBackoff → ℕ → ExponentialBackoff
with_delay s delay = record s {
  use_max = if delay == s.max_timeout then true else s.use_max;
  timeout = some delay;
}

unfoldable pub calculate_wait : ExponentialBackoff → Outcome ExponentialBackoff
calculate_wait s = if s.use_max then ok s else (do
  backoff_millis ← checked 64 (20 ^ s.attempt)
  ok (with_delay s (min (from_millis backoff_millis) s.max_timeout)))

-- The result of the operation, and that of `run`, where a failure says whether it was the first.
pub data Attempt {ℓ} (O E : Type ℓ) : Type ℓ where
  succeeded : O → Attempt O E
  failed : E → Attempt O E

pub data Ran {ℓ} (O E : Type ℓ) : Type ℓ where
  done : O → Ran O E
  failing : E → Bool → Ran O E

-- `run`, for an operation that ends as given: the new state, the time that it slept, its result.
unfoldable pub run :
    {O E : Type 0}
    → ExponentialBackoff
    → Attempt O E
    → Outcome (ExponentialBackoff × Option ℕ × Ran O E)
unfolding calculate_wait reset
run s (succeeded out) = ok (reset s, s.timeout, done out)
run s (failed e) = do
  let disconnected = s.attempt == 0
  s' ← calculate_wait s
  attempt ← checked 32 (s'.attempt + 1)
  ok (record s' { attempt = attempt }, s.timeout, failing e disconnected)
