-- ===== src/Ds/Backoff/Waits.antt =====
-- The waits of src/ds/conn/backoff.rs over any run of failures.
use native.Mathlib.Nat.{pow-suc}
use native.Mathlib.Numerals.{add-one}
use ds_rs.Prelude.{
  List, [], ◌∷◌, length, ℕ, zero, suc, ◌+◌, ◌*◌, ◌^◌, ◌≤◌, ◌<◌, ◌≡◌, refl, min, Bool, true, false,
  Option, none, some, Outcome, ok, ◌>>=◌, leb, ◌==◌, if◌then◌else◌, arith, Bool-cases, inl, inr,
  lt→ltb,
}
use ds_rs.Ds.Backoff.{
  ExponentialBackoff, new, reset, from_millis, calculate_wait, Attempt, succeeded, failed, done,
  failing, run,
}

-- The wait in force after `k` failures in a row: none at first, then 20 to the power of the failures
-- before the last, in milliseconds, up to the maximum.
abbrev pub wait_after : ℕ → ℕ → Option ℕ
wait_after max zero = none
wait_after max (suc k) = some (min (from_millis (20 ^ k)) max)

abbrev at_max : ℕ → ℕ → Bool
at_max max zero = false
at_max max (suc k) = leb max (from_millis (20 ^ k))

-- The state after `k` failures in a row.
abbrev pub after_failures : ℕ → ℕ → ExponentialBackoff
after_failures max k = record {
  attempt = k;
  max_timeout = max;
  use_max = at_max max k;
  timeout = wait_after max k;
}

power_grows : (k : ℕ) → 20 ^ suc k ≡ 20 * 20 ^ k
power_grows k = omega (arith, pow-suc 20 k)

-- The power that is computed before the maximum is reached fits in 64 bits.
power_fits : (max k : ℕ) → 20 * max ≤ 2 ^ 64 * 1000000 → at_max max k ≡ false → 20 ^ k < 2 ^ 64
power_fits max zero h e = omega arith
power_fits max (suc k) h e = ground (arith, power_grows k)

-- The comparison of `calculate_wait` with the maximum.
reaches_max : (delay max : ℕ) → (if min delay max == max then true else false) ≡ leb max delay
reaches_max delay max = ground arith

-- At the maximum one more failure changes neither the wait nor the flag.
stays_at_max :
    (max k : ℕ)
    → at_max max k ≡ true
    → (at_max max (suc k) ≡ true) × (wait_after max (suc k) ≡ wait_after max k)
stays_at_max max zero e = cc
stays_at_max max (suc k) e = ground (arith, power_grows k)

calculate_wait_lem :
    (max k : ℕ)
    → 20 * max ≤ 2 ^ 64 * 1000000
    → calculate_wait (after_failures max k)
      ≡ ok (record {
        attempt = k;
        max_timeout = max;
        use_max = at_max max (suc k);
        timeout = wait_after max (suc k);
      })
unfolding calculate_wait
calculate_wait_lem max k h = elim (Bool-cases (at_max max k)) [
  | inl e ↦ let (flag, wait) = stays_at_max max k e in rw (e, flag, wait) refl
  | inr e ↦
      rw
        (e, lt→ltb (20 ^ k) (2 ^ 64) (power_fits max k h e), reaches_max (from_millis (20 ^ k)) max)
        refl
]

module _ {O E : Type 0} where
  -- One more failure: it is the first one exactly after none, `run` has slept for the wait in force,
  -- and the state is the one of `k + 1` failures.
  pub run-failed :
      (max k : ℕ) (e : E)
      → 20 * max ≤ 2 ^ 64 * 1000000
      → k + 1 < 2 ^ 32
      → run {O = O} (after_failures max k) (failed e)
        ≡ ok (after_failures max (suc k), wait_after max k, failing e (k == 0))
  unfolding run
  run-failed max k e h small =
      rw (calculate_wait_lem max k h, lt→ltb (k + 1) (2 ^ 32) small, add-one k) refl

  -- A success at any point sleeps for the wait in force, and starts anew.
  pub run-succeeded :
      (max k : ℕ) (out : O)
      → run {E = E} (after_failures max k) (succeeded out)
        ≡ ok (new max, wait_after max k, done out)
  unfolding run reset new
  run-succeeded max k out = refl

module _ {O E : Type 0} where
  -- A sequence of operations, one `run` after another.
  pub run_all : ExponentialBackoff → List (Attempt O E) → Outcome ExponentialBackoff
  run_all s [] = ok s
  run_all s (a ∷ attempts) = do (s', slept, result) ← run s a; run_all s' attempts

  -- The failures since the last success, after `k` of them.
  abbrev pub trailing : ℕ → List (Attempt O E) → ℕ
  trailing k [] = k
  trailing k (succeeded out ∷ attempts) = trailing 0 attempts
  trailing k (failed e ∷ attempts) = trailing (suc k) attempts

  run_all-after_failures :
      (max k : ℕ) (attempts : List (Attempt O E))
      → 20 * max ≤ 2 ^ 64 * 1000000
      → k + length attempts < 2 ^ 32
      → run_all (after_failures max k) attempts ≡ ok (after_failures max (trailing k attempts))
  unfolding run_all new
  run_all-after_failures max k [] h small = refl
  run_all-after_failures max k (succeeded out ∷ attempts) h small =
      rw (run-succeeded {E = E} max k out) (run_all-after_failures max 0 attempts h (omega arith))
  run_all-after_failures max k (failed e ∷ attempts) h small =
      rw (run-failed {O = O} max k e h (omega arith))
        (run_all-after_failures max (suc k) attempts h (omega arith))

  -- After any operations at all, fewer than 2 ^ 32 of them, no overflow check has failed, and the
  -- state depends only on the number of failures since the last success: with `n` of them the next
  -- wait is 20 to the power `n - 1` milliseconds, cut to the maximum, and none if `n` is 0. This
  -- holds for every maximum up to 2 ^ 64 / 20 milliseconds.
  pub run_all_lem :
      (max : ℕ) (attempts : List (Attempt O E))
      → 20 * max ≤ 2 ^ 64 * 1000000
      → length attempts < 2 ^ 32
      → run_all (new max) attempts ≡ ok (after_failures max (trailing 0 attempts))
  unfolding new
  run_all_lem max attempts h small = run_all-after_failures max 0 attempts h (omega arith)
