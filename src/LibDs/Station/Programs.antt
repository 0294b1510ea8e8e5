-- ===== src/LibDs/Station/Programs.antt =====
-- C programs over libDS/src/cds.rs that use pointers as they may.
use ds_rs.Prelude.{ℕ, ◌≡◌, refl, subst, Bool, none, arith}
use ds_rs.LibDs.Memory.{Memory, done}
use ds_rs.LibDs.Station.Frame.{IsGood, IsFine}
use ds_rs.LibDs.Station.Calls.{Call, run, IsAllowed, takes_back}
use ds_rs.LibDs.Station.Safe.{run-IsFine}

abbrev pub empty : Memory
empty = record { cells = λ q. none; fresh = 1 }

-- What a program can make of the empty memory by calls that it may do, and that return.
pub data Reach : Memory → Type 0 where
  begin : Reach empty
  called :
      {mem mem' : Memory} (listening : Bool) (is_open : ℕ → Bool) (c : Call)
      → Reach mem
      → IsAllowed c mem
      → run listening is_open c mem ≡ done (tt, mem')
      → Reach mem'

empty-IsGood : IsGood empty
empty-IsGood = record { positive = omega arith; null = refl; free = λ q beyond. refl }

Reach-IsGood : {mem : Memory} → Reach mem → IsGood mem
Reach-IsGood begin = empty-IsGood
Reach-IsGood (called {mem} listening is_open c r allowed e) =
    let fine = run-IsFine mem (Reach-IsGood r) listening is_open c allowed in
    let kept = subst (λ o. IsFine (takes_back c) mem o) e fine in kept.0

-- A C program may call each function with NULL, or with pointers that were given to it, point to
-- things of the right types, and have not been taken back; behind any such calls, the next one has
-- no undefined behaviour, and if it returns, every pointer that it does not take back still points
-- to a thing of its type, and NULL and what is not given out to nothing.
pub Reach-IsFine :
    {mem : Memory} (listening : Bool) (is_open : ℕ → Bool) (c : Call)
    → Reach mem
    → IsAllowed c mem
    → IsFine (takes_back c) mem (run listening is_open c mem)
Reach-IsFine {mem} listening is_open c r allowed =
    run-IsFine mem (Reach-IsGood r) listening is_open c allowed
