-- ===== src/Prelude/Bits.antt =====
-- Facts about the bits of a byte, each a table that evaluation checks.
use Prim.Native.Nat.{ℕ, zero, suc, ◌<◌}
use mathlib.Core.Path.{◌≡◌}
use mathlib.Core.Bool.{Bool, true, false}
use native.Mathlib.Omega.{arith}
use ds_rs.Prelude.Tests.{if◌then◌else◌, ◌==◌}

-- Whether two functions have the same value at each of the first numbers.
unfoldable pub same_table : (f g : ℕ → ℕ) → ℕ → Bool
same_table f g zero = true
same_table f g (suc k) = if f k == g k then same_table f g k else false

pub same_table_lem : (f g : ℕ → ℕ) (k x : ℕ) → x < k → same_table f g k ≡ true → f x ≡ g x
unfolding same_table
same_table_lem f g zero x lt same = absurd (omega arith)
same_table_lem f g (suc k) x lt same = ground (arith, same_table_lem f g k x)
