-- ===== src/Crates/Flags.antt =====
-- The crate `bitflags`: a value of a generated type is its bits; `all` is the union of its flags.
use ds_rs.Prelude.{ℕ, ◌≡◌, ◌≢◌, Bool, Option, none, some, bit_and, bit_or, ◌==◌}

pub record Bitflags : Type 0 where
  pub from_bits : ℕ → ℕ → Option ℕ
  pub contains : ℕ → ℕ → Bool
  pub union : ℕ → ℕ → ℕ
  pub from_bits_known : (all n : ℕ) → bit_and n all ≡ n → from_bits all n ≡ some n
  pub from_bits_unknown : (all n : ℕ) → bit_and n all ≢ n → from_bits all n ≡ none
  pub contains_law : (s t : ℕ) → contains s t ≡ (bit_and s t == t)
  pub union_law : (s t : ℕ) → union s t ≡ bit_or s t

module _ (g : Bitflags) where
  pub contains_lem : (s t : ℕ) → g.contains s t ≡ (bit_and s t == t)
  contains_lem = g.contains_law

  pub union_lem : (s t : ℕ) → g.union s t ≡ bit_or s t
  union_lem = g.union_law
