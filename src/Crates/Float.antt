-- ===== src/Crates/Float.antt =====
-- Binary floating point. An `f32` is the number of its 32 bits; the operations that round are not
-- defined here, and the model takes them as a parameter.
use ds_rs.Prelude.{ℕ, ◌<◌, Bool}

pub record Float32 : Type 0 where
  pub from_u8 : ℕ → ℕ
  pub add : ℕ → ℕ → ℕ
  pub sub : ℕ → ℕ → ℕ
  pub mul : ℕ → ℕ → ℕ
  pub div : ℕ → ℕ → ℕ
  pub abs : ℕ → ℕ
  pub lt : ℕ → ℕ → Bool
  -- the cast `as i8`, with its result as a two's complement byte
  pub as_i8 : ℕ → ℕ
  pub as_i8_byte : (x : ℕ) → as_i8 x < 256

-- The bits of the literals of the source.
abbrev pub zero_f32 : ℕ
zero_f32 = 0

abbrev pub one_f32 : ℕ
one_f32 = 0x3f80_0000

abbrev pub epsilon_f32 : ℕ
epsilon_f32 = 0x3400_0000

abbrev pub f32_128 : ℕ
f32_128 = 0x4300_0000

abbrev pub f32_256 : ℕ
f32_256 = 0x4380_0000
