-- ===== src/Ranking/Floats.antt =====
-- What the ranking takes from the standard library. A float is its bit pattern, and the arithmetic is
-- a parameter: no theorem depends on a law of it.
use super_mem.Base.{ℕ, ◌+◌, ◌-◌, ◌^◌, Text, Bool, List, ltb, if◌then◌else◌}

pub record Floats : Type 0 where
  pub add : ℕ → ℕ → ℕ
  pub sub : ℕ → ℕ → ℕ
  pub mul : ℕ → ℕ → ℕ
  pub div : ℕ → ℕ → ℕ
  pub powf : ℕ → ℕ → ℕ
  pub neg : ℕ → ℕ
  pub f64_max : ℕ → ℕ → ℕ
  pub clamp : ℕ → ℕ → ℕ → ℕ
  pub of_usize : ℕ → ℕ
  pub sum : List ℕ → ℕ

-- `char::is_alphanumeric` and `char::to_lowercase`.
pub record Unicode : Type 0 where
  pub is_alphanumeric : ℕ → Bool
  pub to_lowercase : ℕ → Text

-- `f64::total_cmp` orders the bit patterns as these numbers: the negative ones come first, backwards.
abbrev pub total_key : ℕ → ℕ
total_key bits = if ltb bits (2 ^ 63) then bits + 2 ^ 63 else 2 ^ 64 - 1 - bits

abbrev pub neg_infinity : ℕ
neg_infinity = 0xfff0000000000000

abbrev pub epsilon : ℕ
epsilon = 0x3cb0000000000000

abbrev pub one : ℕ
one = 0x3ff0000000000000
