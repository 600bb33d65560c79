-- ===== src/Double.antt =====
-- All that the trading code does with a `double`: the arithmetic, the conversions, the comparisons
-- and the constants that it writes. IEEE arithmetic is not modelled; it is a parameter.
use nanosecond_trading_stack.Common.{ℕ, Bool}

pub record Double {ℓ} (D : Type ℓ) : Type ℓ where
  pub zero_d : D
  pub half : D
  pub one : D
  pub two : D
  pub five : D
  pub add : D → D → D
  pub sub : D → D → D
  pub mul : D → D → D
  pub div : D → D → D
  pub abs_d : D → D
  pub lt_d : D → D → Bool
  pub le_d : D → D → Bool
  -- `static_cast<double>` of an unsigned integer, and of an `int32_t` by its pattern
  pub of_uint : ℕ → D
  pub of_int32 : ℕ → D
  -- `static_cast<uint64_t>` of a `double`
  pub to_uint : D → ℕ
