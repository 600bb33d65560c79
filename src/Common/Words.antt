-- ===== src/Common/Words.antt =====
-- Machine words as native numbers. An `int32_t` is its two's-complement pattern below 2 ^ 32.
use Prim.Native.Nat.{ℕ, ◌+◌, ◌-◌, ◌%◌, ◌^◌}
use mathlib.Core.Bool.{Bool}
use nanosecond_trading_stack.Common.Tests.{ltb, if◌then◌else◌}

abbrev pub u32_mod : ℕ
u32_mod = 2 ^ 32

abbrev pub u64_mod : ℕ
u64_mod = 2 ^ 64

abbrev pub add32 : ℕ → ℕ → ℕ
add32 a b = (a + b) % u32_mod

abbrev pub sub32 : ℕ → ℕ → ℕ
sub32 a b = (a + u32_mod - b) % u32_mod

abbrev pub neg32 : ℕ → ℕ
neg32 a = (u32_mod - a) % u32_mod

abbrev pub add64 : ℕ → ℕ → ℕ
add64 a b = (a + b) % u64_mod

abbrev pub sub64 : ℕ → ℕ → ℕ
sub64 a b = (a + u64_mod - b) % u64_mod

-- `a < b` of two `int32_t` patterns
abbrev pub ltb_int32 : ℕ → ℕ → Bool
ltb_int32 a b = ltb (add32 a (2 ^ 31)) (add32 b (2 ^ 31))

-- `std::abs` of an `int32_t` pattern (the least value has no absolute value and stays itself)
abbrev pub abs32 : ℕ → ℕ
abs32 a = if ltb a (2 ^ 31) then a else neg32 a
