-- ===== src/Clock.antt =====
-- include/nts/instrument/clock.h: the time-stamp counter and its calibration on Linux, the source of
-- ticks where there is none, and the conversion on macOS. The times of the system and the words that
-- the instructions give are arguments.
use Prim.Native.Nat.{bit_or}
use nanosecond_trading_stack.Common.Bits.{bit_or_low}
use nanosecond_trading_stack.Common.{
  ℕ, ◌+◌, ◌*◌, ◌/◌, ◌%◌, ◌^◌, ◌<◌, ◌≡◌, ◌==◌, if◌then◌else◌, arith, u64_mod, add64, sub64,
}
use nanosecond_trading_stack.Double.{Double}

-- `struct timespec` of the system.
pub record Timespec : Type 0 where
  pub tv_sec : ℕ
  pub tv_nsec : ℕ

-- The difference of two times in nanoseconds, each part converted to `uint64_t` on its own.
unfoldable pub elapsed_ns : Timespec → Timespec → ℕ
elapsed_ns ts0 ts1 =
    add64 (sub64 ts1.tv_sec ts0.tv_sec * 1000000000 % u64_mod) (sub64 ts1.tv_nsec ts0.tv_nsec)

-- `raw_ticks` from `clock_gettime`
unfoldable pub raw_ticks : Timespec → ℕ
raw_ticks ts = add64 (ts.tv_sec * 1000000000 % u64_mod) ts.tv_nsec

-- `(static_cast<uint64_t>(hi) << 32) | lo` of the counter's two words
unfoldable pub counter_of : ℕ → ℕ → ℕ
counter_of hi lo = bit_or (hi * 2 ^ 32 % u64_mod) lo

-- `ticks_to_ns` on macOS, by the fraction of `mach_timebase_info`
unfoldable pub ticks_to_ns_mach : ℕ → ℕ → ℕ → ℕ
ticks_to_ns_mach numer denom ticks = ticks * numer % u64_mod / denom

-- The two words of the counter, put together, are its value.
pub counter_of_words : (c : ℕ) → c < u64_mod → counter_of (c / 2 ^ 32) (c % 2 ^ 32) ≡ c
unfolding counter_of
counter_of_words c small =
    let whole : c / 2 ^ 32 * 2 ^ 32 % u64_mod ≡ c / 2 ^ 32 * 2 ^ 32 = omega arith in
    rw whole (omega (arith, bit_or_low 32 (c / 2 ^ 32) (c % 2 ^ 32) (omega arith)))

module _ {ℓ} {D : Type ℓ} ⦃d : Double D⦄ where
  open d use {one, div, mul, of_uint, to_uint}

  unfoldable pub calibrate_ns_per_tick : Timespec → Timespec → ℕ → ℕ → D
  unfolding elapsed_ns
  calibrate_ns_per_tick ts0 ts1 t0 t1 =
      let ticks = sub64 t1 t0 in
      if ticks == 0 then one else div (of_uint (elapsed_ns ts0 ts1)) (of_uint ticks)

  -- `ticks_to_ns` with the calibrated `ns_per_tick`
  abbrev pub ticks_to_ns : D → ℕ → ℕ
  ticks_to_ns ns_per_tick ticks = to_uint (mul (of_uint ticks) ns_per_tick)

-- A time in nanoseconds.
abbrev pub total_ns : Timespec → ℕ
total_ns ts = ts.tv_sec * 1000000000 + ts.tv_nsec
