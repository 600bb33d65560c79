-- ===== src/TscSync.antt =====
-- tools/tsc_sync_check.cpp: how far the time-stamp counter of a core is from that of another. The
-- handshake of the two threads is in Handshake, the arguments and `main` are in Report.
pub mod Handshake
pub mod Invariant
pub mod Samples
pub mod Skew
pub mod Progress
pub mod Report
pub mod Verdict
mod Tests
use nanosecond_trading_stack.Clock.{counter_of}
use nanosecond_trading_stack.Common.{
  none, some, Option, ◌||◌, ◌==◌, ℕ, ◌+◌, ◌*◌, ◌-◌, ◌/◌, ◌%◌, ◌^◌, Bool, true, false, ltb, leb,
  if◌then◌else◌, u64_mod, add64, sub64,
}

-- `Config` but for the list of cores; the fields are not negative, as `parse_args` checks.
pub record Config : Type 0 where
  pub reference_core : ℕ
  pub samples : ℕ
  pub warmup : ℕ
  pub threshold_cycles : ℕ

-- `offset_cycles` is the pattern of an `int64_t`.
pub record Sample : Type 0 where
  pub offset_cycles : ℕ
  pub roundtrip_cycles : ℕ

-- The locals `best`, `best_ref_aux` and `best_target_aux` of `measure_pair`.
pub record Best : Type 0 where
  pub sample : Sample
  pub ref_aux : ℕ
  pub target_aux : ℕ

pub record PairStats : Type 0 where
  pub core : ℕ
  pub best_offset_cycles : ℕ
  pub best_roundtrip_cycles : ℕ
  pub uncertainty_cycles : ℕ
  pub low_bound_cycles : ℕ
  pub high_bound_cycles : ℕ
  pub reference_aux : ℕ
  pub target_aux : ℕ
  pub pass : Bool

abbrev pub u64_max : ℕ
u64_max = 0xffffffffffffffff

abbrev pub no_best : Best
no_best = record {
  sample = record { offset_cycles = 0; roundtrip_cycles = u64_max };
  ref_aux = 0;
  target_aux = 0;
}

-- `-x` of an `int64_t` pattern
abbrev pub neg64 : ℕ → ℕ
neg64 x = (u64_mod - x) % u64_mod

-- `a <= b` of two `int64_t` patterns
abbrev pub leb_int64 : ℕ → ℕ → Bool
leb_int64 a b = leb (add64 a (2 ^ 63)) (add64 b (2 ^ 63))

-- `std::llabs` of a pattern (the least value stays itself)
abbrev pub abs64 : ℕ → ℕ
abs64 a = if ltb a (2 ^ 63) then a else neg64 a

unfoldable pub tsc_delta : ℕ → ℕ → ℕ
tsc_delta lhs rhs = if leb rhs lhs then sub64 lhs rhs else neg64 (sub64 rhs lhs)

-- The end of a round of `measure_pair`: the sample with the least round trip is kept.
unfoldable pub take_sample : ℕ → ℕ → ℕ → ℕ → ℕ → Best → Best
take_sample start ref_aux end target_tsc target_aux best =
    let roundtrip = sub64 end start in
    let midpoint = add64 start (roundtrip / 2) in
    let offset = tsc_delta target_tsc midpoint in
    if ltb roundtrip best.sample.roundtrip_cycles
    then record {
      sample = record { offset_cycles = offset; roundtrip_cycles = roundtrip };
      ref_aux = ref_aux;
      target_aux = target_aux;
    }
    else best

-- The end of `measure_pair`.
unfoldable pub pair_stats : Config → ℕ → Best → PairStats
pair_stats cfg target_core best =
    let offset = best.sample.offset_cycles in
    let uncertainty = add64 best.sample.roundtrip_cycles 1 / 2 in
    record {
      core = target_core;
      best_offset_cycles = offset;
      best_roundtrip_cycles = best.sample.roundtrip_cycles;
      uncertainty_cycles = uncertainty;
      low_bound_cycles = sub64 offset uncertainty;
      high_bound_cycles = add64 offset uncertainty;
      reference_aux = best.ref_aux;
      target_aux = best.target_aux;
      pass = leb_int64 (abs64 offset) (add64 cfg.threshold_cycles uncertainty);
    }

-- `rdtscp`, from the words that the instruction gives: the counter, and the number of the core.
abbrev pub rdtscp : ℕ → ℕ → ℕ → ℕ × ℕ
rdtscp lo hi cpu = (counter_of hi lo, cpu)

-- `online_cores`, by the pattern of the `long` that `sysconf` gives; none where the code throws.
abbrev pub online_cores : ℕ → Option ℕ
online_cores n = if (n == 0) || leb (2 ^ 31) n then none else some n
