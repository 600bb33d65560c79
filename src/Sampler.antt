-- ===== src/Sampler.antt =====
-- include/nts/instrument/tick_sampler.h, src/instrument/tick_sampler.cpp: samples of tick counts up
-- to a bound, and their statistics. `std::sort` is insertion sort here: on numbers every sort has
-- the same result.
pub mod Bounds
pub mod Report
use nanosecond_trading_stack.Common.{
  ℕ, zero, suc, ◌+◌, ◌-◌, ◌*◌, ◌/◌, ◌%◌, ◌^◌, ◌≤◌, ◌≡◌, refl, Bool, true, false, List, [], ◌∷◌,
  ◌++◌, ltb, leb, if◌then◌else◌, is_nil, length, length-append, get_or, u64_mod, arith,
}

pub record TickSampleStats : Type 0 where
  pub min_ticks : ℕ
  pub max_ticks : ℕ
  pub mean_ticks : ℕ
  pub p50_ticks : ℕ
  pub p99_ticks : ℕ
  pub samples : ℕ
  pub dropped : ℕ

abbrev pub max_samples : ℕ
max_samples = 1048576

pub record TickSampler : Type 0 where
  pub samples : List ℕ
  pub dropped : ℕ

unfoldable pub add : ℕ → TickSampler → TickSampler
add ticks s =
    if ltb (length s.samples) max_samples
    then record s { samples = s.samples ++ (ticks ∷ []) }
    else record s { dropped = (s.dropped + 1) % u64_mod }

unfoldable pub insert : ℕ → List ℕ → List ℕ
insert x [] = x ∷ []
insert x (y ∷ ys) = if leb x y then x ∷ y ∷ ys else y ∷ insert x ys

unfoldable pub sort : List ℕ → List ℕ
unfolding insert
sort [] = []
sort (x ∷ xs) = insert x (sort xs)

-- `for (uint64_t v : sorted) sum += v;`
unfoldable pub sum_from : ℕ → List ℕ → ℕ
sum_from total [] = total
sum_from total (v ∷ vs) = sum_from ((total + v) % u64_mod) vs

unfoldable pub compute_tick_stats : TickSampler → TickSampleStats
unfolding sort sum_from
compute_tick_stats s =
    let n = length s.samples in
    let sorted = sort s.samples in
    if is_nil s.samples
    then record {
      min_ticks = 0;
      max_ticks = 0;
      mean_ticks = 0;
      p50_ticks = 0;
      p99_ticks = 0;
      samples = n;
      dropped = s.dropped;
    }
    else record {
      min_ticks = get_or sorted 0 0;
      max_ticks = get_or sorted (n - 1) 0;
      mean_ticks = sum_from 0 sorted / n;
      p50_ticks = get_or sorted ((n - 1) / 2) 0;
      p99_ticks = get_or sorted ((n - 1) * 99 / 100) 0;
      samples = n;
      dropped = s.dropped;
    }
