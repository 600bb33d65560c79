-- ===== src/Stats/Percentiles.antt =====
-- `StatsCalculator::compute` of src/instrument/stats.cpp: the order of the percentiles. That a larger
-- share of a count converts to no smaller index, and to none beyond the last, is what the code relies
-- on of the arithmetic of doubles.
use nanosecond_trading_stack.Common.{
  ℕ, ◌-◌, ◌≤◌, length, get_or, is_nil, arith, Bool-cases, inl, inr,
}
use nanosecond_trading_stack.Double.{Double}
use nanosecond_trading_stack.Sampler.Bounds.{get_mono, sort-IsSorted, length-sort, is_nil-length}
use nanosecond_trading_stack.Sampler.{sort}
use nanosecond_trading_stack.Stats.{compute, latencies_from, latencies_from_bound}
use nanosecond_trading_stack.Tracer.{Hop, HopTracer, count}

module _ {ℓ} {D : Type ℓ} ⦃d : Double D⦄ where
  open d use {mul, of_uint, to_uint}

  -- The index of a percentile among `n + 1` sorted values.
  abbrev pub rank : D → ℕ → ℕ
  rank p n = to_uint (mul p (of_uint n))

  module _ (p50 p90 p99 p999 : D) (sqrt : D → D) where
    -- The least latency, the percentiles and the greatest latency are in order, and there are no more
    -- samples than traces that the ring holds. It is assumed that the ranks of the percentiles are in
    -- order and not beyond the last index.
    pub compute-ordered :
        (ns_per_tick : D) (tracer : HopTracer) (from to : Hop)
        → ((n : ℕ) → rank p50 n ≤ rank p90 n)
        → ((n : ℕ) → rank p90 n ≤ rank p99 n)
        → ((n : ℕ) → rank p99 n ≤ rank p999 n)
        → ((n : ℕ) → rank p999 n ≤ n)
        → let st = compute p50 p90 p99 p999 sqrt ns_per_tick tracer from to in
          (st.min_ns ≤ st.p50_ns)
          × (st.p50_ns ≤ st.p90_ns)
          × (st.p90_ns ≤ st.p99_ns)
          × (st.p99_ns ≤ st.p999_ns)
          × (st.p999_ns ≤ st.max_ns)
          × (st.samples ≤ count tracer)
    unfolding compute
    compute-ordered ns_per_tick tracer from to h90 h99 h999 last =
        let xs = latencies_from ns_per_tick tracer from to (count tracer) 0 in
        let bound = latencies_from_bound ns_per_tick tracer from to (count tracer) 0 in
        let ys = sort xs in
        let n = length ys - 1 in
        elim (Bool-cases (is_nil xs)) [
          | inl e ↦
              rw e (omega arith, omega arith, omega arith, omega arith, omega arith, omega arith)
          | inr e ↦
              let some_there = is_nil-length xs e in
              let sized = length-sort xs in
              let in_order : (i j : ℕ) → i ≤ j → j ≤ n → get_or ys i 0 ≤ get_or ys j 0 =
                λ i j le end. get_mono ys i j (sort-IsSorted xs) le (omega arith) in
              rw e (
                in_order 0 (rank p50 n) (omega arith) (omega (arith, h90 n, h99 n, h999 n, last n)),
                in_order (rank p50 n) (rank p90 n) (h90 n) (omega (arith, h99 n, h999 n, last n)),
                in_order (rank p90 n) (rank p99 n) (h99 n) (omega (arith, h999 n, last n)),
                in_order (rank p99 n) (rank p999 n) (h999 n) (last n),
                in_order (rank p999 n) n (last n) (omega arith),
                omega (arith, sized, bound),
              )
        ]
