-- ===== src/Stats.antt =====
-- include/nts/instrument/stats.h and `compute` of src/instrument/stats.cpp: the latencies between two
-- hops of the traces. The constants of the percentiles and `std::sqrt` are parameters.
pub mod Percentiles
pub mod Report
use nanosecond_trading_stack.Common.{
  ℕ, zero, suc, ◌+◌, ◌-◌, ◌≤◌, ◌&&◌, List, [], ◌∷◌, if◌then◌else◌, is_nil, length, get_or, arith,
  Bool-cases, inl, inr,
}
use nanosecond_trading_stack.Double.{Double}
use nanosecond_trading_stack.Clock.{ticks_to_ns}
use nanosecond_trading_stack.Sampler.Bounds.{get_mono, sort-IsSorted, length-sort, is_nil-length}
use nanosecond_trading_stack.Sampler.{sort}
use nanosecond_trading_stack.Tracer.{
  Hop, recv_start, recv_done, book_updated, strategy_done, order_sent, ack_received, ack_processed,
  fill_received, fill_processed, HopTracer, has, latency_ticks, trace, count,
}

pub record LatencyStats {ℓ} (D : Type ℓ) : Type ℓ where
  pub min_ns : ℕ
  pub max_ns : ℕ
  pub mean_ns : ℕ
  pub p50_ns : ℕ
  pub p90_ns : ℕ
  pub p99_ns : ℕ
  pub p999_ns : ℕ
  pub stddev_ns : D
  pub samples : ℕ

-- The segments by their hops.
abbrev pub per_hop_segments : List (Hop × Hop)
per_hop_segments =
    (recv_start, recv_done)
    ∷ (recv_done, book_updated)
    ∷ (book_updated, strategy_done)
    ∷ (strategy_done, order_sent)
    ∷ (order_sent, ack_received)
    ∷ (ack_received, ack_processed)
    ∷ (ack_received, fill_received)
    ∷ (fill_received, fill_processed)
    ∷ []

abbrev pub end_to_end_segments : List (Hop × Hop)
end_to_end_segments =
    (recv_done, strategy_done)
    ∷ (recv_done, order_sent)
    ∷ (recv_start, order_sent)
    ∷ (order_sent, fill_processed)
    ∷ []

module _ {ℓ} {D : Type ℓ} ⦃d : Double D⦄ where
  open d use {zero_d, add, sub, mul, div, of_uint, to_uint}

  -- The latencies of `n` traces from index `i` on, where both hops are recorded.
  unfoldable pub latencies_from : D → HopTracer → Hop → Hop → ℕ → ℕ → List ℕ
  latencies_from ns_per_tick tracer from to zero i = []
  latencies_from ns_per_tick tracer from to (suc n) i =
      let t = trace i tracer in
      let rest = latencies_from ns_per_tick tracer from to n (i + 1) in
      if has from t && has to t
      then ticks_to_ns ns_per_tick (latency_ticks from to t) ∷ rest
      else rest

  pub latencies_from_bound :
      (ns_per_tick : D) (tracer : HopTracer) (from to : Hop) (n i : ℕ)
      → length (latencies_from ns_per_tick tracer from to n i) ≤ n
  unfolding latencies_from
  latencies_from_bound ns_per_tick tracer from to zero i = omega arith
  latencies_from_bound ns_per_tick tracer from to (suc n) i =
      let rest = latencies_from_bound ns_per_tick tracer from to n (i + 1) in
      elim (Bool-cases (has from (trace i tracer) && has to (trace i tracer))) [
        | inl e ↦ rw e (omega arith)
        | inr e ↦ rw e (omega arith)
      ]

  unfoldable pub sum_d : D → List ℕ → D
  sum_d sum [] = sum
  sum_d sum (v ∷ vs) = sum_d (add sum (of_uint v)) vs

  unfoldable pub sq_sum_d : D → D → List ℕ → D
  sq_sum_d mean sum [] = sum
  sq_sum_d mean sum (v ∷ vs) =
      let diff = sub (of_uint v) mean in sq_sum_d mean (add sum (mul diff diff)) vs

  module _ (p50 p90 p99 p999 : D) (sqrt : D → D) where
    -- `latencies[idx]`, with 0 beyond the end, where the code has no defined value.
    abbrev pub percentile : List ℕ → D → ℕ
    percentile sorted p = get_or sorted (to_uint (mul p (of_uint (length sorted - 1)))) 0

    abbrev pub stats_of : List ℕ → LatencyStats D
    stats_of sorted =
        let n = of_uint (length sorted) in
        let mean = div (sum_d zero_d sorted) n in
        record {
          min_ns = get_or sorted 0 0;
          max_ns = get_or sorted (length sorted - 1) 0;
          mean_ns = to_uint mean;
          p50_ns = percentile sorted p50;
          p90_ns = percentile sorted p90;
          p99_ns = percentile sorted p99;
          p999_ns = percentile sorted p999;
          stddev_ns = sqrt (div (sq_sum_d mean zero_d sorted) n);
          samples = length sorted;
        }

    abbrev pub no_stats : LatencyStats D
    no_stats = record {
      min_ns = 0;
      max_ns = 0;
      mean_ns = 0;
      p50_ns = 0;
      p90_ns = 0;
      p99_ns = 0;
      p999_ns = 0;
      stddev_ns = zero_d;
      samples = 0;
    }

    unfoldable pub compute : D → HopTracer → Hop → Hop → LatencyStats D
    compute ns_per_tick tracer from to =
        let latencies = latencies_from ns_per_tick tracer from to (count tracer) 0 in
        if is_nil latencies then no_stats else stats_of (sort latencies)

    -- The least latency is not above the greatest, and there are no more samples than traces that
    -- the ring holds.
    pub compute_bounds :
        (ns_per_tick : D) (tracer : HopTracer) (from to : Hop)
        → let st = compute ns_per_tick tracer from to in
          (st.min_ns ≤ st.max_ns) × (st.samples ≤ count tracer)
    unfolding compute
    compute_bounds ns_per_tick tracer from to =
        let xs = latencies_from ns_per_tick tracer from to (count tracer) 0 in
        let bound = latencies_from_bound ns_per_tick tracer from to (count tracer) 0 in
        let n = length-sort xs in
        elim (Bool-cases (is_nil xs)) [
          | inl e ↦ rw e (omega arith, omega arith)
          | inr e ↦
              let some_there = is_nil-length xs e in
              rw e (
                get_mono (sort xs) 0 (length (sort xs) - 1) (sort-IsSorted xs) (omega arith)
                    (omega arith),
                omega arith,
              )
        ]
