-- ===== src/Stats/Report.antt =====
-- `print_report` of src/instrument/stats.cpp, as values: the counts of traces and the lines of the
-- table. How they are written is not modelled.
use nanosecond_trading_stack.Common.{
  ℕ, zero, suc, ◌+◌, ◌==◌, Option, none, some, List, map, if◌then◌else◌,
}
use nanosecond_trading_stack.Double.{Double}
use nanosecond_trading_stack.Stats.{LatencyStats, per_hop_segments, compute}
use nanosecond_trading_stack.Tracer.{
  Hop, recv_done, order_sent, ack_processed, HopTracer, has, trace, count, wrapped,
}

-- The loop that counts the traces with a hop, over `n` traces from index `i` on.
unfoldable pub count_hop : Hop → HopTracer → ℕ → ℕ → ℕ
count_hop hop tracer zero i = 0
count_hop hop tracer (suc n) i =
    let rest = count_hop hop tracer n (i + 1) in if has hop (trace i tracer) then rest + 1 else rest

pub record Report {ℓ} (D : Type ℓ) : Type ℓ where
  pub recorded : ℕ
  pub capacity : ℕ
  pub total_traces : Option ℕ  -- where the ring has wrapped
  pub with_data : ℕ
  pub with_orders : ℕ
  pub with_acks : ℕ
  pub per_hop : List (Option (LatencyStats D))

-- `print_stats_line`: a segment without a sample has no data.
abbrev pub stats_line {ℓ} : {D : Type ℓ} → LatencyStats D → Option (LatencyStats D)
stats_line stats = if stats.samples == 0 then none else some stats

module _ {ℓ} {D : Type ℓ} ⦃d : Double D⦄ (p50 p90 p99 p999 : D) (sqrt : D → D) where
  unfoldable pub print_report : D → HopTracer → Report D
  unfolding compute
  print_report ns_per_tick tracer = record {
    recorded = count tracer;
    capacity = tracer.capacity;
    total_traces = if wrapped tracer then some tracer.total_count else none;
    with_data = count_hop recv_done tracer (count tracer) 0;
    with_orders = count_hop order_sent tracer (count tracer) 0;
    with_acks = count_hop ack_processed tracer (count tracer) 0;
    per_hop =
        map (λ seg. stats_line (compute p50 p90 p99 p999 sqrt ns_per_tick tracer seg.0 seg.1))
          per_hop_segments;
  }
