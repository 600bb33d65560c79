-- ===== src/Sampler/Report.antt =====
-- `print_tick_sampler_report` of src/instrument/tick_sampler.cpp: the values that it prints.
use nanosecond_trading_stack.Clock.{ticks_to_ns}
use nanosecond_trading_stack.Common.{ℕ, Option, none, some, ◌==◌, ltb, if◌then◌else◌}
use nanosecond_trading_stack.Double.{Double}
use nanosecond_trading_stack.Sampler.{TickSampler, TickSampleStats, compute_tick_stats}

-- Without samples only the number of dropped ones is printed, where there are any.
pub data SamplerReport : Type 0 where
  no_samples : Option ℕ → SamplerReport
  sampled : TickSampleStats → (p50_ns p99_ns max_ns : ℕ) → SamplerReport

module _ {ℓ} {D : Type ℓ} ⦃d : Double D⦄ where
  unfoldable pub print_tick_sampler_report : D → TickSampler → SamplerReport
  unfolding compute_tick_stats
  print_tick_sampler_report ns_per_tick sampler =
      let stats = compute_tick_stats sampler in
      if stats.samples == 0
      then no_samples (if ltb 0 stats.dropped then some stats.dropped else none)
      else sampled stats (ticks_to_ns ns_per_tick stats.p50_ticks)
          (ticks_to_ns ns_per_tick stats.p99_ticks) (ticks_to_ns ns_per_tick stats.max_ticks)
