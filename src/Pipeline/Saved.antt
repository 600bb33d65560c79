-- ===== src/Pipeline/Saved.antt =====
-- The end of `run_pipeline` in src/main.cpp: the reports that it prints, and the file that it saves
-- them in. Tracing is on and the profile of the performance counters off.
use nanosecond_trading_stack.Common.{
  ℕ, Bool, List, [], ◌∷◌, ◌++◌, map, if◌then◌else◌, sub64, ◌+◌, ◌%◌, ◌<◌, ◌≡◌, length, u32_mod,
  u64_mod,
}
use nanosecond_trading_stack.Double.{Double}
use nanosecond_trading_stack.Oms.Balanced.{Reachable-IsBalanced}
use nanosecond_trading_stack.Oms.Reachable.{Reachable}
use nanosecond_trading_stack.Oms.{ExecutionReport}
use nanosecond_trading_stack.OrderGateway.{WireOrderMsg}
use nanosecond_trading_stack.Pipeline.Loop.{Pipeline, Round, run_pipeline}
use nanosecond_trading_stack.Pipeline.Reached.{run_pipeline-Reachable}
use nanosecond_trading_stack.Strategy.{StrategyParams}
use nanosecond_trading_stack.Results.{
  TradingReport, print_trading_report, mkdirs, live_results_dir, Tm, report_path,
}
use nanosecond_trading_stack.Stats.Report.{Report, print_report}

-- What one call of the report functions prints, the collisions of the two rings last.
pub record RunReport {ℓ} (D : Type ℓ) : Type ℓ where
  pub latency : Report D
  pub trading : TradingReport D
  pub order_sent_collisions : ℕ
  pub ack_received_collisions : ℕ

-- What the end of a run does to the world outside.
pub data Effect {ℓ} (D : Type ℓ) : Type ℓ where
  print : RunReport D → Effect D
  make_directory : List ℕ → Effect D
  write_file : List ℕ → RunReport D → Effect D
  print_saved : List ℕ → Effect D
  print_open_error : Effect D

module _ {ℓ} {D : Type ℓ} ⦃d : Double D⦄ (p50 p90 p99 p999 : D) (sqrt : D → D) where
  open d use {div, of_uint}

  unfoldable pub run_report : D → ℕ → ℕ → Pipeline D → RunReport D
  unfolding print_report print_trading_report
  run_report ns_per_tick start_ns now p =
      let elapsed_s = div (of_uint (sub64 now start_ns)) (of_uint 1000000000) in
      record {
        latency = print_report p50 p90 p99 p999 sqrt ns_per_tick p.state.tracer;
        trading =
            print_trading_report p.ref_md p.target_md p.state.oms p.state.book elapsed_s
              p.iterations;
        order_sent_collisions = p.state.order_sent_ticks.collisions;
        ack_received_collisions = p.state.ack_received_ticks.collisions;
      }

  -- With the result of `fopen`, and the time of the file's name.
  unfoldable pub finish_run : D → ℕ → ℕ → Bool → Bool → Tm → Pipeline D → List (Effect D)
  unfolding run_report
  finish_run ns_per_tick start_ns now save_report opened t p =
      let report = run_report ns_per_tick start_ns now p in
      let directories = map make_directory (mkdirs live_results_dir) in
      if save_report
      then print report
        ∷ (directories
            ++ (if opened
                then write_file (report_path t) report ∷ print_saved (report_path t) ∷ []
                else print_open_error ∷ []))
      else print report ∷ []

  -- The report at the end of the rounds, from a reachable order management system, whose ids cannot
  -- run out: the filled quantity that it shows is that of its buys and sells together, as 32-bit
  -- integers.
  pub run_report-adds_up :
      (params : StrategyParams D) (ns_per_tick : D) (encode : WireOrderMsg D → List ℕ)
      (decode : List ℕ → ExecutionReport D) (start_ns now duration_sec : ℕ)
      (rounds : List (Round D)) (p : Pipeline D)
      → Reachable p.state.oms
      → p.state.oms.next_id + length rounds < u64_mod
      → let last = run_pipeline params ns_per_tick encode decode start_ns duration_sec rounds p in
        let shown = (run_report ns_per_tick start_ns now last).trading in
        shown.fill_qty % u32_mod ≡ (shown.buy_qty + shown.sell_qty) % u32_mod
  unfolding run_report print_trading_report
  run_report-adds_up params ns_per_tick encode decode start_ns now duration_sec rounds p r small =
      (Reachable-IsBalanced (
        run_pipeline-Reachable params ns_per_tick encode decode start_ns duration_sec rounds p r
          small)).1
