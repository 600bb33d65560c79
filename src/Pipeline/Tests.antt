-- ===== src/Pipeline/Tests.antt =====
-- Small runs of the pipeline, and what the theorems say of them.
use nanosecond_trading_stack.Common.{
  ℕ, zero, suc, ◌≡◌, ◌⊎◌, refl, true, false, none, some, List, [], ◌∷◌, add32, length, arith,
}
use nanosecond_trading_stack.Oms.Tests.{ticks_double, one_sent, one_sent-Reachable, fill_report}
use nanosecond_trading_stack.Oms.OrderMap.{map_find, find_from, map_insert, insert_from, map_hash}
use nanosecond_trading_stack.Arguments.{default_args}
use nanosecond_trading_stack.MarketData.{MdMsg, quote, Recv, datagram, would_block as feed_empty}
use nanosecond_trading_stack.Oms.{
  Oms, ExecutionReport, new, signed_qty, set_reference_price, send_new, on_execution, execute,
  on_fill, free_slot, settle_fill, check_risk, alloc_slot,
}
use nanosecond_trading_stack.OrderGateway.{Received, bytes, would_block, took}
use nanosecond_trading_stack.Pipeline.Draining.{drain-Ends}
use nanosecond_trading_stack.Pipeline.Pending.{process_market_signal_and_order_waits}
use nanosecond_trading_stack.Strategy.{default_params}
use nanosecond_trading_stack.Pipeline.Exit.{choose_order-repeats, choose_order-squares}
use nanosecond_trading_stack.Pipeline.Loop.{drain, Round, Pipeline, run_pipeline}
use nanosecond_trading_stack.Pipeline.Main.{
  Startup, main, main-Reachable, all_calls, HasOpened, close_all,
}
use nanosecond_trading_stack.Oms.Reachable.{Reachable, reported}
use nanosecond_trading_stack.Pipeline.{
  Clock, process_market_signal_and_order, choose_order, State, Wanted, build_exit_order,
}
use nanosecond_trading_stack.QuoteBook as Book
use nanosecond_trading_stack.TickRing as Ring
use nanosecond_trading_stack.Tracer as Trace
use nanosecond_trading_stack.Types.{sell, fill, ioc, new_ack}

abbrev pub quote_of : ℕ → MdMsg ℕ
quote_of seq = record {
  header = record {
    timestamp_ns = 0;
    exchange_tick = 7;
    instrument_id = 1;
    sequence_num = seq;
    type = quote;
  };
  bid_price = 100;
  ask_price = 101;
  bid_size = 5;
  ask_size = 6;
  reference_mid = 0;
}

abbrev pub feed : List (Recv ℕ)
feed =
    datagram 56 (quote_of 5) ∷ datagram 10 (quote_of 9) ∷ datagram 56 (quote_of 6) ∷ feed_empty ∷ []

abbrev quoted : Book.OrderBook ℕ
quoted =
    Book.on_reference (record (quote_of 5) { reference_mid = 100 })
      (Book.on_quote (quote_of 5) Book.new)

abbrev exit_order : Wanted ℕ
exit_order = record { side = sell; price = 100; qty = 3 }

exit_wanted : build_exit_order quoted 3 ≡ some exit_order
unfolding build_exit_order Book.on_reference Book.on_quote
exit_wanted = refl

abbrev pub blank_trace : ℕ → Trace.TraceRecord
blank_trace _ = record { ticks = λ _. 0; recorded = λ _. false }

abbrev start : State ℕ
start = record {
  book = quoted;
  oms = new;
  gateway = record { is_open = true; read_buf = [] };
  tracer = Trace.new blank_trace 16;
  latest_source_exchange_tick = 0;
  latest_md_receive_ticks = 0;
  order_sent_ticks = Ring.new;
  ack_received_ticks = Ring.new;
}

-- A report of a fill for the order 40.
abbrev decode : List ℕ → ExecutionReport ℕ
decode bs = record {
  order_id = length bs;
  exec_type = fill;
  fill_price = 1;
  fill_qty = 1;
  leaves_qty = 0;
  timestamp_ns = 0;
}

abbrev zeros : ℕ → List ℕ
zeros zero = []
zeros (suc n) = 0 ∷ zeros n

-- A whole report and the beginning of another.
abbrev input : List Received
input = bytes (zeros 42) ∷ would_block ∷ []

drain-Ends_example :
    drain 43 decode (λ n. (n, n)) input 0 start ≡ drain 60 decode (λ n. (n, n)) input 0 start
drain-Ends_example = drain-Ends decode 43 60 (λ n. (n, n)) input 0 start (omega arith) (omega arith)

abbrev waiting : State ℕ
waiting = record start { oms = record new { pending_new = 1 } }

abbrev clock : Clock
clock = record {
  recv_start = 1;
  recv_done = 2;
  book_updated = 3;
  strategy_done = 4;
  sent = 5;
  order_sent = 6;
}

process_market_signal_and_order_waits_example :
    let r =
      process_market_signal_and_order default_params 1
        (λ m. [])
        clock
        []
        none
        (some (record { msg = quote_of 5; receive_ticks = 2 }))
        waiting in
    (r.0 ≡ [])
    × (r.1.gateway ≡ waiting.gateway)
    × (r.1.oms ≡ set_reference_price (Book.mid_price r.1.book) waiting.oms)
process_market_signal_and_order_waits_example =
    process_market_signal_and_order_waits default_params 1 (λ m. []) clock [] none
      (some (record { msg = quote_of 5; receive_ticks = 2 })) waiting (omega arith)

-- A round with quotes, an order and a report.
abbrev busy : Round ℕ
busy = record {
  running = true;
  now = 0;
  clock = clock;
  ref_msg = quote_of 0;
  ref_input = [];
  ref_ticks = 0;
  target_msg = quote_of 0;
  target_input = feed;
  target_ticks = 2;
  send_results = took 48 ∷ [];
  reports = input;
  report_ticks = λ n. (n, n);
}

abbrev opening : Startup ℕ
opening = record {
  ref_calls = record {
    socket = true;
    set_nonblocking = true;
    bind = true;
    group_address = true;
    add_membership = true;
  };
  target_calls = record {
    socket = true;
    set_nonblocking = true;
    bind = true;
    group_address = true;
    add_membership = true;
  };
  gateway_calls = record { socket = true; connect = true };
  uninitialized = blank_trace;
  ns_per_tick = 1;
  start_ns = 0;
}

main-Reachable_example :
    let r = main (λ m. zeros 48) decode default_args opening (busy ∷ busy ∷ []) in
    ((all_calls opening ≡ false) × (r ≡ (1, none)))
    ⊎ ((all_calls opening ≡ true)
        × ((first : Pipeline ℕ) × HasOpened first
            × (let p = close_all (
                  run_pipeline default_params 1
                    (λ m. zeros 48)
                    decode
                    0
                    default_args.duration_sec
                    (busy ∷ busy ∷ [])
                    first) in
                (r ≡ (0, some p))
                × Reachable p.state.oms
                × (p.state.gateway.is_open ≡ false)
                × (p.ref_md.is_open ≡ false)
                × (p.target_md.is_open ≡ false))))
main-Reachable_example =
    main-Reachable (λ m. zeros 48) decode default_args opening (busy ∷ busy ∷ []) (omega arith)

-- A position of 3, and the exit order that is sent for it and acknowledged.
bought_three : Oms ℕ
bought_three = on_execution fill_report one_sent

exit_sent :
    send_new sell 100 3 ioc bought_three ≡ (some 0, (send_new sell 100 3 ioc bought_three).1)
unfolding bought_three on_execution map_find find_from map_insert insert_from map_hash execute
    on_fill free_slot settle_fill send_new check_risk alloc_slot
exit_sent = refl

choose_order-repeats_example :
    choose_order true default_params quoted (
      on_execution
        (record fill_report { order_id = 2; exec_type = new_ack })
        (send_new sell 100 3 ioc bought_three).1)
    ≡ some exit_order
unfolding bought_three on_execution map_find find_from map_insert insert_from map_hash execute
    on_fill free_slot settle_fill
choose_order-repeats_example =
    choose_order-repeats true default_params quoted bought_three
      (send_new sell 100 3 ioc bought_three).1 exit_order 0
      (record fill_report { order_id = 2; exec_type = new_ack })
      (reported fill_report one_sent-Reachable) refl exit_wanted exit_sent refl refl

exit_chosen : choose_order true default_params quoted bought_three ≡ some exit_order
unfolding choose_order build_exit_order Book.on_reference Book.on_quote bought_three on_execution
    map_find find_from map_insert insert_from map_hash execute on_fill free_slot settle_fill
exit_chosen = refl

choose_order-squares_example :
    (bought_three.pending_new ≡ 0)
    × ((add32 bought_three.position (signed_qty sell 3) ≡ 0)
        ⊎ ((bought_three.position ≡ 0) × (3 ≡ (default_params {D = ℕ}).order_size)))
unfolding bought_three on_execution map_find find_from map_insert insert_from map_hash execute
    on_fill free_slot settle_fill
choose_order-squares_example =
    choose_order-squares true default_params quoted bought_three exit_order (omega arith)
      exit_chosen
