-- ===== src/Tests.antt =====
-- Small runs of the parts around the books, and what the theorems say of them.
use nanosecond_trading_stack.Common.{ℕ, ◌≤◌, ◌≡◌, refl, true, [], ◌∷◌, arith}
use nanosecond_trading_stack.Oms.Tests.{ticks_double}
use nanosecond_trading_stack.Results.Names.{IsTime, report_path_injective}
use nanosecond_trading_stack.Results.{Tm}
use nanosecond_trading_stack.Stats.Percentiles.{compute-ordered}
use nanosecond_trading_stack.Stats.{compute}
use nanosecond_trading_stack.MarketData.{MdReceiver, poll, poll_from, is_message, datagram, failed}
use nanosecond_trading_stack.Tracer as Trace
use nanosecond_trading_stack.Pipeline.Tests.{blank_trace, quote_of}
use nanosecond_trading_stack.Clock.{Timespec}

abbrev receiver : MdReceiver
receiver = record {
  is_open = true;
  packets = 1;
  drops = 0;
  quotes = 1;
  references = 0;
  last_seq = 4;
}

-- A message, and then an error of the socket: `poll` says that it got one, and its caller has none.
not_written :
    (poll (quote_of 0) receiver (datagram 56 (quote_of 5) ∷ failed ∷ [])).0 ≡ true
    × ((poll (quote_of 0) receiver (datagram 56 (quote_of 5) ∷ failed ∷ [])).1 ≡ quote_of 0)
unfolding poll poll_from is_message
not_written = (refl, refl)

-- Two hops of one trace.
abbrev traced : Trace.HopTracer
traced = Trace.end_trace (
    Trace.record_at Trace.recv_done 9
      (Trace.record_at Trace.recv_start 4 (Trace.start_trace (Trace.new blank_trace 16))))

compute-ordered_example :
    let st = compute {D = ℕ} 0 0 1 1 (λ x. x) 1 traced Trace.recv_start Trace.recv_done in
    (st.min_ns ≤ st.p50_ns)
    × (st.p50_ns ≤ st.p90_ns)
    × (st.p90_ns ≤ st.p99_ns)
    × (st.p99_ns ≤ st.p999_ns)
    × (st.p999_ns ≤ st.max_ns)
    × (st.samples ≤ Trace.count traced)
compute-ordered_example =
    compute-ordered {D = ℕ} 0 0 1 1 (λ x. x) 1 traced Trace.recv_start Trace.recv_done
      (λ n. omega arith) (λ n. omega arith) (λ n. omega arith) (λ n. omega arith)

abbrev before : Timespec
before = record { tv_sec = 5; tv_nsec = 999999999 }

abbrev after : Timespec
after = record { tv_sec = 6; tv_nsec = 50000000 }

abbrev noon : Tm
noon = record { tm_year = 126; tm_mon = 10; tm_mday = 26; tm_hour = 12; tm_min = 0; tm_sec = 0 }

noon-IsTime : IsTime noon
noon-IsTime = record {
  year = omega arith;
  mon = omega arith;
  mday = omega arith;
  hour = omega arith;
  minute = omega arith;
  second = omega arith;
}

report_path_injective_example : noon ≡ noon
report_path_injective_example = report_path_injective noon noon noon-IsTime noon-IsTime refl
