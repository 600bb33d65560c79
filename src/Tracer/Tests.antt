-- ===== src/Tracer/Tests.antt =====
-- Small runs of the ring of traces, and what the theorems say of them.
use nanosecond_trading_stack.Common.{
  ℕ, ◌+◌, ◌-◌, ◌*◌, ◌^◌, ◌≤◌, ◌<◌, ◌≡◌, refl, inl, min, false, List, [], ◌∷◌, ◌++◌, length, get_or,
  arith,
}
use nanosecond_trading_stack.Tracer.Capacity.{round_up_pow2-least}
use nanosecond_trading_stack.Tracer.Journal.{no_marks, marks_of, new_journal, Call, calls, notes}
use nanosecond_trading_stack.Tracer.Window.{trace-finished, trace-discarded}
use nanosecond_trading_stack.Tracer.{
  recv_start, recv_done, order_sent, TraceRecord, new, count, trace, discard_trace, round_up_pow2,
  start_trace, end_trace, record_at, record_order_ack,
}

-- The records before anything is written.
abbrev blank : ℕ → TraceRecord
blank n = record { ticks = λ _. n; recorded = λ _. false }

-- A trace that ends, with its first two hops.
abbrev one_trace : ℕ → List Call
one_trace ticks =
    Call.start ∷ Call.hop_at recv_start ticks ∷ Call.hop_at recv_done (ticks + 1) ∷ Call.finish ∷ []

-- Five traces, with a report behind the open fifth one.
abbrev some_calls : List Call
some_calls =
    one_trace 10
    ++ (one_trace 20
        ++ (one_trace 30
            ++ (one_trace 40
                ++ (Call.start
                    ∷ Call.hop_at order_sent 50
                    ∷ Call.order_ack 50 51 52
                    ∷ Call.finish
                    ∷ []))))

trace-finished_example :
    let t = calls some_calls (new blank 3) in
    let finished = (notes some_calls new_journal).finished in
    (count t ≡ min (length finished) (round_up_pow2 3))
    × (marks_of (trace 2 t) ≡ get_or finished (count t - 1 - 2) no_marks)
unfolding count calls round_up_pow2 start_trace end_trace record_at record_order_ack
trace-finished_example =
    trace-finished blank 3 some_calls 2 (omega arith) (omega arith) (omega arith) (omega arith)
      (inl (omega arith))

trace-discarded_example :
    marks_of (trace 0 (discard_trace (calls (some_calls ++ (Call.start ∷ [])) (new blank 4))))
    ≡ no_marks
unfolding notes round_up_pow2
trace-discarded_example =
    trace-discarded blank 4 (some_calls ++ (Call.start ∷ [])) no_marks (omega arith) (omega arith)
      (omega arith) refl (omega arith)

round_up_pow2-least_example : (k : ℕ) × (round_up_pow2 5 ≡ 2 ^ k) × (5 ≤ 2 ^ k) × (2 ^ k < 2 * 5)
round_up_pow2-least_example = round_up_pow2-least 5 (omega arith) (omega arith)
