-- ===== src/OrderGateway/Tests.antt =====
-- Orders and reports on the wire, with one of two prices, and what the theorems say of them.
use nanosecond_trading_stack.Common.{
  ℕ, ◌<◌, ◌≡◌, refl, Bool, true, false, ◌==◌, none, List, [], ◌∷◌, ◌++◌, take, drop, length, arith,
  u64_mod,
}
use nanosecond_trading_stack.Oms.{Order, ExecutionReport}
use nanosecond_trading_stack.OrderGateway.Delivered.{message_of, opened, submit_order-delivers}
use nanosecond_trading_stack.OrderGateway.Framing.{
  stream, IsPolled, poll_execution-IsPolled, poll_execution-ends, poll_execution-report_bytes,
}
use nanosecond_trading_stack.OrderGateway.RoundTrip.{read_order, report_bytes}
use nanosecond_trading_stack.OrderGateway.Wire.{order_msg_bytes, read_report}
use nanosecond_trading_stack.OrderGateway.{
  Received, bytes, end_of_stream, interrupted, would_block, took, again, submit_order,
  poll_execution, fill_buffer, close, size_of_order_msg,
}
use nanosecond_trading_stack.Types.{buy, ioc, sent, fill}

to_bits : Bool → ℕ
to_bits true = 1
to_bits false = 0

of_bits : ℕ → Bool
of_bits n = n == 1

to_bits-small : (x : Bool) → to_bits x < u64_mod
unfolding to_bits
to_bits-small true = omega arith
to_bits-small false = omega arith

of_bits-to_bits : (x : Bool) → of_bits (to_bits x) ≡ x
unfolding to_bits of_bits
of_bits-to_bits true = refl
of_bits-to_bits false = refl

abbrev order : Order Bool
order = record {
  id = 77;
  price = true;
  qty = 300;
  filled_qty = 0;
  leaves_qty = 300;
  side = buy;
  order_type = ioc;
  status = sent;
  source_exchange_tick = 1000000;
  client_reaction_ns = 850;
  avg_fill_price = false;
}

submit_order-delivers_example :
    let (out, g) =
      submit_order
        (order_msg_bytes to_bits)
        order
        (took 20 ∷ again ∷ took 28 ∷ [])
        (opened (1 ∷ [])) in
    (read_order of_bits out ≡ message_of 2 order)
    × (length out ≡ size_of_order_msg)
    × (g ≡ opened (1 ∷ []))
submit_order-delivers_example =
    submit_order-delivers to_bits of_bits order 2 (took 20 ∷ again ∷ took 28 ∷ []) (1 ∷ [])
      to_bits-small of_bits-to_bits
      (record {
        id_small = omega arith;
        qty_small = omega arith;
        tick_small = omega arith;
        reaction_small = omega arith;
      })
      refl (tt, (tt, (tt, tt))) (omega arith)

abbrev report : ExecutionReport Bool
report = record {
  order_id = 77;
  exec_type = fill;
  fill_price = true;
  fill_qty = 300;
  leaves_qty = 0;
  timestamp_ns = 123456789;
}

abbrev wire_report : List ℕ
wire_report = report_bytes to_bits 1 7 9 report

-- The report comes in two pieces, with the beginning of another behind it.
abbrev cut : List Received
cut =
    bytes (take 25 wire_report)
    ∷ interrupted
    ∷ bytes (drop 25 wire_report ++ (1 ∷ 2 ∷ []))
    ∷ would_block
    ∷ []

poll_execution-report_bytes_example :
    let (_, g, left) = poll_execution (read_report of_bits) cut (opened []) in
    (report ≡ report) × (stream g left ≡ 1 ∷ 2 ∷ [])
unfolding poll_execution fill_buffer read_report to_bits of_bits
poll_execution-report_bytes_example =
    poll_execution-report_bytes to_bits of_bits 1 7 9 report report cut [] (1 ∷ 2 ∷ [])
      to_bits-small of_bits-to_bits
      (record {
        id_small = omega arith;
        code_small = tt;
        fill_small = omega arith;
        leaves_small = omega arith;
        time_small = omega arith;
      })
      refl refl refl

poll_execution-IsPolled_example :
    IsPolled
      (read_report of_bits)
      (stream (opened []) cut)
      (poll_execution (read_report of_bits) cut (opened []))
unfolding poll_execution fill_buffer
poll_execution-IsPolled_example = poll_execution-IsPolled (read_report of_bits) cut [] refl

poll_execution-ends_example :
    poll_execution (read_report of_bits) (bytes wire_report ∷ end_of_stream ∷ []) (opened [])
    ≡ (none, close (opened []), [])
unfolding to_bits
poll_execution-ends_example =
    poll_execution-ends (read_report of_bits) [] wire_report [] (omega arith)
