-- ===== src/Pipeline/Loop.antt =====
-- src/main.cpp: the loop of `run_pipeline`, with the handling of execution reports. The results of
-- the sockets and clocks in a round are its input.
use nanosecond_trading_stack.Common.{
  ℕ, zero, suc, ◌+◌, ◌*◌, ◌%◌, ◌-◌, ◌^◌, Bool, ◌&&◌, ◌||◌, not, Option, none, some, List, [], ◌∷◌,
  ◌++◌, ltb, leb, if◌then◌else◌, length, u64_mod,
}
use nanosecond_trading_stack.Double.{Double}
use nanosecond_trading_stack.MarketData.{MdMsg, MdReceiver, Recv, poll}
use nanosecond_trading_stack.Oms.{ExecutionReport, on_execution}
use nanosecond_trading_stack.OrderGateway.{Received, WireOrderMsg, Sent, bytes, poll_execution}
use nanosecond_trading_stack.Pipeline.{State, Arrival, Clock, process_market_signal_and_order}
use nanosecond_trading_stack.Strategy.{StrategyParams}
use nanosecond_trading_stack.TickRing as Ring
use nanosecond_trading_stack.Tracer as Trace
use nanosecond_trading_stack.Types.{
  new_ack, fill, partial_fill, cancel_ack, reject, cancel_reject, other_code,
}

-- The bytes that results of `recv` bring.
abbrev bytes_of : Received → ℕ
bytes_of (bytes bs) = length bs
bytes_of _ = 0

abbrev pub total_bytes : List Received → ℕ
total_bytes [] = 0
total_bytes (r ∷ rs) = bytes_of r + total_bytes rs

-- `static_cast<uint64_t>` of the pattern of an `int`, and its test against 0.
abbrev pub int_to_uint64 : ℕ → ℕ
int_to_uint64 x = if ltb x (2 ^ 31) then x else x + u64_mod - 2 ^ 32

abbrev pub is_positive : ℕ → Bool
is_positive x = ltb 0 x && ltb x (2 ^ 31)

-- What a round gets from outside: `running`, the clock, what the new variables `ref_msg` and
-- `target_msg` hold before anything is written, the results of the sockets, `raw_ticks` after each poll, and `raw_ticks` before and after the handling of each report.
pub record Round {ℓ} (D : Type ℓ) : Type ℓ where
  pub running : Bool
  pub now : ℕ
  pub clock : Clock
  pub ref_msg : MdMsg D
  pub ref_input : List (Recv D)
  pub ref_ticks : ℕ
  pub target_msg : MdMsg D
  pub target_input : List (Recv D)
  pub target_ticks : ℕ
  pub send_results : List Sent
  pub reports : List Received
  pub report_ticks : ℕ → ℕ × ℕ

-- The state of the loop: that of a round, the receivers, the count of rounds, and the bytes sent.
pub record Pipeline {ℓ} (D : Type ℓ) : Type ℓ where
  pub state : State D
  pub ref_md : MdReceiver
  pub target_md : MdReceiver
  pub iterations : ℕ
  pub sent : List ℕ

module _ {ℓ} {D : Type ℓ} ⦃d : Double D⦄ where
  -- What every report but `NewAck` does to the rings and the tracer.
  abbrev finish_order : ℕ → Option ℕ → ℕ × ℕ → State D → State D
  finish_order id none ticks s = record s { order_sent_ticks = Ring.erase id s.order_sent_ticks }
  finish_order id (some ack_ticks) (received, processed) s = record s {
    tracer = Trace.record_ack_fill ack_ticks received processed s.tracer;
    ack_received_ticks = Ring.erase id s.ack_received_ticks;
    order_sent_ticks = Ring.erase id s.order_sent_ticks;
  }

  abbrev acknowledge_order : ℕ → Option ℕ → ℕ × ℕ → State D → State D
  acknowledge_order id none ticks s = s
  acknowledge_order id (some sent_ticks) (received, processed) s = record s {
    tracer = Trace.record_order_ack sent_ticks received processed s.tracer;
    order_sent_ticks = Ring.erase id s.order_sent_ticks;
    ack_received_ticks = Ring.set id received s.ack_received_ticks;
  }

  -- The `switch` of `process_execution`, with what the rings gave before.
  unfoldable record_execution : ExecutionReport D → Option ℕ → Option ℕ → ℕ × ℕ → State D → State D
  record_execution exec sent_ticks ack_ticks ticks s = elim exec.exec_type [
    | new_ack ↦ acknowledge_order exec.order_id sent_ticks ticks s
    | fill ↦ finish_order exec.order_id ack_ticks ticks s
    | partial_fill ↦ finish_order exec.order_id ack_ticks ticks s
    | cancel_ack ↦ finish_order exec.order_id ack_ticks ticks s
    | reject ↦ finish_order exec.order_id ack_ticks ticks s
    | cancel_reject ↦ finish_order exec.order_id ack_ticks ticks s
    | other_code _ ↦ s
  ]

  unfoldable pub process_execution : ExecutionReport D → ℕ × ℕ → State D → State D
  unfolding record_execution
  process_execution exec ticks s =
      record_execution exec (Ring.get exec.order_id s.order_sent_ticks)
        (Ring.get exec.order_id s.ack_received_ticks) ticks
        (record s { oms = on_execution exec s.oms })

  -- `while (exchange.poll_execution(exec)) process_execution(exec);`. The first argument is fuel,
  -- the last one counts the reports; what is left of the input comes back.
  unfoldable pub drain :
      ℕ
      → (List ℕ → ExecutionReport D)
      → (ℕ → ℕ × ℕ)
      → List Received
      → ℕ
      → State D
      → State D × List Received
  drain zero decode ticks input n s = (s, input)
  drain (suc fuel) decode ticks input n s =
      let (exec, gateway, left) = poll_execution decode input s.gateway in
      let s' = record s { gateway = gateway } in
      elim exec [
        | none ↦ (s', left)
        | some e ↦ drain fuel decode ticks left (n + 1) (process_execution e (ticks n) s')
      ]

  -- A report takes bytes away, so as many rounds as bytes and one more are enough.
  abbrev drain_fuel : List Received → State D → ℕ
  drain_fuel input s = suc (length s.gateway.read_buf + total_bytes input)

  abbrev drain_all : (List ℕ → ExecutionReport D) → (ℕ → ℕ × ℕ) → List Received → State D → State D
  drain_all decode ticks input s = (drain (drain_fuel input s) decode ticks input 0 s).0

  abbrev arrival : ℕ → Bool → MdMsg D → Option (Arrival D)
  arrival ticks got m = if got then some (record { msg = m; receive_ticks = ticks }) else none

  -- What a round does with the results of its polls.
  unfoldable pub handle_data :
      StrategyParams D
      → D
      → (WireOrderMsg D → List ℕ)
      → (List ℕ → ExecutionReport D)
      → Round D
      → Option (Arrival D)
      → Option (Arrival D)
      → State D
      → List ℕ × State D
  unfolding process_market_signal_and_order
  handle_data params ns_per_tick encode decode i none none s = (
    [],
    drain_all decode i.report_ticks i.reports (record s { tracer = Trace.discard_trace s.tracer }),
  )
  handle_data params ns_per_tick encode decode i ref_data target_data s =
      let s1 = record s { tracer = Trace.record_at Trace.recv_done i.clock.recv_done s.tracer } in
      let (out, s2) =
        process_market_signal_and_order params ns_per_tick encode i.clock i.send_results ref_data
          target_data s1 in
      let s3 = drain_all decode i.report_ticks i.reports s2 in
      (out, record s3 { tracer = Trace.end_trace s3.tracer })

  unfoldable pub run_round :
      StrategyParams D
      → D
      → (WireOrderMsg D → List ℕ)
      → (List ℕ → ExecutionReport D)
      → Round D
      → Pipeline D
      → Pipeline D
  unfolding handle_data
  run_round params ns_per_tick encode decode i p =
      let started =
        Trace.record_at Trace.recv_start i.clock.recv_start (Trace.start_trace p.state.tracer) in
      let (got_ref, ref_msg, ref_md, _) = poll i.ref_msg p.ref_md i.ref_input in
      let (got_target, target_msg, target_md, _) = poll i.target_msg p.target_md i.target_input in
      let (out, s) =
        handle_data params ns_per_tick encode decode i (arrival i.ref_ticks got_ref ref_msg)
          (arrival i.target_ticks got_target target_msg) (record p.state { tracer = started }) in
      record {
        state = s;
        ref_md = ref_md;
        target_md = target_md;
        iterations = (p.iterations + 1) % u64_mod;
        sent = p.sent ++ out;
      }

  -- The loop, up to the round in which it breaks off, or to the end of the inputs.
  unfoldable pub run_pipeline :
      StrategyParams D
      → D
      → (WireOrderMsg D → List ℕ)
      → (List ℕ → ExecutionReport D)
      → ℕ
      → ℕ
      → List (Round D)
      → Pipeline D
      → Pipeline D
  unfolding run_round
  run_pipeline params ns_per_tick encode decode start_ns duration_sec [] p = p
  run_pipeline params ns_per_tick encode decode start_ns duration_sec (i ∷ is) p =
      let deadline_ns = (start_ns + int_to_uint64 duration_sec * 1000000000) % u64_mod in
      let next = run_round params ns_per_tick encode decode i p in
      let rest = run_pipeline params ns_per_tick encode decode start_ns duration_sec is next in
      if not i.running || (is_positive duration_sec && leb deadline_ns i.now) then p else rest
