-- ===== src/Pipeline/Reached.antt =====
-- The order management system over the rounds of src/main.cpp.
use nanosecond_trading_stack.Common.{
  ℕ, zero, suc, ◌+◌, ◌*◌, ◌%◌, ◌≤◌, ◌<◌, ◌≡◌, refl, sym, ap, ◌∙◌, Bool, true, false, ◌||◌, ◌&&◌,
  not, Option, none, some, List, [], ◌∷◌, leb, ◌==◌, arith, inl, inr, Bool-cases, Option-cases,
  u64_mod, length, subst,
}
use nanosecond_trading_stack.Double.{Double}
use nanosecond_trading_stack.Oms.OrderMap.{order_map_size, map_find}
use nanosecond_trading_stack.Oms.Ownership.Placed.{alloc_slot-next_id}
use nanosecond_trading_stack.Oms.Ownership.Handlers.{settle_side-core}
use nanosecond_trading_stack.Oms.Ownership.{Core}
use nanosecond_trading_stack.Oms.Reachable.{Reachable, priced, submitted, stamped, reported}
use nanosecond_trading_stack.Oms.{
  Oms, ExecutionReport, set_reference_price, send_new, check_risk, alloc_slot, max_orders,
  on_execution, execute, on_new_ack, on_fill, on_cancel_ack, on_reject, free_slot, filled_order,
  is_fillable,
}
use nanosecond_trading_stack.OrderGateway.{Received, Sent, WireOrderMsg, poll_execution}
use nanosecond_trading_stack.Pipeline.Loop.{
  Round, Pipeline, process_execution, drain, handle_data, run_round, run_pipeline, int_to_uint64,
  is_positive,
}
use nanosecond_trading_stack.Pipeline.Pending.{on_ref_data_keeps, on_target_data_keeps}
use nanosecond_trading_stack.Pipeline.{
  State, Arrival, Clock, Wanted, on_ref_data, on_target_data, send_wanted, submit_ready,
  process_market_signal_and_order,
}
use nanosecond_trading_stack.Strategy.{StrategyParams}
use nanosecond_trading_stack.Types.{
  Side, OrderType, is_sent, ioc, ExecType, new_ack, fill, partial_fill, cancel_ack, reject,
  cancel_reject, other_code,
}

module _ {ℓ} {D : Type ℓ} ⦃d : Double D⦄ where
  on_fill-next_id :
      (is_fill : Bool) (fq : ℕ) (price : D) (slot : ℕ) (s : Oms D)
      → (on_fill is_fill fq price slot s).next_id ≡ s.next_id
  unfolding on_fill free_slot
  on_fill-next_id is_fill fq price slot s =
      let o = s.orders slot in
      let settled =
        ap (λ (c : Core D). c.next_id) (settle_side-core o.side is_fill fq price slot o s) in
      elim (Bool-cases (is_fillable o.status)) [
        | inr e ↦ rw e refl
        | inl e ↦
            elim (Bool-cases (is_fill || ((filled_order is_fill fq price o).leaves_qty == 0))) [
              | inl f ↦ rw (e, f) settled
              | inr f ↦ rw (e, f) settled
            ]
      ]

  execute-next_id :
      (type : ExecType) (report : ExecutionReport D) (slot : ℕ) (s : Oms D)
      → (execute (record report { exec_type = type }) slot s).next_id ≡ s.next_id
  unfolding execute on_new_ack on_cancel_ack on_reject free_slot
  execute-next_id new_ack report slot s = elim (Bool-cases (is_sent (s.orders slot).status)) [
    | inl e ↦ rw e refl
    | inr e ↦ rw e refl
  ]
  execute-next_id fill report slot s = on_fill-next_id true report.fill_qty report.fill_price slot s
  execute-next_id partial_fill report slot s =
      on_fill-next_id false report.fill_qty report.fill_price slot s
  execute-next_id cancel_ack report slot s = refl
  execute-next_id reject report slot s = refl
  execute-next_id cancel_reject report slot s = refl
  execute-next_id (other_code _) report slot s = refl

  on_execution-next_id :
      (report : ExecutionReport D) (s : Oms D) → (on_execution report s).next_id ≡ s.next_id
  unfolding on_execution
  on_execution-next_id report s =
      elim (Bool-cases (leb order_map_size (map_find s.order_map report.order_id))) [
        | inl e ↦ rw e refl
        | inr e ↦ rw e (
            execute-next_id report.exec_type report
              (s.order_map (map_find s.order_map report.order_id)).slot s)
      ]

  send_new-next_id :
      (side : Side) (price : D) (qty : ℕ) (type : OrderType) (s : Oms D)
      → (send_new side price qty type s).1.next_id ≤ s.next_id + 1
  unfolding send_new
  send_new-next_id side price qty type s = elim (Bool-cases (check_risk side price qty s)) [
    | inr e ↦ rw e (omega arith)
    | inl e ↦ elim (Bool-cases (leb max_orders (alloc_slot s).0)) [
      | inl f ↦ rw (e, f) (omega (arith, alloc_slot-next_id s))
      | inr f ↦ rw (e, f) (omega (arith, alloc_slot-next_id s))
    ]
  ]

  -- Reachable, with at most `n` ids given out.
  abbrev Within : ℕ → Oms D → Type ℓ
  Within n s = Reachable s × (s.next_id ≤ n)

  process_execution-oms :
      (e : ExecutionReport D) (ticks : ℕ × ℕ) (s : State D)
      → (process_execution e ticks s).oms ≡ on_execution e s.oms
  unfolding process_execution
  process_execution-oms e ticks s = ground arith

  process_execution-Within :
      (n : ℕ) (e : ExecutionReport D) (ticks : ℕ × ℕ) (s : State D)
      → Within n s.oms
      → Within n (process_execution e ticks s).oms
  process_execution-Within n e ticks s (r, le) =
      subst (Within n) (sym (process_execution-oms e ticks s))
        (reported e r, omega (arith, on_execution-next_id e s.oms))

  drain-Within :
      (n fuel : ℕ) (decode : List ℕ → ExecutionReport D) (ticks : ℕ → ℕ × ℕ) (input : List Received)
      (i : ℕ) (s : State D)
      → Within n s.oms
      → Within n (drain fuel decode ticks input i s).0.oms
  unfolding drain
  drain-Within n zero decode ticks input i s w = w
  drain-Within n (suc fuel) decode ticks input i s w =
      elim (Option-cases (poll_execution decode input s.gateway).0) [
        | inl e ↦ rw (e, drain) w
        | inr (x, e) ↦
            let (exec, g, left) = poll_execution decode input s.gateway in
            rw (e, drain)
              (drain-Within n fuel decode ticks left (i + 1) _
                (process_execution-Within n x (ticks i) (record s { gateway = g }) w))
      ]

  submit_ready-Within :
      (n : ℕ) (ns_per_tick : D) (encode : WireOrderMsg D → List ℕ) (c : Clock) (results : List Sent)
      (slot : ℕ) (s : State D)
      → Within n s.oms
      → Within n (submit_ready ns_per_tick encode c results slot s).1.oms
  unfolding submit_ready
  submit_ready-Within n ns_per_tick encode c results slot s (r, le) = (stamped slot _ _ r, le)

  send_wanted-Within :
      (n : ℕ) (ns_per_tick : D) (encode : WireOrderMsg D → List ℕ) (c : Clock) (results : List Sent)
      (w : Option (Wanted D)) (s : State D)
      → n + 1 < u64_mod
      → Within n s.oms
      → Within (n + 1) (send_wanted ns_per_tick encode c results w s).1.oms
  unfolding send_wanted
  send_wanted-Within n ns_per_tick encode c results none s small (r, le) = (r, omega arith)
  send_wanted-Within n ns_per_tick encode c results (some w) s small (r, le) =
      let after : Within (n + 1) (send_new w.side w.price w.qty ioc s.oms).1 = (
        submitted w.side w.price w.qty ioc (omega arith) r,
        omega (arith, send_new-next_id w.side w.price w.qty ioc s.oms),
      ) in
      elim (Option-cases (send_new w.side w.price w.qty ioc s.oms).0) [
        | inl e ↦ rw (e, send_wanted) after
        | inr (i, e) ↦
            rw (e, send_wanted)
              (submit_ready-Within (n + 1) ns_per_tick encode c results i
                (record s { oms = (send_new w.side w.price w.qty ioc s.oms).1 }) after)
      ]

  process_market_signal_and_order-Within :
      (n : ℕ) (params : StrategyParams D) (ns_per_tick : D) (encode : WireOrderMsg D → List ℕ)
      (c : Clock) (results : List Sent) (ref_data target_data : Option (Arrival D)) (s : State D)
      → n + 1 < u64_mod
      → Within n s.oms
      → Within
          (n + 1)
          (process_market_signal_and_order params ns_per_tick encode c results ref_data target_data
            s).1.oms
  unfolding process_market_signal_and_order set_reference_price
  process_market_signal_and_order-Within n params ns_per_tick encode c results ref_data target_data
        s small w =
      let s1 = (on_ref_data ref_data s).1 in
      let s2 = (on_target_data target_data s1).1 in
      let (o1, _) = on_ref_data_keeps ref_data s in
      let (o2, _) = on_target_data_keeps target_data s1 in
      let (r, le) = subst (Within n) (sym (o2 ∙ o1)) w in
      send_wanted-Within n ns_per_tick encode c results _ _ small (priced _ r, le)

  handle_data-Within :
      (n : ℕ) (params : StrategyParams D) (ns_per_tick : D) (encode : WireOrderMsg D → List ℕ)
      (decode : List ℕ → ExecutionReport D) (i : Round D)
      (ref_data target_data : Option (Arrival D)) (s : State D)
      → n + 1 < u64_mod
      → Within n s.oms
      → Within (n + 1) (handle_data params ns_per_tick encode decode i ref_data target_data s).1.oms
  unfolding handle_data
  handle_data-Within n params ns_per_tick encode decode i none none s small w =
      let (r, le) = drain-Within n _ decode i.report_ticks i.reports 0 _ w in (r, omega (arith, le))
  handle_data-Within n params ns_per_tick encode decode i none (some t) s small w =
      drain-Within (n + 1) _ decode i.report_ticks i.reports 0 _ (
        process_market_signal_and_order-Within n params ns_per_tick encode i.clock i.send_results
          none (some t) _ small w)
  handle_data-Within n params ns_per_tick encode decode i (some r) t s small w =
      drain-Within (n + 1) _ decode i.report_ticks i.reports 0 _ (
        process_market_signal_and_order-Within n params ns_per_tick encode i.clock i.send_results
          (some r) t _ small w)

  run_pipeline-Within :
      (n : ℕ) (params : StrategyParams D) (ns_per_tick : D) (encode : WireOrderMsg D → List ℕ)
      (decode : List ℕ → ExecutionReport D) (start_ns duration_sec : ℕ) (rounds : List (Round D))
      (p : Pipeline D)
      → n + length rounds < u64_mod
      → Within n p.state.oms
      → Within
          (n + length rounds)
          (run_pipeline params ns_per_tick encode decode start_ns duration_sec rounds p).state.oms
  unfolding run_pipeline run_round
  run_pipeline-Within n params ns_per_tick encode decode start_ns duration_sec [] p small (r, le) =
      (r, omega arith)
  run_pipeline-Within n params ns_per_tick encode decode start_ns duration_sec (i ∷ is) p small w =
      elim (Bool-cases (
        not i.running
        || (is_positive duration_sec
            && leb ((start_ns + int_to_uint64 duration_sec * 1000000000) % u64_mod) i.now))) [
              | inl e ↦ let (r, le) = w in rw e (r, omega arith)
              | inr e ↦
                  let first =
                    handle_data-Within n params ns_per_tick encode decode i _ _ _ (omega arith) w in
                  let (r, le) =
                    run_pipeline-Within (n + 1) params ns_per_tick encode decode start_ns
                      duration_sec is _ (omega arith) first in
                  rw e (r, omega arith)
            ]

  -- The rounds of the pipeline bring about only order management systems that are reachable, as
  -- long as the ids cannot run out: a round gives out one at most.
  pub run_pipeline-Reachable :
      (params : StrategyParams D) (ns_per_tick : D) (encode : WireOrderMsg D → List ℕ)
      (decode : List ℕ → ExecutionReport D) (start_ns duration_sec : ℕ) (rounds : List (Round D))
      (p : Pipeline D)
      → Reachable p.state.oms
      → p.state.oms.next_id + length rounds < u64_mod
      → Reachable
          (run_pipeline params ns_per_tick encode decode start_ns duration_sec rounds p).state.oms
  run_pipeline-Reachable params ns_per_tick encode decode start_ns duration_sec rounds p r small =
      (run_pipeline-Within p.state.oms.next_id params ns_per_tick encode decode start_ns
        duration_sec rounds p small (r, omega arith)).0
