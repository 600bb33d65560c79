-- ===== src/Pipeline/Pending.antt =====
-- `process_market_signal_and_order` of src/main.cpp while an order waits for its first report.
use nanosecond_trading_stack.Common.{
  ℕ, ◌<◌, ◌≡◌, refl, sym, ap, subst, ◌||◌, ◌∙◌, Bool, Option, none, some, List, [], arith, lt→ltb,
}
use nanosecond_trading_stack.Double.{Double}
use nanosecond_trading_stack.Oms.{Oms, set_reference_price}
use nanosecond_trading_stack.OrderGateway as Gateway
use nanosecond_trading_stack.Pipeline.{
  State, Arrival, Clock, choose_order, on_ref_data, on_target_data, send_wanted,
  process_market_signal_and_order,
}
use nanosecond_trading_stack.QuoteBook as Book
use nanosecond_trading_stack.Strategy.{StrategyParams}

module _ {ℓ} {D : Type ℓ} ⦃d : Double D⦄ where
  pub on_ref_data_keeps :
      (a : Option (Arrival D)) (s : State D)
      → ((on_ref_data a s).1.oms ≡ s.oms) × ((on_ref_data a s).1.gateway ≡ s.gateway)
  unfolding on_ref_data
  on_ref_data_keeps none s = (refl, refl)
  on_ref_data_keeps (some a) s = (ground arith, ground arith)

  pub on_target_data_keeps :
      (a : Option (Arrival D)) (s : State D)
      → ((on_target_data a s).1.oms ≡ s.oms) × ((on_target_data a s).1.gateway ≡ s.gateway)
  unfolding on_target_data
  on_target_data_keeps none s = (refl, refl)
  on_target_data_keeps (some a) s = (ground arith, ground arith)

  choose_order-none :
      (updated : Bool) (params : StrategyParams D) (book : Book.OrderBook D) (oms : Oms D)
      → 0 < oms.pending_new
      → choose_order updated params book oms ≡ none
  unfolding choose_order
  choose_order-none updated params book oms h = rw (lt→ltb 0 oms.pending_new h) refl

  -- While an order waits for its first report, whatever data arrives: no bytes go out, the gateway
  -- stays, and all that changes in the order management system is the reference price.
  pub process_market_signal_and_order_waits :
      (params : StrategyParams D) (ns_per_tick : D) (encode : Gateway.WireOrderMsg D → List ℕ)
      (c : Clock) (results : List Gateway.Sent) (ref_data target_data : Option (Arrival D))
      (s : State D)
      → 0 < s.oms.pending_new
      → let r =
          process_market_signal_and_order params ns_per_tick encode c results ref_data target_data
            s in
        (r.0 ≡ [])
        × (r.1.gateway ≡ s.gateway)
        × (r.1.oms ≡ set_reference_price (Book.mid_price r.1.book) s.oms)
  unfolding process_market_signal_and_order send_wanted set_reference_price
  process_market_signal_and_order_waits params ns_per_tick encode c results ref_data target_data s
        h =
      let s1 = (on_ref_data ref_data s).1 in
      let s2 = (on_target_data target_data s1).1 in
      let (o1, g1) = on_ref_data_keeps ref_data s in
      let (o2, g2) = on_target_data_keeps target_data s1 in
      let waiting : 0 < s2.oms.pending_new =
        subst (λ (o : Oms D). 0 < o.pending_new) (sym (o2 ∙ o1)) h in
      rw
        (choose_order-none ((on_ref_data ref_data s).0 || (on_target_data target_data s1).0) params
          s2.book (set_reference_price (Book.mid_price s2.book) s2.oms) waiting)
        (refl, g2 ∙ g1, ap (set_reference_price (Book.mid_price s2.book)) (o2 ∙ o1))
