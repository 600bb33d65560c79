-- ===== src/Pipeline/Exit.antt =====
-- `build_exit_order` of src/main.cpp, and the choice of the order of a round.
use nanosecond_trading_stack.Common.{
  ℕ, ◌≡◌, ◌<◌, ◌∙◌, refl, sym, ap, inl, inr, Bool, none, some, add32, u32_mod, arith, ◌&&◌, ◌==◌,
  ltb, ◌⊎◌, Bool-cases, Option-cases, Option,
}
use nanosecond_trading_stack.Double.{Double}
use nanosecond_trading_stack.Oms.Orders.{alloc_slot_keeps, send_new_cases, send_new-IsSent}
use nanosecond_trading_stack.Oms.Reachable.{Reachable, send_new-reported}
use nanosecond_trading_stack.Oms.{
  Oms, ExecutionReport, signed_qty, inc, send_new, execute, on_new_ack, on_execution,
}
use nanosecond_trading_stack.Pipeline.{Wanted, build_exit_order, choose_order, signal_order}
use nanosecond_trading_stack.QuoteBook as Book
use nanosecond_trading_stack.Strategy.{
  StrategyParams, Signal, no_signal, buy_signal, sell_signal, on_book_update,
}
use nanosecond_trading_stack.Types.{Side, OrderType, ioc, sent, new_ack}

module _ {ℓ} {D : Type ℓ} ⦃d : Double D⦄ where
  -- An exit order takes off the whole position: with it filled, the position is 0.
  pub build_exit_order-closes :
      (book : Book.OrderBook D) (position : ℕ) (w : Wanted D)
      → position < u32_mod
      → build_exit_order book position ≡ some w
      → add32 position (signed_qty w.side w.qty) ≡ 0
  unfolding build_exit_order
  build_exit_order-closes book position w h e = ground arith

  -- An order that `send_new` returns counts as one more to wait for, and moves no position.
  send_new-waits :
      (side : Side) (price : D) (qty : ℕ) (type : OrderType) (s s' : Oms D) (slot : ℕ)
      → send_new side price qty type s ≡ (some slot, s')
      → (s'.pending_new ≡ inc s.pending_new) × (s'.position ≡ s.position)
  send_new-waits side price qty type s s' slot h = elim (send_new_cases side price qty type s) [
    | inl e ↦ absurd (cc (e, h))
    | inr (ok, free, e) ↦
        let (top, unused, keeps) = alloc_slot_keeps s in
        let pairs = ap (λ x. x.1) (sym e ∙ h) in
        (
          sym (ap (λ (x : Oms D). x.pending_new) pairs)
              ∙ ap (λ (x : Oms D). inc x.pending_new) keeps,
          sym (ap (λ (x : Oms D). x.position) pairs) ∙ ap (λ (x : Oms D). x.position) keeps,
        )
  ]

  new_ack-clears :
      (report : ExecutionReport D) (slot : ℕ) (s : Oms D)
      → report.exec_type ≡ new_ack
      → (s.orders slot).status ≡ sent
      → s.pending_new ≡ 1
      → ((execute report slot s).pending_new ≡ 0) × ((execute report slot s).position ≡ s.position)
  unfolding execute on_new_ack
  new_ack-clears report slot s t o one = rw (t, o, one) (refl, refl)

  choose_order-exit :
      (updated : Bool) (params : StrategyParams D) (book : Book.OrderBook D) (s : Oms D)
      (w : Wanted D)
      → s.pending_new ≡ 0
      → build_exit_order book s.position ≡ some w
      → choose_order updated params book s ≡ some w
  unfolding choose_order
  choose_order-exit updated params book s w none_pending e = rw (none_pending, e) refl

  -- Once the exchange has acknowledged an exit order, and before it has filled any of it, a round
  -- with the same book wants the same order again, for the whole position.
  pub choose_order-repeats :
      (updated : Bool) (params : StrategyParams D) (book : Book.OrderBook D) (s s' : Oms D)
      (w : Wanted D) (slot : ℕ) (report : ExecutionReport D)
      → Reachable s
      → s.pending_new ≡ 0
      → build_exit_order book s.position ≡ some w
      → send_new w.side w.price w.qty ioc s ≡ (some slot, s')
      → report.order_id ≡ s.next_id
      → report.exec_type ≡ new_ack
      → choose_order updated params book (on_execution report s') ≡ some w
  choose_order-repeats updated params book s s' w slot report r idle e h same t =
      let reached = send_new-reported w.side w.price w.qty ioc s s' slot report r h same in
      let (waits, stays) = send_new-waits w.side w.price w.qty ioc s s' slot h in
      let status = (send_new-IsSent w.side w.price w.qty ioc s s' slot h).2 in
      let one : s'.pending_new ≡ 1 = waits ∙ ap inc idle in
      let (none_pending, kept) = new_ack-clears report slot s' t status one in
      let again : build_exit_order book (execute report slot s').position ≡ some w =
        ap (build_exit_order book) (kept ∙ stays) ∙ e in
      ap (choose_order updated params book) reached
      ∙ choose_order-exit updated params book (execute report slot s') w none_pending again

  -- The quantity of an order, with 0 for none.
  abbrev qty_of : Option (Wanted D) → ℕ
  qty_of none = 0
  qty_of (some w) = w.qty

  signal_order-qty :
      (sig : Signal) (params : StrategyParams D) (book : Book.OrderBook D) (w : Wanted D)
      → signal_order sig params book ≡ some w
      → w.qty ≡ params.order_size
  signal_order-qty no_signal params book w h = absurd (cc h)
  signal_order-qty buy_signal params book w h = sym (ap qty_of h)
  signal_order-qty sell_signal params book w h = sym (ap qty_of h)

  -- An order is wanted only while none waits for its first report. It takes off the whole 32-bit
  -- position, or it is of the strategy's size and the position is 0.
  pub choose_order-squares :
      (updated : Bool) (params : StrategyParams D) (book : Book.OrderBook D) (s : Oms D)
      (w : Wanted D)
      → s.position < u32_mod
      → choose_order updated params book s ≡ some w
      → (s.pending_new ≡ 0)
        × ((add32 s.position (signed_qty w.side w.qty) ≡ 0)
            ⊎ ((s.position ≡ 0) × (w.qty ≡ params.order_size)))
  unfolding choose_order
  choose_order-squares updated params book s w small h = elim (Bool-cases (ltb 0 s.pending_new)) [
    | inl e ↦ absurd (cc (rw e at h))
    | inr e ↦ (
      ground (arith, e),
      elim (Option-cases (build_exit_order book s.position)) [
        | inr (x, f) ↦
            let same : some x ≡ some w = rw (e, f) at h in
            inl (build_exit_order-closes book s.position w small (f ∙ same))
        | inl f ↦ elim (Bool-cases ((s.position == 0) && updated)) [
          | inr g ↦ absurd (cc (rw (e, f, g) at h))
          | inl g ↦
              let signal : signal_order (on_book_update params book s.position) params book
                  ≡ some w =
                rw (e, f, g) at h in
              inr (
                ground (arith, g),
                signal_order-qty (on_book_update params book s.position) params book w signal,
              )
        ]
      ],
    )
  ]
