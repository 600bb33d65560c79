-- ===== src/Pipeline.antt =====
-- src/main.cpp: the round of the pipeline. One round polls both feeds, updates the quote book, sends
-- at most one order, and handles the execution reports. Clocks, sockets and the layout of messages
-- in memory are parameters.
pub mod Loop
pub mod Exit
pub mod Pending
pub mod Draining
pub mod Reached
pub mod Main
pub mod Saved
pub mod Tests
use nanosecond_trading_stack.Common.{
  ℕ, zero, suc, ◌+◌, ◌-◌, ◌%◌, ◌^◌, ◌≡◌, refl, Bool, true, false, ◌&&◌, ◌||◌, not, Option, none,
  some, List, [], ◌∷◌, ◌++◌, ltb, leb, ◌==◌, if◌then◌else◌, u32_mod, neg32,
}
use nanosecond_trading_stack.Clock.{ticks_to_ns}
use nanosecond_trading_stack.Double.{Double}
use nanosecond_trading_stack.MarketData.{MdMsg, MdMsgType, quote, reference, other}
use nanosecond_trading_stack.Oms.OrderMap.{update}
use nanosecond_trading_stack.Oms.{
  Oms, Order, ExecutionReport, set_reference_price, send_new, on_execution,
}
use nanosecond_trading_stack.OrderGateway as Gateway
use nanosecond_trading_stack.QuoteBook as Book
use nanosecond_trading_stack.Strategy.{
  StrategyParams, Signal, no_signal, buy_signal, sell_signal, on_book_update,
}
use nanosecond_trading_stack.TickRing as Ring
use nanosecond_trading_stack.Tracer as Trace
use nanosecond_trading_stack.Types.{
  Side, buy, sell, ioc, ExecType, new_ack, fill, partial_fill, cancel_ack, reject, cancel_reject,
}

-- An order that is wanted: side, price and quantity.
pub record Wanted {ℓ} (D : Type ℓ) : Type ℓ where
  pub side : Side
  pub price : D
  pub qty : ℕ

-- A datagram that a poll gave, with `raw_ticks` after the poll.
pub record Arrival {ℓ} (D : Type ℓ) : Type ℓ where
  pub msg : MdMsg D
  pub receive_ticks : ℕ

-- `raw_ticks` at the calls of a round, in their order.
pub record Clock : Type 0 where
  pub recv_start : ℕ
  pub recv_done : ℕ
  pub book_updated : ℕ
  pub strategy_done : ℕ
  pub sent : ℕ
  pub order_sent : ℕ

-- What the loop of `run_pipeline` keeps, but for the receivers, which only their own polls change.
pub record State {ℓ} (D : Type ℓ) : Type ℓ where
  pub book : Book.OrderBook D
  pub oms : Oms D
  pub gateway : Gateway.OrderGateway
  pub tracer : Trace.HopTracer
  pub latest_source_exchange_tick : ℕ
  pub latest_md_receive_ticks : ℕ
  pub order_sent_ticks : Ring.OrderTickRing
  pub ack_received_ticks : Ring.OrderTickRing

module _ {ℓ} {D : Type ℓ} ⦃d : Double D⦄ where
  open d use {one, add, sub, le_d}

  -- An order that takes the whole position off at the best opposite price, where that is not more
  -- than `EXIT_HALF_SPREAD` worse than the reference price.
  unfoldable pub build_exit_order : Book.OrderBook D → ℕ → Option (Wanted D)
  unfolding Book.best_bid Book.best_ask
  build_exit_order book position =
      let ref = book.reference_mid in
      if (position == 0) || not book.has_reference
      then none
      else if ltb position (2 ^ 31)
      then (if le_d (sub ref one) (Book.best_bid book)
          then some (record { side = sell; price = Book.best_bid book; qty = position })
          else none)
      else (if le_d (Book.best_ask book) (add ref one)
          then some (record { side = buy; price = Book.best_ask book; qty = neg32 position })
          else none)

  abbrev pub signal_order : Signal → StrategyParams D → Book.OrderBook D → Option (Wanted D)
  signal_order no_signal params book = none
  signal_order buy_signal params book =
      some (record { side = buy; price = Book.best_ask book; qty = params.order_size })
  signal_order sell_signal params book =
      some (record { side = sell; price = Book.best_bid book; qty = params.order_size })

  -- The order that a round sends, from the book and the order management system as they are then.
  unfoldable pub choose_order :
      Bool → StrategyParams D → Book.OrderBook D → Oms D → Option (Wanted D)
  choose_order updated params book oms =
      let has_pending_order = ltb 0 oms.pending_new in
      if has_pending_order then none else elim (build_exit_order book oms.position) [
        | some w ↦ some w
        | none ↦
            if (oms.position == 0) && updated
            then signal_order (on_book_update params book oms.position) params book
            else none
      ]

  unfoldable pub on_ref_data : Option (Arrival D) → State D → Bool × State D
  on_ref_data none s = (false, s)
  on_ref_data (some a) s = elim a.msg.header.type [
    | reference ↦ (
      true,
      record s {
        latest_source_exchange_tick = a.msg.header.exchange_tick;
        latest_md_receive_ticks = a.receive_ticks;
        book = Book.on_reference a.msg s.book;
      },
    )
    | quote ↦ (false, s)
    | other _ ↦ (false, s)
  ]

  unfoldable pub on_target_data : Option (Arrival D) → State D → Bool × State D
  on_target_data none s = (false, s)
  on_target_data (some a) s = elim a.msg.header.type [
    | quote ↦ (
      true,
      record s {
        latest_source_exchange_tick = a.msg.header.exchange_tick;
        latest_md_receive_ticks = a.receive_ticks;
        book = Book.on_quote a.msg s.book;
      },
    )
    | reference ↦ (false, s)
    | other _ ↦ (false, s)
  ]

  -- `record_ready_order` for the order in `slot`, and `submit_order`. The bytes sent come first.
  unfoldable pub submit_ready :
      D
      → (Gateway.WireOrderMsg D → List ℕ)
      → Clock
      → List Gateway.Sent
      → ℕ
      → State D
      → List ℕ × State D
  submit_ready ns_per_tick encode c results slot s =
      let o = record (s.oms.orders slot) {
        source_exchange_tick = s.latest_source_exchange_tick;
        client_reaction_ns =
            if not (s.latest_md_receive_ticks == 0) && leb s.latest_md_receive_ticks c.sent
            then ticks_to_ns ns_per_tick (c.sent - s.latest_md_receive_ticks)
            else 0;
      } in
      let (out, gateway) = Gateway.submit_order encode o results s.gateway in
      (
        out,
        record s {
          oms = record s.oms { orders = update s.oms.orders slot o };
          order_sent_ticks = Ring.set o.id c.sent s.order_sent_ticks;
          tracer = Trace.record_at Trace.order_sent c.order_sent s.tracer;
          gateway = gateway;
        },
      )

  unfoldable pub send_wanted :
      D
      → (Gateway.WireOrderMsg D → List ℕ)
      → Clock
      → List Gateway.Sent
      → Option (Wanted D)
      → State D
      → List ℕ × State D
  unfolding submit_ready
  send_wanted ns_per_tick encode c results none s = ([], s)
  send_wanted ns_per_tick encode c results (some w) s =
      let (slot, oms) = send_new w.side w.price w.qty ioc s.oms in
      let s' = record s { oms = oms } in
      elim slot [ none ↦ ([], s') | some i ↦ submit_ready ns_per_tick encode c results i s' ]

  unfoldable pub process_market_signal_and_order :
      StrategyParams D
      → D
      → (Gateway.WireOrderMsg D → List ℕ)
      → Clock
      → List Gateway.Sent
      → Option (Arrival D)
      → Option (Arrival D)
      → State D
      → List ℕ × State D
  process_market_signal_and_order params ns_per_tick encode c results ref_data target_data s =
      let (reference_updated, s1) = on_ref_data ref_data s in
      let (last_md_was_quote, s2) = on_target_data target_data s1 in
      let s3 = record s2 {
        tracer = Trace.record_at Trace.book_updated c.book_updated s2.tracer;
        oms = set_reference_price (Book.mid_price s2.book) s2.oms;
      } in
      let wanted = choose_order (reference_updated || last_md_was_quote) params s3.book s3.oms in
      send_wanted ns_per_tick encode c results wanted
        (record s3 { tracer = Trace.record_at Trace.strategy_done c.strategy_done s3.tracer })
