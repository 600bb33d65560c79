-- ===== src/Matching/Trades.antt =====
-- What `add_order` trades and leaves, against the one list of waiting orders.
use mathlib.Core.List.{reverse-reverse}
use nanosecond_trading_stack.Common.{
  ℕ, ◌+◌, ◌-◌, ◌≤◌, ◌≡◌, refl, min, Bool, false, List, [], ◌∷◌, ◌++◌, reverse, arith, if◌then◌else◌,
  All, All-mono, ltb,
}
use nanosecond_trading_stack.Matching.Book.{
  OrderBook, Run, match_order, add_order, place, is_limit, levels_of,
}
use nanosecond_trading_stack.Matching.Engine.{match_levels, buy_stops, sell_stops}
use nanosecond_trading_stack.Matching.Levels.{Flow, push_back, trade, forget, fill_queue}
use nanosecond_trading_stack.Matching.Loops.{start, start_flow, match_buy_lem, match_sell_lem}
use nanosecond_trading_stack.Matching.Priority.{
  Waiting, at_price, priority, filled, held, consume, leftover, match_levels-consume,
  match_levels-leftover,
}
use nanosecond_trading_stack.Matching.Types.{
  Side, buy, sell, OrderType, limit, market, Order, Fill, RestingOrder, OrderQueue, Levels,
}
use nanosecond_trading_stack.Matching.Validity.Kept.{LevelsOk-reverse}
use nanosecond_trading_stack.Matching.Validity.{IsValid}

-- The orders that an order of this side trades with, best price first, oldest first.
abbrev pub facing : Side → OrderBook → Waiting
facing buy b = priority b.asks
facing sell b = priority (reverse b.bids)

abbrev pub stops : Order → ℕ → Bool
stops order = elim order.side [ buy ↦ buy_stops order | sell ↦ sell_stops order ]

filled-append : (xs ys : List Fill) → filled (xs ++ ys) ≡ filled xs + filled ys
filled-append [] ys = omega arith
filled-append (x ∷ xs) ys = omega (arith, filled-append xs ys)

module _ (side : Side) (stop : ℕ → Bool) (id : ℕ) where
  pub consume_conserves :
      (r : ℕ) (w : Waiting)
      → (filled (consume side stop id r w) ≤ r)
        × (held (leftover side stop id r w) + filled (consume side stop id r w) ≡ held w)
  unfolding consume leftover
  consume_conserves r [] = omega arith
  consume_conserves r ((p, n) ∷ w) = ground (arith, consume_conserves (r - min r n.qty) w)

  pub consume-All :
      (r : ℕ) (w : Waiting)
      → All
          (λ (f : Fill). (stop f.price ≡ false) × (f.taker_id ≡ id) × (f.side ≡ side))
          (consume side stop id r w)
  unfolding consume
  consume-All r [] = tt
  consume-All r ((p, n) ∷ w) = ground (arith, consume-All (r - min r n.qty) w)

  fill_queue-remaining :
      (p : ℕ) (q : OrderQueue) (s : Flow)
      → (fill_queue side p id q s).1.remaining + filled (fill_queue side p id q s).1.fills
        ≡ s.remaining + filled s.fills
  unfolding fill_queue
  fill_queue-remaining p [] s = refl
  fill_queue-remaining p (n ∷ q) s =
      let t = trade side p id n s in
      let fill : Fill = record {
        maker_id = n.id;
        taker_id = id;
        price = p;
        qty = min s.remaining n.qty;
        side = side;
      } in
      ground (arith, fill_queue-remaining p q (forget n.id t), filled-append s.fills (fill ∷ []))

  pub match_levels-remaining :
      (ls : Levels) (s : Flow)
      → (match_levels side stop id ls s).1.remaining
          + filled (match_levels side stop id ls s).1.fills
        ≡ s.remaining + filled s.fills
  unfolding match_levels
  match_levels-remaining [] s = refl
  match_levels-remaining ((p, q) ∷ ls) s =
      ground
        (arith, fill_queue-remaining p q s, match_levels-remaining ls (fill_queue side p id q s).1)

module _ (order : Order) (b : OrderBook) (fills : List Fill) where
  -- The fills of the order: what it trades with the orders that face it.
  abbrev pub trades : List Fill
  trades = consume order.side (stops order) order.id order.qty (facing order.side b)

  abbrev pub matched : Run
  matched = match_order order (start b order.qty fills)

  abbrev Matched : Type 0
  Matched =
      (matched.fills ≡ fills ++ trades)
      × (facing order.side matched.book
          ≡ leftover order.side (stops order) order.id order.qty (facing order.side b))
      × (matched.remaining + filled matched.fills ≡ order.qty + filled fills)
      × (levels_of order.side matched.book ≡ levels_of order.side b)

matched_side :
    (side : Side) (order : Order) (b : OrderBook) (fills : List Fill)
    → IsValid b
    → Matched (record order { side = side }) b fills
matched_side buy order b fills v =
    let flow = start_flow b.locations order.qty fills in
    let stop = buy_stops order in
    rw (match_buy_lem (record order { side = buy }) b order.qty fills v.asks_sorted) (
      match_levels-consume buy stop order.id b.next_addr b.asks flow v.asks_ok,
      match_levels-leftover buy stop order.id b.next_addr b.asks flow v.asks_ok,
      match_levels-remaining buy stop order.id b.asks flow,
      refl,
    )
matched_side sell order b fills v =
    let flow = start_flow b.locations order.qty fills in
    let stop = sell_stops order in
    let bids = reverse b.bids in
    let ok = LevelsOk-reverse b.next_addr b.bids v.bids_ok in
    rw (match_sell_lem (record order { side = sell }) b order.qty fills v.bids_sorted) (
      match_levels-consume sell stop order.id b.next_addr bids flow ok,
      rw reverse-reverse (match_levels-leftover sell stop order.id b.next_addr bids flow ok),
      match_levels-remaining sell stop order.id bids flow,
      refl,
    )

held-append : (v w : Waiting) → held (v ++ w) ≡ held v + held w
held-append [] w = omega arith
held-append ((p, n) ∷ v) w = omega (arith, held-append v w)

held-at_price :
    (p : ℕ) (q : OrderQueue) (n : RestingOrder)
    → held (at_price p (q ++ (n ∷ []))) ≡ held (at_price p q) + n.qty
held-at_price p [] n = omega arith
held-at_price p (m ∷ q) n = omega (arith, held-at_price p q n)

held-push_back :
    (p : ℕ) (n : RestingOrder) (ls : Levels)
    → held (priority (push_back ltb p n ls)) ≡ held (priority ls) + n.qty
unfolding push_back
held-push_back p n [] = omega arith
held-push_back p n ((j, q) ∷ ls) = ground (
  arith,
  held-push_back p n ls,
  held-append (at_price j q) (priority ls),
  held-append (at_price j q) (priority (push_back ltb p n ls)),
  held-append (at_price j (q ++ (n ∷ []))) (priority ls),
  held-at_price j q n,
)

held-place :
    (id price qty : ℕ) (side : Side) (b : OrderBook)
    → (facing side (place id side price qty b) ≡ facing side b)
      × (held (priority (levels_of side (place id side price qty b)))
          ≡ held (priority (levels_of side b)) + qty)
unfolding place
held-place id price qty buy b = (refl, held-push_back price _ b.bids)
held-place id price qty sell b = (refl, held-push_back price _ b.asks)

module _ (order : Order) (b : OrderBook) (fills : List Fill) (v : IsValid b) where
  -- An order trades with the orders that face it in price-time priority: the fills behind those of
  -- the buffer, and the orders of the other side afterwards, are those of the one list.
  pub add_order-consume :
      let r = add_order order b fills in
      (r.1 ≡ fills ++ trades order b fills)
      × (facing order.side r.0
          ≡ leftover order.side (stops order) order.id order.qty (facing order.side b))
  unfolding add_order
  add_order-consume =
      let m = matched order b fills in
      ground (
        arith,
        matched_side order.side order b fills v,
        held-place order.id order.price m.remaining order.side m.book,
      )

  -- No quantity is lost or made up: what the order trades is at most its quantity, leaves the other
  -- side, and a limit order rests with all that it has not traded, while a market order does not
  -- rest.
  pub add_order_conserves :
      let r = add_order order b fills in
      let traded = filled (trades order b fills) in
      (traded ≤ order.qty)
      × (held (facing order.side r.0) + traded ≡ held (facing order.side b))
      × (held (priority (levels_of order.side r.0))
          ≡ held (priority (levels_of order.side b))
            + (if is_limit order.order_type then order.qty - traded else 0))
  unfolding add_order
  add_order_conserves =
      let m = matched order b fills in
      ground (
        arith,
        matched_side order.side order b fills v,
        held-place order.id order.price m.remaining order.side m.book,
        filled-append fills (trades order b fills),
        consume_conserves order.side (stops order) order.id order.qty (facing order.side b),
      )

abbrev pub Acceptable : Order → Fill → Type 0
Acceptable order f = elim order.order_type [
  | market ↦ Unit {0}
  | limit ↦ elim order.side [ buy ↦ f.price ≤ order.price | sell ↦ order.price ≤ f.price ]
]

acceptable :
    (side : Side) (type : OrderType) (order : Order) (f : Fill)
    → let o = record order { side = side; order_type = type } in
      stops o f.price ≡ false → Acceptable o f
acceptable buy limit order f h = ground arith
acceptable sell limit order f h = ground arith
acceptable buy market order f h = tt
acceptable sell market order f h = tt

-- Every fill that an order makes is at its limit price or better, and names the order and its side.
pub add_order-Acceptable :
    (order : Order) (b : OrderBook)
    → IsValid b
    → All
        (λ (f : Fill). Acceptable order f × (f.taker_id ≡ order.id) × (f.side ≡ order.side))
        (add_order order b []).1
add_order-Acceptable order b v = rw ((add_order-consume order b [] v).0) (
    All-mono _ _ (trades order b [])
      (λ f h. (acceptable order.side order.order_type order f h.0, h.1, h.2))
      (consume-All order.side (stops order) order.id order.qty (facing order.side b)))
