-- ===== src/Matching/Book.antt =====
-- src/matching/orderbook.cpp: both maps ascend; the best bid is the last level, the best ask the
-- first.
use nanosecond_trading_stack.Common.{
  ℕ, zero, suc, ◌+◌, ◌-◌, Bool, true, false, ◌&&◌, Option, none, some, List, [], ◌∷◌, ltb, leb,
  ◌==◌, if◌then◌else◌, is_nil, length, get_last?,
}
use nanosecond_trading_stack.Common.Assoc.{lookup, assign, replace, erase}
use nanosecond_trading_stack.Matching.Levels.{Flow, fill_queue, push_back, erase_node, depth_of}
use nanosecond_trading_stack.Matching.Types.{
  Side, buy, sell, OrderType, limit, market, Order, Fill, RestingOrder, OrderQueue, OrderLocation,
  Levels, Locations,
}

-- `next_addr` is the address that the next list node gets.
pub record OrderBook : Type 0 where
  pub bids : Levels
  pub asks : Levels
  pub locations : Locations
  pub next_addr : ℕ

abbrev pub new : OrderBook
new = record { bids = []; asks = []; locations = []; next_addr = 0 }

-- `(side == Side::Buy) ? bids_ : asks_`
abbrev pub levels_of : Side → OrderBook → Levels
levels_of buy b = b.bids
levels_of sell b = b.asks

abbrev pub set_levels : Side → Levels → OrderBook → OrderBook
set_levels buy ls b = record b { bids = ls }
set_levels sell ls b = record b { asks = ls }

abbrev pub opposite : Side → Side
opposite buy = sell
opposite sell = buy

abbrev pub begin : Levels → Option (ℕ × OrderQueue)
begin [] = none
begin (l ∷ ls) = some l

-- The book, `remaining` and the caller's `fills` while an order is matched.
pub record Run : Type 0 where
  pub book : OrderBook
  pub remaining : ℕ
  pub fills : List Fill

-- The book after the loop of a level has run: the queue is written back under its price.
abbrev pub write_level : Side → ℕ → OrderBook → OrderQueue × Flow → Run
write_level side price b (q, s) = record {
  book = record (set_levels side (replace price q (levels_of side b)) b) {
    locations = s.locations;
  };
  remaining = s.remaining;
  fills = s.fills;
}

abbrev pub flow_of : Run → Flow
flow_of r = record { locations = r.book.locations; remaining = r.remaining; fills = r.fills }

unfoldable pub fill_at_level : Side → ℕ → ℕ → Run → Run
fill_at_level taker_side price taker_id r =
    let side = opposite taker_side in
    elim (lookup price (levels_of side r.book)) [
      | none ↦ r
      | some q ↦ write_level side price r.book (fill_queue taker_side price taker_id q (flow_of r))
    ]

-- `if (it->second.empty()) levels.erase(it);` for the level that `it` stands at
unfoldable pub erase_if_empty : Side → ℕ → Run → Run
erase_if_empty side price r = elim (lookup price (levels_of side r.book)) [
  | none ↦ r
  | some q ↦
      if is_nil q
      then record r { book = set_levels side (erase price (levels_of side r.book)) r.book }
      else r
]

abbrev pub is_limit : OrderType → Bool
is_limit limit = true
is_limit market = false

-- `match_buy`. Each round but the last erases a level, so as many rounds as levels are enough.
unfoldable pub match_buy : ℕ → Order → Run → Run
match_buy zero order r = r
match_buy (suc fuel) order r = if r.remaining == 0 then r else elim (begin r.book.asks) [
  | none ↦ r
  | some (p, _) ↦
      let rest = match_buy fuel order (erase_if_empty sell p (fill_at_level buy p order.id r)) in
      if is_limit order.order_type && ltb order.price p then r else rest
]

unfoldable pub match_sell : ℕ → Order → Run → Run
match_sell zero order r = r
match_sell (suc fuel) order r = if r.remaining == 0 then r else elim (get_last? r.book.bids) [
  | none ↦ r
  | some (p, _) ↦
      let rest = match_sell fuel order (erase_if_empty buy p (fill_at_level sell p order.id r)) in
      if is_limit order.order_type && ltb p order.price then r else rest
]

unfoldable pub place : ℕ → Side → ℕ → ℕ → OrderBook → OrderBook
place id side price qty b =
    let node : RestingOrder = record { addr = b.next_addr; id = id; qty = qty } in
    let loc : OrderLocation = record { side = side; price = price; iter = b.next_addr } in
    record (set_levels side (push_back ltb price node (levels_of side b)) b) {
      locations = assign id loc b.locations;
      next_addr = b.next_addr + 1;
    }

abbrev pub match_order : Order → Run → Run
match_order order r = elim order.side [
  | buy ↦ match_buy (length r.book.asks) order r
  | sell ↦ match_sell (length r.book.bids) order r
]

-- The new book, and the caller's buffer of fills with those of this order behind.
unfoldable pub add_order : Order → OrderBook → List Fill → OrderBook × List Fill
add_order order b fills =
    let r = match_order order (record { book = b; remaining = order.qty; fills = fills }) in
    if ltb 0 r.remaining && is_limit order.order_type
    then (place order.id order.side order.price r.remaining r.book, r.fills)
    else (r.book, r.fills)

-- `none` where the code would use an iterator that is not valid.
unfoldable pub cancel : ℕ → OrderBook → Option (Bool × OrderBook)
cancel order_id b = elim (lookup order_id b.locations) [
  | none ↦ some (false, b)
  | some loc ↦
      let b' = record b { locations = erase order_id b.locations } in
      let levels = levels_of loc.side b in
      elim (lookup loc.price levels) [
        | none ↦ none
        | some q ↦ elim (erase_node loc.iter q) [
          | none ↦ none
          | some q' ↦ some (
            true,
            set_levels loc.side
                (if is_nil q' then erase loc.price levels else replace loc.price q' levels) b',
          )
        ]
      ]
]

unfoldable pub best_bid : OrderBook → Option ℕ
best_bid b = elim (get_last? b.bids) [ none ↦ none | some l ↦ some l.0 ]

unfoldable pub best_ask : OrderBook → Option ℕ
best_ask b = elim (begin b.asks) [ none ↦ none | some l ↦ some l.0 ]

unfoldable pub spread : OrderBook → Option ℕ
unfolding best_bid best_ask
spread b = elim (best_bid b) [
  | none ↦ none
  | some bb ↦ elim (best_ask b) [
    | none ↦ none
    | some ba ↦ if leb bb ba then some (ba - bb) else none
  ]
]

unfoldable pub len : OrderBook → ℕ
len b = length b.locations

unfoldable pub is_empty : OrderBook → Bool
is_empty b = is_nil b.locations

unfoldable pub depth_at : Side → ℕ → OrderBook → ℕ
unfolding depth_of
depth_at side price b = depth_of (levels_of side b) price
