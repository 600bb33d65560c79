-- ===== src/Matching/Engine.antt =====
-- src/matching_engine.cpp: the second order book. Its bids descend, so that the best level of each
-- side is the first.
use nanosecond_trading_stack.Common.{
  ℕ, ◌+◌, ◌-◌, Bool, true, false, ◌&&◌, Option, none, some, List, [], ◌∷◌, ltb, ◌==◌, if◌then◌else◌,
  is_nil, length,
}
use nanosecond_trading_stack.Common.Assoc.{lookup, assign, replace, erase}
use nanosecond_trading_stack.Matching.Levels.{Flow, fill_queue, push_back, erase_node, depth_of}
use nanosecond_trading_stack.Matching.Types.{
  Side, buy, sell, Order, Fill, RestingOrder, OrderLocation, Levels, Locations,
}
use nanosecond_trading_stack.Matching.Book.{begin, is_limit}

pub record EngineBook : Type 0 where
  pub bids : Levels
  pub asks : Levels
  pub locations : Locations
  pub next_addr : ℕ

abbrev pub new : EngineBook
new = record { bids = []; asks = []; locations = []; next_addr = 0 }

-- The outer loop, which the source writes once for each side: `stop` is the test of the limit.
unfoldable pub match_levels : Side → (ℕ → Bool) → ℕ → Levels → Flow → Levels × Flow
match_levels side stop taker_id [] s = ([], s)
match_levels side stop taker_id ((p, q) ∷ ls) s =
    let filled = fill_queue side p taker_id q s in
    let rest = match_levels side stop taker_id ls filled.1 in
    if s.remaining == 0
    then ((p, q) ∷ ls, s)
    else if stop p
    then ((p, q) ∷ ls, s)
    else if is_nil filled.0
    then rest
    else ((p, filled.0) ∷ ls, filled.1)

abbrev pub buy_stops : Order → ℕ → Bool
buy_stops order p = is_limit order.order_type && ltb order.price p

abbrev pub sell_stops : Order → ℕ → Bool
sell_stops order p = is_limit order.order_type && ltb p order.price

unfoldable pub match_buy : Order → EngineBook → Flow → EngineBook × Flow
unfolding match_levels
match_buy order b s =
    let (asks, s') = match_levels buy (buy_stops order) order.id b.asks s in
    (record b { asks = asks; locations = s'.locations }, s')

unfoldable pub match_sell : Order → EngineBook → Flow → EngineBook × Flow
unfolding match_levels
match_sell order b s =
    let (bids, s') = match_levels sell (sell_stops order) order.id b.bids s in
    (record b { bids = bids; locations = s'.locations }, s')

abbrev pub gtb : ℕ → ℕ → Bool
gtb a b = ltb b a

unfoldable pub place : ℕ → Side → ℕ → ℕ → EngineBook → EngineBook
place id side price qty b =
    let node : RestingOrder = record { addr = b.next_addr; id = id; qty = qty } in
    let loc : OrderLocation = record { side = side; price = price; iter = b.next_addr } in
    let b' = record b { locations = assign id loc b.locations; next_addr = b.next_addr + 1 } in
    elim side [
      | buy ↦ record b' { bids = push_back gtb price node b.bids }
      | sell ↦ record b' { asks = push_back ltb price node b.asks }
    ]

abbrev pub match_order : Order → EngineBook → Flow → EngineBook × Flow
match_order order b s = elim order.side [ buy ↦ match_buy order b s | sell ↦ match_sell order b s ]

unfoldable pub add_order : Order → EngineBook → List Fill → EngineBook × List Fill
add_order order b fills =
    let r =
      match_order order b
        (record { locations = b.locations; remaining = order.qty; fills = fills }) in
    if ltb 0 r.1.remaining && is_limit order.order_type
    then (place order.id order.side order.price r.1.remaining r.0, r.1.fills)
    else (r.0, r.1.fills)

-- `erase(queue_it)` at a level of one side, and of the level if that empties it.
unfoldable pub erase_at : ℕ → ℕ → Levels → Option Levels
erase_at price iter levels = elim (lookup price levels) [
  | none ↦ none
  | some q ↦ elim (erase_node iter q) [
    | none ↦ none
    | some q' ↦ some (if is_nil q' then erase price levels else replace price q' levels)
  ]
]

unfoldable pub cancel : ℕ → EngineBook → Option (Bool × EngineBook)
unfolding erase_at
cancel order_id b = elim (lookup order_id b.locations) [
  | none ↦ some (false, b)
  | some loc ↦
      let b' = record b { locations = erase order_id b.locations } in
      elim loc.side [
        | buy ↦ elim (erase_at loc.price loc.iter b.bids) [
          | none ↦ none
          | some ls ↦ some (true, record b' { bids = ls })
        ]
        | sell ↦ elim (erase_at loc.price loc.iter b.asks) [
          | none ↦ none
          | some ls ↦ some (true, record b' { asks = ls })
        ]
      ]
]

unfoldable pub best_bid : EngineBook → Option ℕ
best_bid b = elim (begin b.bids) [ none ↦ none | some l ↦ some l.0 ]

unfoldable pub best_ask : EngineBook → Option ℕ
best_ask b = elim (begin b.asks) [ none ↦ none | some l ↦ some l.0 ]

unfoldable pub spread : EngineBook → Option ℕ
unfolding best_bid best_ask
spread b = elim (best_bid b) [
  | none ↦ none
  | some bid ↦ elim (best_ask b) [
    | none ↦ none
    | some ask ↦ if ltb ask bid then none else some (ask - bid)
  ]
]

unfoldable pub len : EngineBook → ℕ
len b = length b.locations

unfoldable pub is_empty : EngineBook → Bool
is_empty b = is_nil b.locations

unfoldable pub depth_at : Side → ℕ → EngineBook → ℕ
unfolding depth_of
depth_at buy price b = depth_of b.bids price
depth_at sell price b = depth_of b.asks price
