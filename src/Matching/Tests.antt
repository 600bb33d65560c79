-- ===== src/Matching/Tests.antt =====
-- A small book, and what the theorems say of it.
use nanosecond_trading_stack.Common.{
  ℕ, ◌+◌, ◌-◌, ◌≤◌, ◌≡◌, refl, Bool, true, none, some, [], ◌++◌, All, ◌==◌, if◌then◌else◌,
}
use nanosecond_trading_stack.Common.Assoc.{lookup, assign, erase}
use nanosecond_trading_stack.Matching.Book as Book
use nanosecond_trading_stack.Matching.Book.{OrderBook, new, levels_of, add_order, cancel, is_limit}
use nanosecond_trading_stack.Matching.Engine as Engine
use nanosecond_trading_stack.Matching.Equivalence.{
  mirror, mirror_result, add_order-mirror, cancel-mirror, views-mirror,
}
use nanosecond_trading_stack.Matching.Levels.{push_back, erase_node}
use nanosecond_trading_stack.Matching.Priority.{leftover}
use nanosecond_trading_stack.Matching.Reachable.{Reachable, fresh, submitted, Reachable-IsValid}
use nanosecond_trading_stack.Matching.Trades.{
  trades, facing, stops, Acceptable, add_order-consume, add_order_conserves, add_order-Acceptable,
}
use nanosecond_trading_stack.Matching.Priority.{priority, filled, held}
use nanosecond_trading_stack.Matching.Types.{Side, buy, sell, limit, Order, Fill}
use nanosecond_trading_stack.Matching.Uncrossed.{IsUncrossed}
use nanosecond_trading_stack.Matching.Validity.Cancelled.{cancel_total, is_known}
use nanosecond_trading_stack.Matching.Validity.Queues.{queue_at, left_of}
use nanosecond_trading_stack.Matching.Validity.{IsValid}

abbrev ask : Order
ask = record { id = 1; side = sell; price = 101; qty = 5; order_type = limit }

abbrev bid : Order
bid = record { id = 2; side = buy; price = 100; qty = 4; order_type = limit }

abbrev taker : Order
taker = record { id = 3; side = buy; price = 102; qty = 7; order_type = limit }

abbrev one_side : OrderBook
one_side = (add_order ask new []).0

abbrev two_sides : OrderBook
two_sides = (add_order bid one_side []).0

-- `two_sides` without the bid; the next node comes at another address.
abbrev bid_cancelled : OrderBook
bid_cancelled = record one_side { next_addr = 2 }

two_sides-Reachable : Reachable two_sides
two_sides-Reachable = submitted bid [] (submitted ask [] fresh)

two_sides-IsValid : IsValid two_sides
two_sides-IsValid = (Reachable-IsValid two_sides-Reachable).0

two_sides-IsUncrossed : IsUncrossed two_sides
two_sides-IsUncrossed = (Reachable-IsValid two_sides-Reachable).1

Reachable-IsValid_example : IsValid two_sides × IsUncrossed two_sides
Reachable-IsValid_example = Reachable-IsValid two_sides-Reachable

add_order-consume_example :
    let r = add_order taker two_sides [] in
    (r.1 ≡ [] ++ trades taker two_sides [])
    × (facing buy r.0 ≡ leftover buy (stops taker) 3 7 (facing buy two_sides))
add_order-consume_example = add_order-consume taker two_sides [] two_sides-IsValid

add_order_conserves_example :
    let r = add_order taker two_sides [] in
    let traded = filled (trades taker two_sides []) in
    (traded ≤ 7)
    × (held (facing buy r.0) + traded ≡ held (facing buy two_sides))
    × (held (priority (levels_of buy r.0))
        ≡ held (priority (levels_of buy two_sides)) + (7 - traded))
add_order_conserves_example = add_order_conserves taker two_sides [] two_sides-IsValid

add_order-Acceptable_example :
    All
      (λ (f : Fill). Acceptable taker f × (f.taker_id ≡ 3) × (f.side ≡ buy))
      (add_order taker two_sides []).1
add_order-Acceptable_example = add_order-Acceptable taker two_sides two_sides-IsValid

add_order-mirror_example :
    Engine.add_order taker (mirror two_sides) []
    ≡ (let r = Book.add_order taker two_sides [] in (mirror r.0, r.1))
add_order-mirror_example = add_order-mirror taker two_sides [] two_sides-IsValid

cancel-mirror_example : Engine.cancel 2 (mirror two_sides) ≡ mirror_result (Book.cancel 2 two_sides)
cancel-mirror_example = cancel-mirror 2 two_sides two_sides-IsValid

views-mirror_example :
    (Engine.best_bid (mirror two_sides) ≡ Book.best_bid two_sides)
    × (Engine.best_ask (mirror two_sides) ≡ Book.best_ask two_sides)
    × (Engine.spread (mirror two_sides) ≡ Book.spread two_sides)
    × (Engine.len (mirror two_sides) ≡ Book.len two_sides)
    × (Engine.is_empty (mirror two_sides) ≡ Book.is_empty two_sides)
    × (Engine.depth_at buy 100 (mirror two_sides) ≡ Book.depth_at buy 100 two_sides)
    × (Engine.depth_at sell 100 (mirror two_sides) ≡ Book.depth_at sell 100 two_sides)
views-mirror_example = views-mirror two_sides 100 two_sides-IsValid

cancel_total_example :
    (r : Bool × OrderBook) × (cancel 2 two_sides ≡ some r)
    × (r.0 ≡ is_known (lookup 2 two_sides.locations))
    × ((k : ℕ) → lookup k r.1.locations ≡ (if 2 == k then none else lookup k two_sides.locations))
    × IsValid r.1
    × ((side : Side) (p : ℕ)
        → queue_at side p r.1
          ≡ left_of (lookup 2 two_sides.locations) side p (queue_at side p two_sides))
cancel_total_example = cancel_total 2 two_sides two_sides-IsValid

bid_there : Book.best_bid two_sides ≡ some 100
unfolding Book.best_bid add_order Book.match_buy Book.match_sell Book.place push_back
bid_there = refl

ask_there : Book.best_ask two_sides ≡ some 101
unfolding Book.best_ask add_order Book.match_buy Book.match_sell Book.place push_back
ask_there = refl

cancelled_bid : cancel 2 two_sides ≡ some (true, bid_cancelled)
unfolding cancel add_order lookup Book.match_buy Book.match_sell Book.place push_back assign
    erase_node erase
cancelled_bid = refl
