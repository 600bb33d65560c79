-- ===== src/Matching/Levels.antt =====
-- The price levels of one side and the queues in them, as both order books use them.
use nanosecond_trading_stack.Common.{
  ℕ, ◌+◌, ◌-◌, ◌%◌, min, Bool, Option, none, some, List, [], ◌∷◌, ◌++◌, ◌==◌, if◌then◌else◌,
  u64_mod,
}
use nanosecond_trading_stack.Common.Assoc.{lookup, erase}
use nanosecond_trading_stack.Matching.Types.{
  Side, Fill, RestingOrder, OrderQueue, Levels, Locations,
}

-- What the matching loops change besides the levels: `locations_`, `remaining` and `fills`.
pub record Flow : Type 0 where
  pub locations : Locations
  pub remaining : ℕ
  pub fills : List Fill

-- One trade with the front order: its quantity comes off `remaining`, and the fill is recorded.
abbrev pub trade : Side → ℕ → ℕ → RestingOrder → Flow → Flow
trade taker_side price taker_id front s =
    let fill_qty = min s.remaining front.qty in
    record s {
      remaining = s.remaining - fill_qty;
      fills =
          s.fills
          ++ (record {
            maker_id = front.id;
            taker_id = taker_id;
            price = price;
            qty = fill_qty;
            side = taker_side;
          }
              ∷ []);
    }

abbrev pub forget : ℕ → Flow → Flow
forget id s = record s { locations = erase id s.locations }

-- The inner loop of matching over the queue of one level. The loop goes on with a front order
-- that keeps some quantity only when `remaining` is 0, where its test ends it.
unfoldable pub fill_queue : Side → ℕ → ℕ → OrderQueue → Flow → OrderQueue × Flow
fill_queue taker_side price taker_id [] s = ([], s)
fill_queue taker_side price taker_id (front ∷ rest) s =
    let left = front.qty - min s.remaining front.qty in
    let traded = trade taker_side price taker_id front s in
    let next = fill_queue taker_side price taker_id rest (forget front.id traded) in
    if s.remaining == 0
    then (front ∷ rest, s)
    else if left == 0
    then next
    else (record front { qty = left } ∷ rest, traded)

-- `levels[price]`, which makes an empty queue where there is none, and `push_back` on it. `before`
-- is the order of the map's keys.
unfoldable pub push_back : (ℕ → ℕ → Bool) → ℕ → RestingOrder → Levels → Levels
push_back before price node [] = (price, node ∷ []) ∷ []
push_back before price node ((p, q) ∷ ls) =
    if p == price
    then (p, q ++ (node ∷ [])) ∷ ls
    else if before price p
    then (price, node ∷ []) ∷ (p, q) ∷ ls
    else (p, q) ∷ push_back before price node ls

-- `queue.erase(iterator)`; `none` where the iterator is not into this queue, which is undefined.
unfoldable pub erase_node : ℕ → OrderQueue → Option OrderQueue
erase_node a [] = none
erase_node a (n ∷ ns) =
    if n.addr == a then some ns else elim (erase_node a ns) [ none ↦ none | some r ↦ some (n ∷ r) ]

-- The sum of the quantities in a queue, as `uint64_t`.
unfoldable pub total_qty : ℕ → OrderQueue → ℕ
total_qty total [] = total
total_qty total (n ∷ ns) = total_qty ((total + n.qty) % u64_mod) ns

-- `map.find(price)` for the sum of a level: 0 where the price has no level.
unfoldable pub depth_of : Levels → ℕ → ℕ
unfolding total_qty
depth_of levels price = elim (lookup price levels) [ none ↦ 0 | some q ↦ total_qty 0 q ]
