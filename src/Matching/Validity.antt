-- ===== src/Matching/Validity.antt =====
-- The representation invariant of the order book: what the maps, the queues and the table of
-- iterators are to one another.
pub mod Matched
pub mod Placed
pub mod Kept
pub mod Rewritten
pub mod Queues
pub mod Cancelled
use nanosecond_trading_stack.Common.{ℕ, ◌<◌, ◌≡◌, ◌≢◌, ◌⊎◌, List, [], ◌∷◌, Option, none, some, All}
use nanosecond_trading_stack.Common.Assoc.{lookup}
use nanosecond_trading_stack.Matching.Book.{OrderBook, levels_of}
use nanosecond_trading_stack.Matching.Sorted.{Ascending}
use nanosecond_trading_stack.Matching.Types.{RestingOrder, OrderQueue, OrderLocation, Levels}

-- Every order of a queue has a quantity, and the nodes stand in the order of their allocation.
abbrev pub Fifo : ℕ → OrderQueue → Type 0
Fifo next [] = Unit {0}
Fifo next (n ∷ ns) =
    (0 < n.qty) × (n.addr < next) × All (λ (m : RestingOrder). n.addr < m.addr) ns × Fifo next ns

abbrev pub LevelsOk : ℕ → Levels → Type 0
LevelsOk next [] = Unit {0}
LevelsOk next ((p, q) ∷ ls) = (q ≢ []) × Fifo next q × LevelsOk next ls

-- The queue holds the order `id` in the node at the address `a`.
abbrev pub HasNode : ℕ → ℕ → OrderQueue → Type 0
HasNode a id [] = ⊥
HasNode a id (n ∷ ns) = ((n.addr ≡ a) × (n.id ≡ id)) ⊎ HasNode a id ns

abbrev pub AtLevel : ℕ → ℕ → Option OrderQueue → Type 0
AtLevel a id none = ⊥
AtLevel a id (some q) = HasNode a id q

pub record IsValid (b : OrderBook) : Type 0 where
  pub bids_sorted : Ascending b.bids
  pub asks_sorted : Ascending b.asks
  pub bids_ok : LevelsOk b.next_addr b.bids
  pub asks_ok : LevelsOk b.next_addr b.asks
  pub located :
      (id : ℕ) (loc : OrderLocation)
      → lookup id b.locations ≡ some loc
      → AtLevel loc.iter id (lookup loc.price (levels_of loc.side b))
