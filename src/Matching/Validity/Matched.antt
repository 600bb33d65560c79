-- ===== src/Matching/Validity/Matched.antt =====
-- What matching against the levels of one side keeps of the invariant.
use nanosecond_trading_stack.Common.{ℕ, ◌≡◌, Bool, [], ◌∷◌, some, All, arith}
use nanosecond_trading_stack.Common.Assoc.{lookup, lookup-erase}
use nanosecond_trading_stack.Matching.Engine.{match_levels}
use nanosecond_trading_stack.Matching.Levels.{Flow, trade, forget, fill_queue}
use nanosecond_trading_stack.Matching.Sorted.{Sorted}
use nanosecond_trading_stack.Matching.Types.{Side, RestingOrder, OrderQueue, OrderLocation, Levels}
use nanosecond_trading_stack.Matching.Validity.{Fifo, LevelsOk, HasNode, AtLevel}

module _ (side : Side) (id : ℕ) where
  module _ (p : ℕ) where
    fill_queue-All :
        (P : ℕ → Type 0) (q : OrderQueue) (s : Flow)
        → All (λ (n : RestingOrder). P n.addr) q
        → All (λ (n : RestingOrder). P n.addr) (fill_queue side p id q s).0
    unfolding fill_queue
    fill_queue-All P [] s h = tt
    fill_queue-All P (n ∷ q) s h =
        ground (arith, fill_queue-All P q (forget n.id (trade side p id n s)))

    fill_queue-Fifo :
        (next : ℕ) (q : OrderQueue) (s : Flow)
        → Fifo next q
        → Fifo next (fill_queue side p id q s).0
    unfolding fill_queue
    fill_queue-Fifo next [] s h = tt
    fill_queue-Fifo next (n ∷ q) s h =
        ground (arith, fill_queue-Fifo next q (forget n.id (trade side p id n s)))

    -- Matching only takes locations out of the table.
    fill_queue-shrinks :
        (q : OrderQueue) (s : Flow) (k : ℕ) (loc : OrderLocation)
        → lookup k (fill_queue side p id q s).1.locations ≡ some loc
        → lookup k s.locations ≡ some loc
    unfolding fill_queue
    fill_queue-shrinks [] s k loc h = h
    fill_queue-shrinks (n ∷ q) s k loc h = ground (
      arith,
      fill_queue-shrinks q (forget n.id (trade side p id n s)) k loc,
      lookup-erase n.id k s.locations,
    )

    -- An order of the level that is still in the table is still in the queue.
    fill_queue-HasNode :
        (q : OrderQueue) (s : Flow) (k a : ℕ) (loc : OrderLocation)
        → lookup k (fill_queue side p id q s).1.locations ≡ some loc
        → HasNode a k q
        → HasNode a k (fill_queue side p id q s).0
    unfolding fill_queue
    fill_queue-HasNode [] s k a loc h m = m
    fill_queue-HasNode (n ∷ q) s k a loc h m =
        let s' = forget n.id (trade side p id n s) in
        ground (
          arith,
          fill_queue-HasNode q s' k a loc,
          fill_queue-shrinks q s' k loc,
          lookup-erase n.id k s.locations,
        )

  module _ (stop : ℕ → Bool) where
    match_levels-All :
        (P : ℕ → Type 0) (ls : Levels) (s : Flow)
        → All (λ (l : ℕ × OrderQueue). P l.0) ls
        → All (λ (l : ℕ × OrderQueue). P l.0) (match_levels side stop id ls s).0
    unfolding match_levels
    match_levels-All P [] s h = tt
    match_levels-All P ((p, q) ∷ ls) s h =
        ground (arith, match_levels-All P ls (fill_queue side p id q s).1)

    pub match_levels-Sorted :
        (R : ℕ → ℕ → Type 0) (ls : Levels) (s : Flow)
        → Sorted R ls
        → Sorted R (match_levels side stop id ls s).0
    unfolding match_levels
    match_levels-Sorted R [] s h = tt
    match_levels-Sorted R ((p, q) ∷ ls) s h =
        ground (arith, match_levels-Sorted R ls (fill_queue side p id q s).1)

    pub match_levels-LevelsOk :
        (next : ℕ) (ls : Levels) (s : Flow)
        → LevelsOk next ls
        → LevelsOk next (match_levels side stop id ls s).0
    unfolding match_levels
    match_levels-LevelsOk next [] s h = tt
    match_levels-LevelsOk next ((p, q) ∷ ls) s h =
        let f = fill_queue side p id q s in
        ground (arith, fill_queue-Fifo p next q s, match_levels-LevelsOk next ls f.1)

    pub match_levels-shrinks :
        (ls : Levels) (s : Flow) (k : ℕ) (loc : OrderLocation)
        → lookup k (match_levels side stop id ls s).1.locations ≡ some loc
        → lookup k s.locations ≡ some loc
    unfolding match_levels
    match_levels-shrinks [] s k loc h = h
    match_levels-shrinks ((p, q) ∷ ls) s k loc h = ground (
      arith,
      fill_queue-shrinks p q s k loc,
      match_levels-shrinks ls (fill_queue side p id q s).1 k loc,
    )

    pub match_levels-AtLevel :
        (ls : Levels) (s : Flow) (k a price : ℕ) (loc : OrderLocation)
        → lookup k (match_levels side stop id ls s).1.locations ≡ some loc
        → AtLevel a k (lookup price ls)
        → AtLevel a k (lookup price (match_levels side stop id ls s).0)
    unfolding match_levels lookup
    match_levels-AtLevel [] s k a price loc h m = m
    match_levels-AtLevel ((p, q) ∷ ls) s k a price loc h m =
        let f = fill_queue side p id q s in
        ground (
          arith,
          fill_queue-HasNode p q s k a loc,
          match_levels-shrinks ls f.1 k loc,
          match_levels-AtLevel ls f.1 k a price loc,
        )
