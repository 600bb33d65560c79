-- ===== src/Matching/Loops.antt =====
-- The matching loops of src/matching/orderbook.cpp, which look the level up again under its price
-- and run from the front of the asks and the back of the bids, are the loop over the levels from
-- best to worst.
use mathlib.Core.List.{reverse-cons, reverse-reverse}
use nanosecond_trading_stack.Common.{
  ℕ, zero, suc, ◌≤◌, ◌<◌, ◌≡◌, refl, ap, ◌⊎◌, Bool, true, false, inl, inr, List, [], ◌∷◌, ◌++◌,
  reverse, none, some, arith, length, length-append, get_last?-append, is_nil, All, if◌then◌else◌,
  ◌==◌, Bool-cases,
}
use nanosecond_trading_stack.Common.Assoc.{lookup, replace, erase}
use nanosecond_trading_stack.Matching.Book.{
  OrderBook, Run, begin, fill_at_level, erase_if_empty, match_buy, match_sell,
}
use nanosecond_trading_stack.Matching.Engine.{match_levels, buy_stops, sell_stops}
use nanosecond_trading_stack.Matching.Levels.{Flow, trade, forget, fill_queue}
use nanosecond_trading_stack.Matching.Sorted.{
  Ascending, Descending, lookup-of_lt, lookup-of_gt, erase-of_lookup, lookup-last, replace-last,
  erase-last, All-reverse, Sorted-reverse,
}
use nanosecond_trading_stack.Matching.Types.{
  Order, OrderQueue, Levels, Side, buy, sell, Locations, Fill,
}

abbrev pub run_of : OrderBook → Flow → Run
run_of b s = record {
  book = record b { locations = s.locations };
  remaining = s.remaining;
  fills = s.fills;
}

module _ (order : Order) (b : OrderBook) where
  abbrev asks_run : Levels → Flow → Run
  asks_run asks s = run_of (record b { asks = asks }) s

  buy_level :
      (p : ℕ) (q : OrderQueue) (ls : Levels) (s : Flow)
      → All (λ l. p < l.0) ls
      → erase_if_empty sell p (fill_at_level buy p order.id (asks_run ((p, q) ∷ ls) s)) ≡ (
          let f = fill_queue buy p order.id q s in
          if is_nil f.0 then asks_run ls f.1 else asks_run ((p, f.0) ∷ ls) f.1)
  unfolding erase_if_empty fill_at_level lookup replace erase
  buy_level p q ls s h = ground (arith, erase-of_lookup p ls (lookup-of_lt p ls h))

-- A level that keeps an order has used the whole quantity up.
pub fill_queue_done :
    (side : Side) (p id : ℕ) (q : OrderQueue) (s : Flow)
    → is_nil (fill_queue side p id q s).0 ≡ false
    → (fill_queue side p id q s).1.remaining ≡ 0
unfolding fill_queue
fill_queue_done side p id [] s h = cc
fill_queue_done side p id (n ∷ q) s h =
    ground (arith, fill_queue_done side p id q (forget n.id (trade side p id n s)))

module _ (order : Order) where
  match_buy_done : (fuel : ℕ) (r : Run) → r.remaining ≡ 0 → match_buy fuel order r ≡ r
  unfolding match_buy
  match_buy_done zero r h = refl
  match_buy_done (suc fuel) r h = ground arith

  match_sell_done : (fuel : ℕ) (r : Run) → r.remaining ≡ 0 → match_sell fuel order r ≡ r
  unfolding match_sell
  match_sell_done zero r h = refl
  match_sell_done (suc fuel) r h = ground arith

  module _ (b : OrderBook) where
    match_buy-levels :
        (fuel : ℕ) (asks : Levels) (s : Flow)
        → length asks ≤ fuel
        → Ascending asks
        → match_buy fuel order (asks_run order b asks s)
          ≡ (let r = match_levels buy (buy_stops order) order.id asks s in asks_run order b r.0 r.1)
    unfolding match_buy match_levels
    match_buy-levels zero [] s h a = refl
    match_buy-levels (suc fuel) [] s h a = ground arith
    match_buy-levels zero ((p, q) ∷ ls) s h a = absurd (omega arith)
    match_buy-levels (suc fuel) ((p, q) ∷ ls) s h a =
        let f = fill_queue buy p order.id q s in
        ground (
          arith,
          buy_level order b p q ls s a.0,
          match_buy-levels fuel ls f.1,
          fill_queue_done buy p order.id q s,
          match_buy_done fuel (asks_run order b ((p, f.0) ∷ ls) f.1),
        )

    abbrev bids_run : Levels → Flow → Run
    bids_run bids s = run_of (record b { bids = bids }) s

    sell_level :
        (p : ℕ) (q : OrderQueue) (ls : Levels) (s : Flow)
        → lookup p ls ≡ none
        → erase_if_empty buy p (fill_at_level sell p order.id (bids_run (ls ++ ((p, q) ∷ [])) s))
          ≡ (let f = fill_queue sell p order.id q s in
              if is_nil f.0 then bids_run ls f.1 else bids_run (ls ++ ((p, f.0) ∷ [])) f.1)
    unfolding erase_if_empty fill_at_level
    sell_level p q ls s h =
        let f = fill_queue sell p order.id q s in
        ground (
          arith,
          lookup-last p q ls,
          replace-last p f.0 ls q,
          lookup-last p f.0 ls,
          erase-last p f.0 ls,
        )

    -- The same from the back of the bids.
    match_sell-levels :
        (fuel : ℕ) (ds : Levels) (s : Flow)
        → length ds ≤ fuel
        → Descending ds
        → match_sell fuel order (bids_run (reverse ds) s) ≡ (
            let r = match_levels sell (sell_stops order) order.id ds s in
            bids_run (reverse r.0) r.1)
    unfolding match_sell match_levels
    match_sell-levels zero [] s h a = refl
    match_sell-levels (suc fuel) [] s h a = ground arith
    match_sell-levels zero ((p, q) ∷ ls) s h a = absurd (omega arith)
    match_sell-levels (suc fuel) ((p, q) ∷ ls) s h a =
        let f = fill_queue sell p order.id q s in
        let absent = lookup-of_gt p (reverse ls) (All-reverse (λ l. l.0 < p) ls a.0) in
        ground (
          arith,
          reverse-cons (p, q) ls,
          reverse-cons (p, f.0) ls,
          get_last?-append (reverse ls) (p, q),
          sell_level p q (reverse ls) s absent,
          match_sell-levels fuel ls f.1,
          fill_queue_done sell p order.id q s,
          match_sell_done fuel (bids_run (reverse ls ++ ((p, f.0) ∷ [])) f.1),
        )

length-reverse {ℓ} : {A : Type ℓ} (xs : List A) → length (reverse xs) ≡ length xs
length-reverse [] = refl
length-reverse (x ∷ xs) =
    omega
      (arith, ap length (reverse-cons x xs), length-append (reverse xs) (x ∷ []), length-reverse xs)

abbrev pub start : OrderBook → ℕ → List Fill → Run
start b qty fills = record { book = b; remaining = qty; fills = fills }

abbrev pub start_flow : Locations → ℕ → List Fill → Flow
start_flow locations qty fills = record { locations = locations; remaining = qty; fills = fills }

module _ (order : Order) (b : OrderBook) (qty : ℕ) (fills : List Fill) where
  -- The levels left and the other effects of matching, best level first.
  abbrev pub bought : Levels × Flow
  bought = match_levels buy (buy_stops order) order.id b.asks (start_flow b.locations qty fills)

  abbrev pub sold : Levels × Flow
  sold =
      match_levels sell (sell_stops order) order.id (reverse b.bids)
        (start_flow b.locations qty fills)

  pub match_buy_lem :
      Ascending b.asks
      → match_buy (length b.asks) order (start b qty fills)
        ≡ run_of (record b { asks = bought.0 }) bought.1
  match_buy_lem a = match_buy-levels order b (length b.asks) b.asks _ (omega arith) a

  pub match_sell_lem :
      Ascending b.bids
      → match_sell (length b.bids) order (start b qty fills)
        ≡ run_of (record b { bids = reverse sold.0 }) sold.1
  match_sell_lem a = rw (reverse-reverse b.bids) at (
      match_sell-levels order b (length b.bids) (reverse b.bids) (start_flow b.locations qty fills)
        (omega (arith, length-reverse b.bids)) (Sorted-reverse (λ x y. x < y) b.bids a))

-- How the loop over the levels may end: nothing remains, no level is left, or the first is beyond
-- the limit.
abbrev pub Ends : (ℕ → Bool) → Levels → ℕ → Type 0
Ends stop levels remaining =
    (remaining ≡ 0)
    ⊎ ((levels ≡ []) ⊎ ((l : ℕ × OrderQueue) × (begin levels ≡ some l) × (stop l.0 ≡ true)))

-- The loop over the levels ends by one of its own tests, for every side, limit, list and state.
pub match_levels-Ends :
    (side : Side) (stop : ℕ → Bool) (id : ℕ) (ls : Levels) (s : Flow)
    → let r = match_levels side stop id ls s in Ends stop r.0 r.1.remaining
unfolding match_levels
match_levels-Ends side stop id [] s = inr (inl refl)
match_levels-Ends side stop id ((p, q) ∷ ls) s =
    let f = fill_queue side p id q s in
    let rest = match_levels-Ends side stop id ls f.1 in
    let done = fill_queue_done side p id q s in
    elim (Bool-cases (s.remaining == 0)) [
      | inl e ↦ rw e (inl (ground arith))
      | inr e ↦ elim (Bool-cases (stop p)) [
        | inl t ↦ rw (e, t) (inr (inr ((p, q), refl, t)))
        | inr t ↦ elim (Bool-cases (is_nil f.0)) [
          | inl n ↦ rw (e, t, n) rest
          | inr n ↦ rw (e, t, n) (inl (done n))
        ]
      ]
    ]
