-- ===== src/Matching/Equivalence.antt =====
-- The two order books, src/matching/orderbook.cpp and src/matching_engine.cpp, side by side.
use mathlib.Core.List.{reverse-cons, reverse-reverse, append_assoc}
use nanosecond_trading_stack.Common.{
  ℕ, ◌≤◌, ◌<◌, ◌≡◌, dec_lt, refl, sym, List, [], ◌∷◌, ◌++◌, reverse, Option, none, some, arith, All,
  inl, inr, Bool, Option-cases, ltb, get_last?,
}
use nanosecond_trading_stack.Common.Assoc.{lookup}
use nanosecond_trading_stack.Matching.Book
use nanosecond_trading_stack.Matching.Book.{OrderBook, Run, begin}
use nanosecond_trading_stack.Matching.Engine
use nanosecond_trading_stack.Matching.Engine.{EngineBook, gtb}
use nanosecond_trading_stack.Matching.Loops.{start, start_flow, match_buy_lem, match_sell_lem}
use nanosecond_trading_stack.Matching.Levels.{push_back, erase_node}
use nanosecond_trading_stack.Matching.Sorted.{
  Ascending, All-reverse, lookup-reverse, erase-reverse, replace-reverse,
}
use nanosecond_trading_stack.Matching.Validity.{IsValid}
use nanosecond_trading_stack.Matching.Validity.Kept.{match_order-IsValid}
use nanosecond_trading_stack.Matching.Types.{
  Side, buy, sell, Order, RestingOrder, OrderQueue, Levels, Fill,
}

-- The engine's book with the same contents: its bids run the other way.
abbrev pub mirror : OrderBook → EngineBook
mirror b = record {
  bids = reverse b.bids;
  asks = b.asks;
  locations = b.locations;
  next_addr = b.next_addr;
}

module _ (p : ℕ) (n : RestingOrder) where
  push_back-append_gt :
      (xs ys : Levels)
      → All (λ l. p < l.0) xs
      → push_back gtb p n (xs ++ ys) ≡ xs ++ push_back gtb p n ys
  unfolding push_back
  push_back-append_gt [] ys h = refl
  push_back-append_gt ((j, q) ∷ xs) ys h = ground (arith, push_back-append_gt xs ys)

  push_back-append_lt :
      (xs : Levels) (l : ℕ × List RestingOrder)
      → l.0 < p
      → push_back gtb p n (xs ++ (l ∷ [])) ≡ push_back gtb p n xs ++ (l ∷ [])
  unfolding push_back
  push_back-append_lt [] l h = ground arith
  push_back-append_lt ((j, q) ∷ xs) l h = ground (arith, push_back-append_lt xs l)

  All-lower : (j : ℕ) (ls : Levels) → p ≤ j → All (λ l. j < l.0) ls → All (λ l. p < l.0) ls
  All-lower j [] h a = tt
  All-lower j (l ∷ ls) h a = (omega arith, All-lower j ls h a.1)

  push_back-cons_lt :
      (j : ℕ) (q : List RestingOrder) (ls : Levels)
      → j < p
      → push_back ltb p n ((j, q) ∷ ls) ≡ (j, q) ∷ push_back ltb p n ls
  unfolding push_back
  push_back-cons_lt j q ls lo = ground arith

  push_back-cons_ge :
      (j : ℕ) (q : List RestingOrder) (ls : Levels)
      → p ≤ j
      → reverse ls ++ push_back gtb p n ((j, q) ∷ []) ≡ reverse (push_back ltb p n ((j, q) ∷ ls))
  unfolding push_back
  push_back-cons_ge j q ls hi = ground (
    arith,
    reverse-cons (j, q) ls,
    reverse-cons (p, n ∷ []) ((j, q) ∷ ls),
    reverse-cons (j, q ++ (n ∷ [])) ls,
    append_assoc (reverse ls) ((j, q) ∷ []) ((p, n ∷ []) ∷ []),
  )

  -- Inserting into the ascending and into the descending map gives mirrored maps.
  push_back-reverse :
      (ls : Levels) → Ascending ls → push_back gtb p n (reverse ls) ≡ reverse (push_back ltb p n ls)
  push_back-reverse [] a = unfold push_back in refl
  push_back-reverse ((j, q) ∷ ls) a = elim (dec_lt j p) [
    | yes lo ↦
        rw
          (
            reverse-cons (j, q) ls,
            push_back-append_lt (reverse ls) (j, q) lo,
            push_back-reverse ls a.1,
            push_back-cons_lt j q ls lo,
          )
          (sym (reverse-cons (j, q) (push_back ltb p n ls)))
    | no hi ↦
        let above = All-reverse (λ l. p < l.0) ls (All-lower j ls (omega arith) a.0) in
        rw (reverse-cons (j, q) ls, push_back-append_gt (reverse ls) ((j, q) ∷ []) above)
          (push_back-cons_ge j q ls (omega arith))
  ]

place-mirror :
    (id price qty : ℕ) (b : OrderBook) (side : Side)
    → Ascending b.bids
    → Engine.place id side price qty (mirror b) ≡ mirror (Book.place id side price qty b)
unfolding Engine.place Book.place
place-mirror id price qty b buy a =
    rw (push_back-reverse price (record { addr = b.next_addr; id = id; qty = qty }) b.bids a)
place-mirror id price qty b sell a = refl

module _ (order : Order) (b : OrderBook) (fills : List Fill) where
  module _ (bids : Ascending b.bids) (asks : Ascending b.asks) where
    match_order-mirror :
        let r = Book.match_order order (start b order.qty fills) in
        Engine.match_order order (mirror b) (start_flow b.locations order.qty fills)
        ≡ (mirror r.book, Book.flow_of r)
    unfolding Engine.match_buy Engine.match_sell
    match_order-mirror = by_side order.side
      where
        by_side :
            (side : Side)
            → let o = record order { side = side } in
              let r = Book.match_order o (start b order.qty fills) in
              Engine.match_order o (mirror b) (start_flow b.locations order.qty fills)
              ≡ (mirror r.book, Book.flow_of r)
        by_side buy = rw (match_buy_lem (record order { side = buy }) b order.qty fills asks)
        by_side sell =
            rw (match_sell_lem (record order { side = sell }) b order.qty fills bids)
              (rw reverse-reverse)

  -- From a valid book, and the engine's book with the same contents, an order gives the same fills and
  -- leaves books with the same contents.
  pub add_order-mirror :
      IsValid b
      → Engine.add_order order (mirror b) fills
        ≡ (let r = Book.add_order order b fills in (mirror r.0, r.1))
  unfolding Engine.add_order Book.add_order
  add_order-mirror v =
      let r : Run = Book.match_order order (start b order.qty fills) in
      let matched = match_order-IsValid order b order.qty fills v in
      rw (match_order-mirror v.bids_sorted v.asks_sorted) (
        ground (
          arith,
          place-mirror order.id order.price r.remaining r.book order.side matched.bids_sorted,
        ))

abbrev pub mirror_result : Option (Bool × OrderBook) → Option (Bool × EngineBook)
mirror_result none = none
mirror_result (some (done, b)) = some (done, mirror b)

erase_at-reverse :
    (price iter : ℕ) (ls : Levels)
    → Ascending ls
    → Engine.erase_at price iter (reverse ls)
      ≡ elim (Engine.erase_at price iter ls) [ none ↦ none | some r ↦ some (reverse r) ]
unfolding Engine.erase_at
erase_at-reverse price iter ls a =
    let same = lookup-reverse price ls a in
    elim (Option-cases (lookup price ls)) [
      | inl e ↦ ground arith
      | inr (q, e) ↦ elim (Option-cases (erase_node iter q)) [
        | inl n ↦ ground arith
        | inr (r, n) ↦ ground (arith, erase-reverse price ls, replace-reverse price r ls a)
      ]
    ]

cancel-found :
    (id price iter : ℕ) (side : Side) (b : OrderBook)
    → lookup id b.locations ≡ some (record { side = side; price = price; iter = iter })
    → Ascending b.bids
    → Engine.cancel id (mirror b) ≡ mirror_result (Book.cancel id b)
unfolding Engine.cancel Book.cancel
cancel-found id price iter buy b e a =
    rw (e, Engine.cancel, Book.cancel)
      (rw (erase_at-reverse price iter b.bids a, Engine.erase_at) (ground arith))
cancel-found id price iter sell b e a =
    rw (e, Engine.cancel, Book.cancel) (unfold Engine.erase_at in ground arith)

-- From a valid book, and the engine's book with the same contents, a cancellation has the same result
-- and leaves books with the same contents.
pub cancel-mirror :
    (order_id : ℕ) (b : OrderBook)
    → IsValid b
    → Engine.cancel order_id (mirror b) ≡ mirror_result (Book.cancel order_id b)
cancel-mirror order_id b v = elim (Option-cases (lookup order_id b.locations)) [
  | inl e ↦ unfold Engine.cancel Book.cancel in rw (e, Engine.cancel, Book.cancel)
  | inr (loc, e) ↦ cancel-found order_id loc.price loc.iter loc.side b e v.bids_sorted
]

begin-append :
    (xs ys : Levels) → begin (xs ++ ys) ≡ elim (begin xs) [ none ↦ begin ys | some l ↦ some l ]
begin-append [] ys = ground arith
begin-append (x ∷ xs) ys = refl

begin-reverse : (ls : Levels) → begin (reverse ls) ≡ get_last? ls
begin-reverse [] = refl
begin-reverse (l ∷ []) = refl
begin-reverse (l ∷ m ∷ ls) =
    rw (reverse-cons l (m ∷ ls), begin-append (reverse (m ∷ ls)) (l ∷ []))
      (rw (begin-reverse (m ∷ ls)) (last-some m ls))
  where
    last-some :
        (m : ℕ × OrderQueue) (ls : Levels)
        → (elim (get_last? (m ∷ ls)) [ none ↦ begin (l ∷ []) | some x ↦ some x ])
          ≡ get_last? (m ∷ ls)
    last-some m [] = refl
    last-some m (n ∷ ls) = last-some n ls

-- A valid book and the engine's book with the same contents give the same answers to every query.
pub views-mirror :
    (b : OrderBook) (price : ℕ)
    → IsValid b
    → (Engine.best_bid (mirror b) ≡ Book.best_bid b)
      × (Engine.best_ask (mirror b) ≡ Book.best_ask b)
      × (Engine.spread (mirror b) ≡ Book.spread b)
      × (Engine.len (mirror b) ≡ Book.len b)
      × (Engine.is_empty (mirror b) ≡ Book.is_empty b)
      × (Engine.depth_at buy price (mirror b) ≡ Book.depth_at buy price b)
      × (Engine.depth_at sell price (mirror b) ≡ Book.depth_at sell price b)
unfolding Engine.best_bid Engine.best_ask Engine.spread Engine.len Engine.is_empty Engine.depth_at
    Book.best_bid Book.best_ask Book.spread Book.len Book.is_empty Book.depth_at
views-mirror b price v =
    let top = begin-reverse b.bids in
    let level = lookup-reverse price b.bids v.bids_sorted in
    (ground arith, refl, ground arith, refl, refl, ground arith, refl)
