-- ===== src/Matching/Validity/Kept.antt =====
-- The representation invariant under each operation of the order book.
use mathlib.Core.List.{reverse-cons, reverse-reverse}
use nanosecond_trading_stack.Common.{
  ℕ, ◌<◌, ◌≡◌, sym, ap, ◌∙◌, inl, inr, Bool, ◌&&◌, List, [], ◌∷◌, ◌++◌, reverse, some, arith, ◌==◌,
  if◌then◌else◌, ltb, Bool-cases, ==→eq,
}
use nanosecond_trading_stack.Common.Assoc.{lookup, lookup-assign}
use nanosecond_trading_stack.Matching.Book.{
  OrderBook, Run, levels_of, match_order, place, add_order, is_limit,
}
use nanosecond_trading_stack.Matching.Levels.{Flow}
use nanosecond_trading_stack.Matching.Loops.{
  start, start_flow, run_of, bought, sold, match_buy_lem, match_sell_lem,
}
use nanosecond_trading_stack.Matching.Engine.{buy_stops, sell_stops}
use nanosecond_trading_stack.Matching.Sorted.{Ascending, Descending, Sorted-reverse, lookup-reverse}
use nanosecond_trading_stack.Matching.Types.{
  Side, buy, sell, Order, RestingOrder, OrderLocation, Levels, Fill,
}
use nanosecond_trading_stack.Matching.Validity.Matched.{
  match_levels-Sorted, match_levels-LevelsOk, match_levels-shrinks, match_levels-AtLevel,
}
use nanosecond_trading_stack.Matching.Validity.Placed.{
  push_back-LevelsOk, push_back-Ascending, push_back-AtLevel, push_back-AtLevel_new, LevelsOk-suc,
}
use nanosecond_trading_stack.Matching.Validity.{LevelsOk, AtLevel, IsValid}

LevelsOk-append :
    (next : ℕ) (xs ys : Levels) → LevelsOk next xs → LevelsOk next ys → LevelsOk next (xs ++ ys)
LevelsOk-append next [] ys h k = k
LevelsOk-append next (l ∷ xs) ys h k = (h.0, h.1, LevelsOk-append next xs ys h.2 k)

pub LevelsOk-reverse : (next : ℕ) (ls : Levels) → LevelsOk next ls → LevelsOk next (reverse ls)
LevelsOk-reverse next [] h = tt
LevelsOk-reverse next (l ∷ ls) h =
    rw (reverse-cons l ls)
      (LevelsOk-append next (reverse ls) (l ∷ []) (LevelsOk-reverse next ls h.2) (h.0, h.1, tt))

module _ (order : Order) (b : OrderBook) (qty : ℕ) (fills : List Fill) (v : IsValid b) where
  abbrev flow : Flow
  flow = start_flow b.locations qty fills

  abbrev after_buy : Levels × Flow
  after_buy = bought order b qty fills

  abbrev book_bought : OrderBook
  book_bought = (run_of (record b { asks = after_buy.0 }) after_buy.1).book

  buy_located :
      (side : Side) (k : ℕ) (loc : OrderLocation)
      → lookup k after_buy.1.locations ≡ some loc
      → AtLevel loc.iter k (lookup loc.price (levels_of side b))
      → AtLevel loc.iter k (lookup loc.price (levels_of side book_bought))
  buy_located buy k loc e h = h
  buy_located sell k loc e h =
      match_levels-AtLevel buy order.id (buy_stops order) b.asks flow k loc.iter loc.price loc e h

  book_bought-IsValid : IsValid book_bought
  book_bought-IsValid = record {
    bids_sorted = v.bids_sorted;
    asks_sorted =
        match_levels-Sorted buy order.id (buy_stops order) (λ x y. x < y) b.asks flow v.asks_sorted;
    bids_ok = v.bids_ok;
    asks_ok =
        match_levels-LevelsOk buy order.id (buy_stops order) b.next_addr b.asks flow v.asks_ok;
    located = λ k loc e.
        buy_located loc.side k loc e (
          v.located k loc
            (match_levels-shrinks buy order.id (buy_stops order) b.asks flow k loc e));
  }

  abbrev after_sell : Levels × Flow
  after_sell = sold order b qty fills

  abbrev book_sold : OrderBook
  book_sold = (run_of (record b { bids = reverse after_sell.0 }) after_sell.1).book

  descending : Descending after_sell.0
  descending =
      match_levels-Sorted sell order.id (sell_stops order) (λ x y. y < x) (reverse b.bids) flow
        (Sorted-reverse (λ x y. x < y) b.bids v.bids_sorted)

  lookup_sold : (price : ℕ) → lookup price (reverse after_sell.0) ≡ lookup price after_sell.0
  lookup_sold price =
      sym (lookup-reverse price (reverse after_sell.0) ascending)
      ∙ ap (lookup price) (reverse-reverse after_sell.0)
    where
      ascending : Ascending (reverse after_sell.0)
      ascending = Sorted-reverse (λ x y. y < x) after_sell.0 descending

  sell_located :
      (side : Side) (k : ℕ) (loc : OrderLocation)
      → lookup k after_sell.1.locations ≡ some loc
      → AtLevel loc.iter k (lookup loc.price (levels_of side b))
      → AtLevel loc.iter k (lookup loc.price (levels_of side book_sold))
  sell_located sell k loc e h = h
  sell_located buy k loc e h = rw (lookup_sold loc.price) (
      match_levels-AtLevel sell order.id (sell_stops order) (reverse b.bids) flow k loc.iter
        loc.price loc e (rw (lookup-reverse loc.price b.bids v.bids_sorted) h))

  book_sold-IsValid : IsValid book_sold
  book_sold-IsValid = record {
    bids_sorted = Sorted-reverse (λ x y. y < x) after_sell.0 descending;
    asks_sorted = v.asks_sorted;
    bids_ok = LevelsOk-reverse b.next_addr after_sell.0 (
        match_levels-LevelsOk sell order.id (sell_stops order) b.next_addr (reverse b.bids) flow
          (LevelsOk-reverse b.next_addr b.bids v.bids_ok));
    asks_ok = v.asks_ok;
    located = λ k loc e. sell_located loc.side k loc e (
        v.located k loc
          (match_levels-shrinks sell order.id (sell_stops order) (reverse b.bids) flow k loc e));
  }

  -- Matching keeps the invariant, whichever side the order is on.
  pub match_order-IsValid : IsValid (match_order order (start b qty fills)).book
  match_order-IsValid = by_side order.side
    where
      by_side :
          (side : Side)
          → IsValid (match_order (record order { side = side }) (start b qty fills)).book
      by_side buy =
          rw (match_buy_lem (record order { side = buy }) b qty fills v.asks_sorted)
            book_bought-IsValid
      by_side sell =
          rw (match_sell_lem (record order { side = sell }) b qty fills v.bids_sorted)
            book_sold-IsValid

module _ (id price qty : ℕ) (b : OrderBook) (v : IsValid b) (pos : 0 < qty) where
  abbrev node : RestingOrder
  node = record { addr = b.next_addr; id = id; qty = qty }

  abbrev location : Side → OrderLocation
  location side = record { side = side; price = price; iter = b.next_addr }

  place_old :
      (at side : Side) (loc : OrderLocation) (k : ℕ)
      → AtLevel loc.iter k (lookup loc.price (levels_of at b))
      → AtLevel loc.iter k (lookup loc.price (levels_of at (place id side price qty b)))
  unfolding place
  place_old buy buy loc k h =
      push_back-AtLevel price node b.bids v.bids_sorted loc.iter k loc.price h
  place_old buy sell loc k h = h
  place_old sell buy loc k h = h
  place_old sell sell loc k h =
      push_back-AtLevel price node b.asks v.asks_sorted loc.iter k loc.price h

  place_new :
      (side : Side)
      → AtLevel b.next_addr id (lookup price (levels_of side (place id side price qty b)))
  unfolding place
  place_new buy = push_back-AtLevel_new price node b.bids v.bids_sorted
  place_new sell = push_back-AtLevel_new price node b.asks v.asks_sorted

  place_located :
      (side : Side) (k : ℕ) (loc : OrderLocation)
      → (if id == k then some (location side) else lookup k b.locations) ≡ some loc
      → AtLevel loc.iter k (lookup loc.price (levels_of loc.side (place id side price qty b)))
  place_located side k loc h = elim (Bool-cases (id == k)) [
    | inl e ↦
        let same : loc ≡ location side = ground arith in rw (same, ← ==→eq id k e) (place_new side)
    | inr e ↦ place_old loc.side side loc k (v.located k loc (ground arith))
  ]

  pub place-IsValid : (side : Side) → IsValid (place id side price qty b)
  unfolding place
  place-IsValid buy = record {
    bids_sorted = push_back-Ascending price node b.bids v.bids_sorted;
    asks_sorted = v.asks_sorted;
    bids_ok = push_back-LevelsOk price node b.bids pos v.bids_ok;
    asks_ok = LevelsOk-suc b.next_addr b.asks v.asks_ok;
    located = λ k loc e. place_located buy k loc (rw lookup-assign at e);
  }
  place-IsValid sell = record {
    bids_sorted = v.bids_sorted;
    asks_sorted = push_back-Ascending price node b.asks v.asks_sorted;
    bids_ok = LevelsOk-suc b.next_addr b.bids v.bids_ok;
    asks_ok = push_back-LevelsOk price node b.asks pos v.asks_ok;
    located = λ k loc e. place_located sell k loc (rw lookup-assign at e);
  }

-- `add_order` keeps the invariant of the book, for every order and every buffer.
pub add_order-IsValid :
    (order : Order) (b : OrderBook) (fills : List Fill)
    → IsValid b
    → IsValid (add_order order b fills).0
unfolding add_order
add_order-IsValid order b fills v =
    let matched = match_order-IsValid order b order.qty fills v in
    let r : Run = match_order order (start b order.qty fills) in
    let rests : Bool = ltb 0 r.remaining && is_limit order.order_type in
    elim (Bool-cases rests) [
      | inl e ↦
          rw e (
            place-IsValid order.id order.price r.remaining r.book matched (ground arith) order.side)
      | inr e ↦ rw e matched
    ]
