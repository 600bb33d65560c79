-- ===== src/Matching/Reachable.antt =====
-- Every book that a client can bring about, by any sequence of orders and cancellations.
use nanosecond_trading_stack.Common.{
  ℕ, ◌-◌, ◌<◌, ◌≡◌, refl, subst, inl, inr, Bool, List, [], ◌∷◌, some, arith, Option-cases,
  get_last?,
}
use nanosecond_trading_stack.Common.Assoc.{lookup}
use nanosecond_trading_stack.Matching.Book.{
  OrderBook, new, levels_of, add_order, cancel, best_bid, best_ask, spread, begin,
}
use nanosecond_trading_stack.Matching.Types.{Side, buy, sell, Order, Fill, OrderQueue, Levels}
use nanosecond_trading_stack.Matching.Uncrossed.{HasLevel, IsUncrossed, add_order-IsUncrossed}
use nanosecond_trading_stack.Matching.Validity.Cancelled.{cancelled, cancel_found, cancel_total}
use nanosecond_trading_stack.Matching.Validity.Rewritten.{rewritten, lookup-rewritten}
use nanosecond_trading_stack.Matching.Validity.Kept.{add_order-IsValid}
use nanosecond_trading_stack.Matching.Validity.Placed.{removed}
use nanosecond_trading_stack.Matching.Validity.{IsValid}

pub data Reachable : OrderBook → Type 0 where
  fresh : Reachable new
  submitted :
      {b : OrderBook} (order : Order) (fills : List Fill)
      → Reachable b
      → Reachable (add_order order b fills).0
  withdrawn :
      {b c : OrderBook} (order_id : ℕ) (done : Bool)
      → cancel order_id b ≡ some (done, c)
      → Reachable b
      → Reachable c

new-IsValid : IsValid new
new-IsValid = record {
  bids_sorted = tt;
  asks_sorted = tt;
  bids_ok = tt;
  asks_ok = tt;
  located = λ id loc e. unfold lookup in cc e;
}

new-IsUncrossed : IsUncrossed new
new-IsUncrossed = record { apart = λ p q h k. absurd (h (unfold lookup in refl)) }

module _ (id : ℕ) (b : OrderBook) (v : IsValid b) (price iter : ℕ) (q : OrderQueue) where
  HasLevel-rewritten :
      (ls : Levels) (p : ℕ) (r : OrderQueue)
      → lookup price ls ≡ some q
      → HasLevel p (rewritten price r ls)
      → HasLevel p ls
  HasLevel-rewritten ls p r found h e =
      h (rw (lookup-rewritten price r p ls q found) (ground arith))

  cancelled-IsUncrossed :
      (side : Side)
      → lookup price (levels_of side b) ≡ some q
      → IsUncrossed b
      → IsUncrossed (cancelled id b v price iter q side)
  cancelled-IsUncrossed buy found u = record {
    apart = λ x y h k. u.apart x y (HasLevel-rewritten b.bids x (removed iter q) found h) k;
  }
  cancelled-IsUncrossed sell found u = record {
    apart = λ x y h k. u.apart x y h (HasLevel-rewritten b.asks y (removed iter q) found k);
  }

-- A cancellation does not make a book cross.
pub cancel-IsUncrossed :
    (id : ℕ) (b c : OrderBook) (done : Bool)
    → IsValid b
    → IsUncrossed b
    → cancel id b ≡ some (done, c)
    → IsUncrossed c
cancel-IsUncrossed id b c done v u e = elim (Option-cases (lookup id b.locations)) [
  | inl n ↦ let same : b ≡ c = unfold cancel in ground arith in subst IsUncrossed same u
  | inr (loc, f) ↦
      let (q, found, here, run) = cancel_found id b v loc f in
      let same : cancelled id b v loc.price loc.iter q loc.side ≡ c = ground arith in
      subst IsUncrossed same (cancelled-IsUncrossed id b v loc.price loc.iter q loc.side found u)
]

cancel-IsValid :
    (id : ℕ) (b c : OrderBook) (done : Bool) → IsValid b → cancel id b ≡ some (done, c) → IsValid c
cancel-IsValid id b c done v e =
    let (r, run, _, _, valid, _) = cancel_total id b v in
    let same : r.1 ≡ c = ground arith in subst IsValid same valid

-- Every reachable book satisfies the representation invariant and does not cross.
pub Reachable-IsValid : {b : OrderBook} → Reachable b → IsValid b × IsUncrossed b
Reachable-IsValid fresh = (new-IsValid, new-IsUncrossed)
Reachable-IsValid (submitted {b} order fills r) =
    let (v, u) = Reachable-IsValid r in
    (add_order-IsValid order b fills v, add_order-IsUncrossed order b fills v u)
Reachable-IsValid (withdrawn {b} {c} id done e r) =
    let (v, u) = Reachable-IsValid r in
    (cancel-IsValid id b c done v e, cancel-IsUncrossed id b c done v u e)

begin-HasLevel : (ls : Levels) (l : ℕ × OrderQueue) → begin ls ≡ some l → HasLevel l.0 ls
unfolding lookup
begin-HasLevel [] l e h = cc
begin-HasLevel (m ∷ ls) l e h = ground arith

get_last?-HasLevel : (ls : Levels) (l : ℕ × OrderQueue) → get_last? ls ≡ some l → HasLevel l.0 ls
unfolding lookup
get_last?-HasLevel [] l e h = cc
get_last?-HasLevel (m ∷ []) l e h = ground arith
get_last?-HasLevel (m ∷ n ∷ ls) l e h = ground (arith, get_last?-HasLevel (n ∷ ls) l e)

-- On a book that does not cross the guard of `spread` never fails: with both sides present the
-- spread is there, and it is positive.
pub spread_positive :
    (b : OrderBook) (bid ask : ℕ)
    → IsUncrossed b
    → best_bid b ≡ some bid
    → best_ask b ≡ some ask
    → (bid < ask) × (spread b ≡ some (ask - bid))
unfolding spread
spread_positive b bid ask u e f =
    let lt : bid < ask = elim (Option-cases (get_last? b.bids)) [
      | inl n ↦ ground arith
      | inr (l, g) ↦ elim (Option-cases (begin b.asks)) [
        | inl n ↦ ground arith
        | inr (m, h) ↦
            let apart =
              u.apart l.0 m.0 (get_last?-HasLevel b.bids l g) (begin-HasLevel b.asks m h) in
            ground arith
      ]
    ] in
    (lt, ground arith)
