-- ===== src/Matching/Uncrossed.antt =====
-- Books in which every bid stays below every ask.
use mathlib.Core.List.{reverse-reverse}
use nanosecond_trading_stack.Common.{
  ℕ, ◌<◌, ◌≡◌, refl, sym, ap, ◌∙◌, ◌≢◌, inl, inr, Bool, true, ◌&&◌, List, [], ◌∷◌, reverse, none,
  some, arith, ◌==◌, All, ltb, Bool-cases, ==→eq,
}
use nanosecond_trading_stack.Common.Assoc.{lookup}
use nanosecond_trading_stack.Matching.Book.{
  OrderBook, Run, match_order, add_order, place, is_limit, begin,
}
use nanosecond_trading_stack.Matching.Engine.{match_levels, buy_stops, sell_stops}
use nanosecond_trading_stack.Matching.Levels.{Flow, fill_queue}
use nanosecond_trading_stack.Matching.Loops.{
  start, start_flow, match_buy_lem, match_sell_lem, Ends, match_levels-Ends,
}
use nanosecond_trading_stack.Matching.Sorted.{Sorted, Descending, Sorted-reverse, lookup-reverse}
use nanosecond_trading_stack.Matching.Types.{
  Side, buy, sell, limit, Order, Fill, RestingOrder, OrderQueue, Levels,
}
use nanosecond_trading_stack.Matching.Validity.Kept.{match_order-IsValid}
use nanosecond_trading_stack.Matching.Validity.Matched.{match_levels-Sorted}
use nanosecond_trading_stack.Matching.Validity.Placed.{lookup-push_back}
use nanosecond_trading_stack.Matching.Validity.{IsValid}

abbrev pub HasLevel : ℕ → Levels → Type 0
HasLevel p ls = lookup p ls ≢ none

pub record IsUncrossed (b : OrderBook) : Type 0 where
  pub apart : (p q : ℕ) → HasLevel p b.bids → HasLevel q b.asks → p < q

module _ (side : Side) (stop : ℕ → Bool) (id : ℕ) where
  match_levels-HasLevel :
      (ls : Levels) (s : Flow) (p : ℕ)
      → HasLevel p (match_levels side stop id ls s).0
      → HasLevel p ls
  unfolding match_levels lookup
  match_levels-HasLevel [] s p h = h
  match_levels-HasLevel ((j, q) ∷ ls) s p h =
      ground (arith, match_levels-HasLevel ls (fill_queue side j id q s).1 p)

HasLevel-All :
    (P : ℕ → Type 0) (ls : Levels) (q : ℕ)
    → All (λ (l : ℕ × OrderQueue). P l.0) ls
    → HasLevel q ls
    → P q
unfolding lookup
HasLevel-All P [] q a h = absurd (h refl)
HasLevel-All P ((j, r) ∷ ls) q a h = elim (Bool-cases (j == q)) [
  | inl e ↦ rw (← ==→eq j q e) a.0
  | inr e ↦ HasLevel-All P ls q a.1 (rw e at h)
]

-- Where the loop has stopped at a price, the levels left are beyond it.
module _ (stop : ℕ → Bool) (R : ℕ → ℕ → Type 0) where
  stopped-beyond :
      (ls : Levels) (q : ℕ)
      → Sorted R ls
      → (l : ℕ × OrderQueue) × (begin ls ≡ some l) × (stop l.0 ≡ true)
      → ((a : ℕ) → R a q → stop a ≡ true → stop q ≡ true)
      → HasLevel q ls
      → stop q ≡ true
  unfolding lookup
  stopped-beyond ((j, r) ∷ ls) q a s m h =
      let at_head : stop j ≡ true = ground arith in
      elim (Bool-cases (j == q)) [
        | inl e ↦ rw (← ==→eq j q e) at_head
        | inr e ↦ m j (HasLevel-All (R j) ls q a.0 (rw e at h)) at_head
      ]
  stopped-beyond [] q a s m h = absurd (h refl)

  Ends-beyond :
      (ls : Levels) (r q : ℕ)
      → Sorted R ls
      → Ends stop ls r
      → 0 < r
      → ((a : ℕ) → R a q → stop a ≡ true → stop q ≡ true)
      → HasLevel q ls
      → stop q ≡ true
  Ends-beyond ls r q a (inl z) pos m h = absurd (omega arith)
  Ends-beyond ls r q a (inr (inl z)) pos m h = absurd (h (unfold lookup in rw z))
  Ends-beyond ls r q a (inr (inr s)) pos m h = stopped-beyond ls q a s m h

lookup_reversed : (ls : Levels) (p : ℕ) → Descending ls → lookup p (reverse ls) ≡ lookup p ls
lookup_reversed ls p d =
    sym (lookup-reverse p (reverse ls) (Sorted-reverse (λ x y. y < x) ls d))
    ∙ ap (lookup p) (reverse-reverse ls)

-- The level of a price on the other side, if there is one, is beyond the limit.
abbrev Beyond : Side → ℕ → OrderBook → ℕ → Type 0
Beyond buy price b p = HasLevel p b.asks → price < p
Beyond sell price b p = HasLevel p b.bids → p < price

-- Matching only removes levels, and a limit order that keeps a quantity leaves the other side
-- beyond its limit.
record Cleared (order : Order) (r : Run) : Type 0 where
  apart : IsUncrossed r.book
  beyond :
      0 < r.remaining → order.order_type ≡ limit → (p : ℕ) → Beyond order.side order.price r.book p

match_order-Cleared :
    (side : Side) (order : Order) (b : OrderBook) (fills : List Fill)
    → IsValid b
    → IsUncrossed b
    → let o = record order { side = side } in Cleared o (match_order o (start b order.qty fills))
match_order-Cleared buy order b fills v u =
    let flow = start_flow b.locations order.qty fills in
    let r = match_levels buy (buy_stops order) order.id b.asks flow in
    let sorted =
      match_levels-Sorted buy order.id (buy_stops order) (λ x y. x < y) b.asks flow v.asks_sorted in
    let ends = match_levels-Ends buy (buy_stops order) order.id b.asks flow in
    rw (match_buy_lem (record order { side = buy }) b order.qty fills v.asks_sorted) (record {
      apart = record {
        apart = λ p q hp hq.
            u.apart p q hp (match_levels-HasLevel buy (buy_stops order) order.id b.asks flow q hq);
      };
      beyond = λ pos lim p h.
          let stopped : buy_stops order p ≡ true =
            Ends-beyond (buy_stops order) (λ x y. x < y) r.0 r.1.remaining p sorted ends pos
              (λ a lt e. ground arith) h in
          ground arith;
    })
match_order-Cleared sell order b fills v u =
    let flow = start_flow b.locations order.qty fills in
    let bids = reverse b.bids in
    let r = match_levels sell (sell_stops order) order.id bids flow in
    let sorted =
      match_levels-Sorted sell order.id (sell_stops order) (λ x y. y < x) bids flow
        (Sorted-reverse (λ x y. x < y) b.bids v.bids_sorted) in
    let ends = match_levels-Ends sell (sell_stops order) order.id bids flow in
    let same = λ (p : ℕ). lookup_reversed r.0 p sorted in
    rw (match_sell_lem (record order { side = sell }) b order.qty fills v.bids_sorted) (record {
      apart = record {
        apart = λ p q hp hq.
            u.apart p q
              (rw (lookup-reverse p b.bids v.bids_sorted) at (
                match_levels-HasLevel sell (sell_stops order) order.id bids flow p
                  (rw (same p) at hp)))
              hq;
      };
      beyond = λ pos lim p h.
          let stopped : sell_stops order p ≡ true =
            Ends-beyond (sell_stops order) (λ x y. y < x) r.0 r.1.remaining p sorted ends pos
              (λ a lt e. ground arith) (rw (same p) at h) in
          ground arith;
    })

module _ (id price qty : ℕ) (b : OrderBook) (v : IsValid b) (u : IsUncrossed b) where
  place-IsUncrossed :
      (side : Side) → ((p : ℕ) → Beyond side price b p) → IsUncrossed (place id side price qty b)
  unfolding place
  place-IsUncrossed buy m =
      let node : RestingOrder = record { addr = b.next_addr; id = id; qty = qty } in
      record {
        apart = λ p q hp hq.
            let hp' = rw (lookup-push_back price node p b.bids v.bids_sorted) at hp in
            elim (Bool-cases (price == p)) [
              | inl e ↦ rw (← ==→eq price p e) (m q hq)
              | inr e ↦ u.apart p q (rw e at hp') hq
            ];
      }
  place-IsUncrossed sell m =
      let node : RestingOrder = record { addr = b.next_addr; id = id; qty = qty } in
      record {
        apart = λ p q hp hq.
            let hq' = rw (lookup-push_back price node q b.asks v.asks_sorted) at hq in
            elim (Bool-cases (price == q)) [
              | inl e ↦ rw (← ==→eq price q e) (m p hp)
              | inr e ↦ u.apart p q hp (rw e at hq')
            ];
      }

-- A book that is valid and does not cross does not cross after any order.
pub add_order-IsUncrossed :
    (order : Order) (b : OrderBook) (fills : List Fill)
    → IsValid b
    → IsUncrossed b
    → IsUncrossed (add_order order b fills).0
unfolding add_order
add_order-IsUncrossed order b fills v u =
    let r : Run = match_order order (start b order.qty fills) in
    let c = match_order-Cleared order.side order b fills v u in
    let valid = match_order-IsValid order b order.qty fills v in
    elim (Bool-cases (ltb 0 r.remaining && is_limit order.order_type)) [
      | inl e ↦ rw e (
          place-IsUncrossed order.id order.price r.remaining r.book valid c.apart order.side
            (c.beyond (ground arith) (ground arith)))
      | inr e ↦ rw e c.apart
    ]
