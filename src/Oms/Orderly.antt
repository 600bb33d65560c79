-- ===== src/Oms/Orderly.antt =====
-- include/nts/oms.h and src/oms.cpp with an exchange that cancels an order only after its first
-- report, and rejects one only with its first report: the numbers of orders.
use nanosecond_trading_stack.Common.{
  ℕ, ◌+◌, ◌<◌, ◌≡◌, ◌≢◌, refl, sym, ◌∙◌, ==_refl, Option, none, some, ◌==◌, u64_mod, arith,
  Bool-cases, inl, inr, ==→eq,
}
use nanosecond_trading_stack.Double.{Double}
use nanosecond_trading_stack.Oms.Counts.Tallied.{waits, lives}
use nanosecond_trading_stack.Oms.Counts.Kept.{
  Tallies, IsSuiting, on_execution-IsTallied, send_new-IsTallied,
}
use nanosecond_trading_stack.Oms.Counts.{
  weight, held_weight, held_weight-bound, sum_below-add, sum_below-same,
}
use nanosecond_trading_stack.Oms.OrderMap.Slots.{slot_of}
use nanosecond_trading_stack.Oms.OrderMap.{no_orders}
use nanosecond_trading_stack.Oms.Orders.{send_new-IsSent}
use nanosecond_trading_stack.Oms.Ownership.{Core, core}
use nanosecond_trading_stack.Oms.Reachable.{
  Reachable, fresh, priced, submitted, stamped, reported, Reachable-IsOwned, none_held, stamp,
}
use nanosecond_trading_stack.Oms.{
  Oms, Order, ExecutionReport, new, set_reference_price, send_new, on_execution,
}
use nanosecond_trading_stack.Types.{Side, OrderType}

module _ {ℓ} {D : Type ℓ} where
  -- How many orders the map holds.
  abbrev pub held_count : Core D → ℕ
  held_count c = held_weight (λ o. 1) c

  both_kinds : (o : Order D) → waits o + lives o ≡ 1
  both_kinds o = ground arith

  weight-both :
      (orders : ℕ → Order D) (r : Option ℕ)
      → weight waits orders r + weight lives orders r ≡ weight (λ o. 1) orders r
  weight-both orders none = refl
  weight-both orders (some i) = both_kinds (orders i)

  held_weight-both : (c : Core D) → held_weight waits c + held_weight lives c ≡ held_count c
  held_weight-both c =
      sum_below-add c.next_id (λ k. weight waits c.orders (slot_of c.order_map k))
        (λ k. weight lives c.orders (slot_of c.order_map k))
        (λ k. weight (λ o. 1) c.orders (slot_of c.order_map k))
        (λ k. weight-both c.orders (slot_of c.order_map k))

module _ {ℓ} {D : Type ℓ} ⦃d : Double D⦄ where
  -- Every order management system that its client brings about with reports that suit.
  pub data Orderly : Oms D → Type ℓ where
    opened : Orderly new
    valued : {s : Oms D} (price : D) → Orderly s → Orderly (set_reference_price price s)
    ordered :
        {s : Oms D} (side : Side) (price : D) (qty : ℕ) (type : OrderType)
        → s.next_id + 1 < u64_mod
        → Orderly s
        → Orderly (send_new side price qty type s).1
    noted : {s : Oms D} (slot tick ns : ℕ) → Orderly s → Orderly (stamp slot tick ns s)
    replied :
        {s : Oms D} (report : ExecutionReport D)
        → s.next_id + 1 < u64_mod
        → IsSuiting report s
        → Orderly s
        → Orderly (on_execution report s)

  pub Orderly-Reachable : {s : Oms D} → Orderly s → Reachable s
  Orderly-Reachable opened = fresh
  Orderly-Reachable (valued price o) = priced price (Orderly-Reachable o)
  Orderly-Reachable (ordered side price qty type small o) =
      submitted side price qty type small (Orderly-Reachable o)
  Orderly-Reachable (noted slot tick ns o) = stamped slot tick ns (Orderly-Reachable o)
  Orderly-Reachable (replied report small suits o) = reported report (Orderly-Reachable o)

  weight-stamp :
      (weigh : Order D → ℕ) (slot tick ns : ℕ) (s : Oms D) (r : Option ℕ)
      → weigh ((stamp slot tick ns s).orders slot) ≡ weigh (s.orders slot)
      → weight weigh (stamp slot tick ns s).orders r ≡ weight weigh s.orders r
  weight-stamp weigh slot tick ns s none h = refl
  weight-stamp weigh slot tick ns s (some i) h = elim (Bool-cases (i == slot)) [
    | inl e ↦ rw (==→eq i slot e) h
    | inr e ↦ rw e refl
  ]

  stamp-Tallies : (slot tick ns : ℕ) (s : Oms D) → Tallies s → Tallies (stamp slot tick ns s)
  stamp-Tallies slot tick ns s q = record {
    waiting =
        q.waiting
        ∙ sym (
            sum_below-same s.next_id _ _ (λ k lt.
              weight-stamp waits slot tick ns s (slot_of s.order_map k) (rw (==_refl slot) refl)));
    living =
        q.living
        ∙ sym (
            sum_below-same s.next_id _ _ (λ k lt.
              weight-stamp lives slot tick ns s (slot_of s.order_map k) (rw (==_refl slot) refl)));
  }

  weight-none :
      (weigh : Order D → ℕ) (orders : ℕ → Order D) (r : Option ℕ)
      → ((i : ℕ) → r ≢ some i)
      → weight weigh orders r ≡ 0
  weight-none weigh orders none h = refl
  weight-none weigh orders (some i) h = absurd (h i refl)

  new-Tallies : Tallies {D = D} new
  new-Tallies =
      let empty : (weigh : Order D → ℕ) → 0 ≡ held_weight weigh (core new) = λ weigh.
        omega (arith, weight-none weigh (core new).orders (slot_of no_orders 0) (none_held 0)) in
      record { waiting = empty waits; living = empty lives }

  -- In every such order management system the counter of pending orders is the number of the orders
  -- of the map that wait for their first report, and that of live orders the number of the others.
  pub Orderly-IsTallied : {s : Oms D} → Orderly s → Tallies s
  unfolding set_reference_price
  Orderly-IsTallied opened = new-Tallies
  Orderly-IsTallied (valued price o) = Orderly-IsTallied o
  Orderly-IsTallied (ordered {s} side price qty type small o) =
      send_new-IsTallied side price qty type s (Reachable-IsOwned (Orderly-Reachable o))
        (Orderly-IsTallied o) small
  Orderly-IsTallied (noted {s} slot tick ns o) = stamp-Tallies slot tick ns s (Orderly-IsTallied o)
  Orderly-IsTallied (replied {s} report small suits o) =
      on_execution-IsTallied report s (Reachable-IsOwned (Orderly-Reachable o))
        (Orderly-IsTallied o) small suits

  -- When `send_new` returns an order in such a system, the map held fewer orders than the limit on
  -- live orders. The ids are not used up.
  pub send_new_live_limit :
      (side : Side) (price : D) (qty : ℕ) (type : OrderType) (s s' : Oms D) (slot : ℕ)
      → Orderly s
      → s.next_id + 1 < u64_mod
      → send_new side price qty type s ≡ (some slot, s')
      → held_count (core s) < s.risk.max_live_orders
  send_new_live_limit side price qty type s s' slot o small h =
      let q = Orderly-IsTallied o in
      let limit = (send_new-IsSent side price qty type s s' slot h).5 in
      omega (
        arith,
        limit,
        q.waiting,
        q.living,
        held_weight-both (core s),
        held_weight-bound (λ (o : Order D). 1) (core s) (λ o. omega arith),
      )
