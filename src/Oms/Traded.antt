-- ===== src/Oms/Traded.antt =====
-- include/nts/oms.h and src/oms.cpp with an exchange that fills what is open: what is in flight.
use nanosecond_trading_stack.Common.{
  ℕ, ◌+◌, ◌<◌, ◌≡◌, inl, inr, refl, sym, ap, subst, ◌∙◌, false, Option, none, some, ◌==◌, add32,
  abs32, ltb_int32, u32_mod, u64_mod, arith, Bool-cases, ==→eq,
}
use nanosecond_trading_stack.Double.{Double}
use nanosecond_trading_stack.Oms.Accounting.{in_flight}
use nanosecond_trading_stack.Oms.Exposure.{share, total-same, open_qty, open_total, IsCounted}
use nanosecond_trading_stack.Oms.OrderMap.Slots.{slot_of}
use nanosecond_trading_stack.Oms.OrderMap.{no_orders}
use nanosecond_trading_stack.Oms.Ownership.{core}
use nanosecond_trading_stack.Oms.Exposure.Kept.{
  IsFitting, on_execution-IsCounted, send_new-IsCounted,
}
use nanosecond_trading_stack.Oms.Orders.{send_new-IsSent}
use nanosecond_trading_stack.Oms.Reachable.{
  stamp, Reachable, fresh, priced, submitted, stamped, reported, Reachable-IsOwned,
}
use nanosecond_trading_stack.Oms.{
  Oms, Order, ExecutionReport, new, no_order, set_reference_price, send_new, on_execution,
}
use nanosecond_trading_stack.Types.{Side, OrderType}

module _ {ℓ} {D : Type ℓ} ⦃d : Double D⦄ where
  -- Every order management system that its client brings about while the exchange fills no more than
  -- what is open, and ends an order with a fill only when nothing of it is open.
  pub data Traded : Oms D → Type ℓ where
    fresh_start : Traded new
    repriced : {s : Oms D} (price : D) → Traded s → Traded (set_reference_price price s)
    sent_out :
        {s : Oms D} (side : Side) (price : D) (qty : ℕ) (type : OrderType)
        → qty < u32_mod
        → s.next_id + 1 < u64_mod
        → Traded s
        → Traded (send_new side price qty type s).1
    marked : {s : Oms D} (slot tick ns : ℕ) → Traded s → Traded (stamp slot tick ns s)
    answered :
        {s : Oms D} (report : ExecutionReport D)
        → IsFitting report s
        → Traded s
        → Traded (on_execution report s)

  pub Traded-Reachable : {s : Oms D} → Traded s → Reachable s
  Traded-Reachable fresh_start = fresh
  Traded-Reachable (repriced price t) = priced price (Traded-Reachable t)
  Traded-Reachable (sent_out side price qty type fits small t) =
      submitted side price qty type small (Traded-Reachable t)
  Traded-Reachable (marked slot tick ns t) = stamped slot tick ns (Traded-Reachable t)
  Traded-Reachable (answered report fits t) = reported report (Traded-Reachable t)

  share_none_open : (o : Order D) → open_qty o ≡ 0 → (r : Option ℕ) → share (λ _. o) r ≡ 0
  share_none_open o e none = refl
  share_none_open o e (some i) = e

  new-IsCounted : IsCounted {D = D} (core new) 0
  new-IsCounted = record {
    counted = omega (arith, share_none_open no_order refl (slot_of no_orders 0));
    sized = λ k i h. (omega arith, omega arith);
  }

  share-stamp :
      (slot tick ns : ℕ) (s : Oms D) (r : Option ℕ)
      → share (stamp slot tick ns s).orders r ≡ share s.orders r
  share-stamp slot tick ns s none = refl
  share-stamp slot tick ns s (some i) = elim (Bool-cases (i == slot)) [
    | inl e ↦ rw (e, ==→eq i slot e) refl
    | inr e ↦ rw e refl
  ]

  stamp-IsCounted :
      (slot tick ns : ℕ) (s : Oms D)
      → IsCounted (core s) s.pending_position_delta
      → IsCounted (core (stamp slot tick ns s)) s.pending_position_delta
  stamp-IsCounted slot tick ns s q = record {
    counted =
        q.counted
        ∙ sym
            (total-same s.next_id _ _ (λ k lt. share-stamp slot tick ns s (slot_of s.order_map k)));
    sized = λ k i h. elim (Bool-cases (i == slot)) [
      | inl e ↦ rw e (rw (==→eq i slot e) at (q.sized k i h))
      | inr e ↦ rw e (q.sized k i h)
    ];
  }

  Traded-IsCounted : {s : Oms D} → Traded s → IsCounted (core s) s.pending_position_delta
  unfolding set_reference_price
  Traded-IsCounted fresh_start = new-IsCounted
  Traded-IsCounted (repriced price t) = Traded-IsCounted t
  Traded-IsCounted (sent_out {s} side price qty type fits small t) =
      send_new-IsCounted side price qty type s (Reachable-IsOwned (Traded-Reachable t))
        (Traded-IsCounted t) fits small
  Traded-IsCounted (marked {s} slot tick ns t) = stamp-IsCounted slot tick ns s (Traded-IsCounted t)
  Traded-IsCounted (answered {s} report fits t) =
      on_execution-IsCounted report s (Reachable-IsOwned (Traded-Reachable t)) (Traded-IsCounted t)
        fits

  -- The exposure of such a system is the position that it has once every order that its map holds is
  -- filled: what it counts as pending is the sum of what these orders have open.
  pub Traded-in_flight :
      {s : Oms D} → Traded s → in_flight s ≡ add32 s.position (open_total (core s))
  Traded-in_flight {s} t = ap (add32 s.position) (Traded-IsCounted t).counted

  -- When `send_new` returns an order in such a system, then, with every order that the map holds
  -- filled, the new one too, the position is within its limit. The quantity is a 32-bit integer, and
  -- the ids are not used up.
  pub send_new_within_limit :
      (side : Side) (price : D) (qty : ℕ) (type : OrderType) (s s' : Oms D) (slot : ℕ)
      → Traded s
      → qty < u32_mod
      → s.next_id + 1 < u64_mod
      → send_new side price qty type s ≡ (some slot, s')
      → ltb_int32 s.risk.max_position (abs32 (add32 s'.position (open_total (core s')))) ≡ false
  send_new_within_limit side price qty type s s' slot t fits small h =
      let after : Traded s' =
        subst Traded (ap (λ x. x.1) h) (sent_out side price qty type fits small t) in
      let flight = Traded-in_flight after in
      let near = (send_new-IsSent side price qty type s s' slot h).7 in
      subst (λ x. ltb_int32 s.risk.max_position (abs32 x) ≡ false) flight near
