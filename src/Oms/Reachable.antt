-- ===== src/Oms/Reachable.antt =====
-- Every order management system that its client brings about: the calls of src/main.cpp on the
-- object of include/nts/oms.h, in any sequence.
use nanosecond_trading_stack.Common.{
  ℕ, ◌+◌, ◌<◌, ◌≡◌, refl, ◌∙◌, some, ◌==◌, arith, inl, inr, Bool-cases, u64_mod, ==_refl, ==→eq,
}
use nanosecond_trading_stack.Common.Pigeonhole.{Injects-suc, Injects-le}
use nanosecond_trading_stack.Double.{Double}
use nanosecond_trading_stack.Oms.OrderMap.Lookup.{no_orders-IsProbed}
use nanosecond_trading_stack.Oms.OrderMap.Slots.{slot_of, slot_of_inside, Holds-slot_of}
use nanosecond_trading_stack.Oms.OrderMap.{no_orders, update}
use nanosecond_trading_stack.Oms.Orders.{send_new-slot_of}
use nanosecond_trading_stack.Oms.Ownership.Handlers.{send_new-IsOwned, on_execution-IsOwned}
use nanosecond_trading_stack.Oms.Ownership.{core, IsOwned, owned-HasRoom, next_id-Absent}
use nanosecond_trading_stack.Oms.{
  Oms, ExecutionReport, new, set_reference_price, send_new, on_execution, execute, max_orders,
}
use nanosecond_trading_stack.Types.{Side, OrderType}

pub none_held : (k i : ℕ) → slot_of no_orders k ≡ some i → ⊥
none_held k i h = let (p, hp, op, _, _) = Holds-slot_of no_orders no_orders-IsProbed k i h in cc op

module _ {ℓ} {D : Type ℓ} ⦃d : Double D⦄ where
  -- `record_ready_order` of src/main.cpp writes two fields of an order through its pointer.
  abbrev pub stamp : ℕ → ℕ → ℕ → Oms D → Oms D
  stamp slot tick ns s = record s {
    orders =
        update s.orders slot
          (record (s.orders slot) { source_exchange_tick = tick; client_reaction_ns = ns });
  }

  -- An id is given out before they are used up.
  pub data Reachable : Oms D → Type ℓ where
    fresh : Reachable new
    priced : {s : Oms D} (price : D) → Reachable s → Reachable (set_reference_price price s)
    submitted :
        {s : Oms D} (side : Side) (price : D) (qty : ℕ) (type : OrderType)
        → s.next_id + 1 < u64_mod
        → Reachable s
        → Reachable (send_new side price qty type s).1
    stamped : {s : Oms D} (slot tick ns : ℕ) → Reachable s → Reachable (stamp slot tick ns s)
    reported :
        {s : Oms D} (report : ExecutionReport D) → Reachable s → Reachable (on_execution report s)

  new-IsOwned : IsOwned {D = D} (core new)
  new-IsOwned = record {
    probed = no_orders-IsProbed;
    fresh = omega arith;
    in_use = λ k i h. absurd (none_held k i h);
    own_id = λ k i h. absurd (none_held k i h);
    is_open = λ k i h. absurd (none_held k i h);
    old_id = λ k i h. absurd (none_held k i h);
    free = record {
      below = λ i h. absurd (omega arith);
      apart = λ i j h k e. absurd (omega arith);
    };
    unused = λ j k i hj h. absurd (omega arith);
  }

  pub stamp-IsOwned :
      (slot tick ns : ℕ) (s : Oms D) → IsOwned (core s) → IsOwned (core (stamp slot tick ns s))
  stamp-IsOwned slot tick ns s v = record {
    probed = v.probed;
    fresh = v.fresh;
    in_use = v.in_use;
    own_id = λ k i h. elim (Bool-cases (i == slot)) [
      | inl e ↦ rw e (rw (==→eq i slot e) at (v.own_id k i h))
      | inr e ↦ rw e (v.own_id k i h)
    ];
    is_open = λ k i h. elim (Bool-cases (i == slot)) [
      | inl e ↦ rw e (rw (==→eq i slot e) at (v.is_open k i h))
      | inr e ↦ rw e (v.is_open k i h)
    ];
    old_id = v.old_id;
    free = v.free;
    unused = v.unused;
  }

  -- In every reachable order management system the map leads each id that it holds to an open order
  -- of this id, in a slot that no other id has and that is not on the stack of free slots.
  pub Reachable-IsOwned : {s : Oms D} → Reachable s → IsOwned (core s)
  unfolding set_reference_price
  Reachable-IsOwned fresh = new-IsOwned
  Reachable-IsOwned (priced price r) = Reachable-IsOwned r
  Reachable-IsOwned (submitted {s} side price qty type small r) =
      send_new-IsOwned side price qty type s (Reachable-IsOwned r) small
  Reachable-IsOwned (stamped {s} slot tick ns r) =
      stamp-IsOwned slot tick ns s (Reachable-IsOwned r)
  Reachable-IsOwned (reported {s} report r) = on_execution-IsOwned report s (Reachable-IsOwned r)

  -- A report for an id that the map holds goes to the order in its slot.
  pub on_execution-held :
      (report : ExecutionReport D) (s : Oms D) (slot : ℕ)
      → slot_of s.order_map report.order_id ≡ some slot
      → on_execution report s ≡ execute report slot s
  unfolding on_execution
  on_execution-held report s slot h =
      let (inside, at) = slot_of_inside s.order_map report.order_id slot h in rw (inside, at) refl

  -- A report for the order that `send_new` has just returned reaches this order.
  pub send_new-reported :
      (side : Side) (price : D) (qty : ℕ) (type : OrderType) (s s' : Oms D) (slot : ℕ)
      (report : ExecutionReport D)
      → Reachable s
      → send_new side price qty type s ≡ (some slot, s')
      → report.order_id ≡ s.next_id
      → on_execution report s' ≡ execute report slot s'
  send_new-reported side price qty type s s' slot report r h e =
      let v = Reachable-IsOwned r in
      let found =
        (send_new-slot_of side price qty type s s' slot v.probed (owned-HasRoom (core s) v)
            (next_id-Absent (core s) v) h).1
          report.order_id in
      on_execution-held report s' slot (found ∙ rw (e, ==_refl s.next_id) refl)

  -- When an order is given back, its slot is one of the array, and the stack has room for it.
  pub Reachable-bounds :
      {s : Oms D} (id slot : ℕ)
      → Reachable s
      → slot_of s.order_map id ≡ some slot
      → (slot < max_orders) × (s.free_top < max_orders)
  Reachable-bounds {s} id slot r h =
      let v = Reachable-IsOwned r in
      let used = v.in_use id slot h in
      let more =
        Injects-suc s.free_stack s.free_top s.next_fresh_slot slot v.free used
          (λ i hi. v.unused i id slot hi h) in
      (
        omega (arith, v.fresh),
        omega (arith, v.fresh, Injects-le (s.free_top + 1) s.next_fresh_slot _ more),
      )
