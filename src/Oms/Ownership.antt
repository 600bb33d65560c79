-- ===== src/Oms/Ownership.antt =====
-- Which slots of src/oms.cpp are in use: those that the map gives for some id. The others below
-- `next_fresh_slot_` are on the stack of free slots.
pub mod Freed
pub mod Placed
pub mod Handlers
use nanosecond_trading_stack.Common.{
  ℕ, ◌+◌, ◌≤◌, ◌<◌, ◌≡◌, ◌≢◌, refl, sym, ap, ◌∙◌, true, false, Bool, Option, some, arith, inl, inr,
  ltb, lt→ltb,
}
use nanosecond_trading_stack.Common.Pigeonhole.{Injects, Injects-le, find_false}
use nanosecond_trading_stack.Oms.OrderMap.Probing.{IsProbed, Occupied, Absent}
use nanosecond_trading_stack.Oms.OrderMap.Slots.{HasRoom, slot_of, slot_of-Holds}
use nanosecond_trading_stack.Oms.OrderMap.{OrderMap, order_map_size}
use nanosecond_trading_stack.Oms.{Oms, Order, is_fillable, max_orders}

-- What the invariant reads of an order management system.
pub record Core {ℓ} (D : Type ℓ) : Type ℓ where
  pub orders : ℕ → Order D
  pub order_map : OrderMap
  pub next_id : ℕ
  pub free_stack : ℕ → ℕ
  pub free_top : ℕ
  pub next_fresh_slot : ℕ

module _ {ℓ} {D : Type ℓ} where
  abbrev pub core : Oms D → Core D
  core s = record {
    orders = s.orders;
    order_map = s.order_map;
    next_id = s.next_id;
    free_stack = s.free_stack;
    free_top = s.free_top;
    next_fresh_slot = s.next_fresh_slot;
  }

  -- The order that the map gives for an id is an open order of this id, in a slot that was handed
  -- out. The slots on the stack were handed out, are in use by no id, and are on it once.
  pub record IsOwned (c : Core D) : Type ℓ where
    pub probed : IsProbed c.order_map
    pub fresh : c.next_fresh_slot ≤ max_orders
    pub in_use : (k i : ℕ) → slot_of c.order_map k ≡ some i → i < c.next_fresh_slot
    pub own_id : (k i : ℕ) → slot_of c.order_map k ≡ some i → (c.orders i).id ≡ k
    pub is_open :
        (k i : ℕ) → slot_of c.order_map k ≡ some i → is_fillable (c.orders i).status ≡ true
    pub old_id : (k i : ℕ) → slot_of c.order_map k ≡ some i → k < c.next_id
    pub free : Injects c.free_stack c.free_top c.next_fresh_slot
    pub unused : (j k i : ℕ) → j < c.free_top → slot_of c.order_map k ≡ some i → c.free_stack j ≢ i

  module _ (c : Core D) (v : IsOwned c) where
    -- The stack of free slots is never longer than the array of orders.
    pub free_top-le : c.free_top ≤ max_orders
    free_top-le =
        omega (arith, Injects-le c.free_top c.next_fresh_slot c.free_stack v.free, v.fresh)

    -- There are twice as many elements as slots, so one is free.
    pub owned-HasRoom : HasRoom c.order_map
    owned-HasRoom = elim (find_false order_map_size (λ p. (c.order_map p).occupied)) [
      | inl found ↦ found
      | inr full ↦ absurd (
          omega (
            arith,
            Injects-le order_map_size c.next_fresh_slot (λ p. (c.order_map p).slot) (all_used full),
            v.fresh,
          ))
    ]
      where
        given :
            (p : ℕ)
            → p < order_map_size
            → Occupied c.order_map p
            → slot_of c.order_map (c.order_map p).id ≡ some (c.order_map p).slot
        given p hp op =
            slot_of-Holds c.order_map v.probed (c.order_map p).id (c.order_map p).slot
              (p, hp, op, refl, refl)

        all_used :
            ((p : ℕ) → p < order_map_size → Occupied c.order_map p)
            → Injects (λ p. (c.order_map p).slot) order_map_size c.next_fresh_slot
        all_used full = record {
          below = λ p hp. v.in_use (c.order_map p).id (c.order_map p).slot (given p hp (full p hp));
          apart = λ p q hp hq e.
              let a = v.own_id (c.order_map p).id (c.order_map p).slot (given p hp (full p hp)) in
              let b = v.own_id (c.order_map q).id (c.order_map q).slot (given q hq (full q hq)) in
              v.probed.unique p q hp hq (full p hp) (full q hq)
                (sym a ∙ ap (λ i. (c.orders i).id) e ∙ b);
        }

    -- No order has the next id yet.
    pub next_id-Absent : Absent c.order_map c.next_id
    next_id-Absent p hp op e =
        let given =
          slot_of-Holds c.order_map v.probed (c.order_map p).id (c.order_map p).slot
            (p, hp, op, refl, refl) in
        absurd (omega (arith, v.old_id (c.order_map p).id (c.order_map p).slot given, e))
