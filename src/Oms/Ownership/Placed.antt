-- ===== src/Oms/Ownership/Placed.antt =====
-- `send_new` of include/nts/oms.h takes a slot and puts an order with the next id into it.
use nanosecond_trading_stack.Common.{
  ℕ, ◌+◌, ◌-◌, ◌%◌, ◌⊎◌, ◌<◌, ◌≡◌, ◌≢◌, sym, ◌∙◌, true, false, some, ◌==◌, arith, inl, inr,
  Bool-cases, ==→eq, ==_refl, ne→==, u64_mod, ltb, leb,
}
use nanosecond_trading_stack.Common.Pigeonhole.{Injects-pred, Injects-mono}
use nanosecond_trading_stack.Double.{Double}
use nanosecond_trading_stack.Oms.OrderMap.Lookup.{slot_of-map_insert}
use nanosecond_trading_stack.Oms.OrderMap.Slots.{slot_of}
use nanosecond_trading_stack.Oms.OrderMap.{map_insert, update}
use nanosecond_trading_stack.Oms.Ownership.{Core, IsOwned, core, owned-HasRoom, next_id-Absent}
use nanosecond_trading_stack.Oms.{Oms, Order, is_fillable, alloc_slot, max_orders}

-- A slot that was taken: handed out, on no stack and in use by no id.
pub record IsTaken {ℓ} {D : Type ℓ} (c : Core D) (slot : ℕ) : Type ℓ where
  pub owned : IsOwned c
  pub handed_out : slot < c.next_fresh_slot
  pub not_used : (k i : ℕ) → slot_of c.order_map k ≡ some i → i ≢ slot
  pub not_free : (j : ℕ) → j < c.free_top → c.free_stack j ≢ slot

module _ {ℓ} {D : Type ℓ} where
  popped-IsTaken :
      (c : Core D)
      → IsOwned c
      → 0 < c.free_top
      → IsTaken (record c { free_top = c.free_top - 1 }) (c.free_stack (c.free_top - 1))
  popped-IsTaken c v pos = record {
    owned = record {
      probed = v.probed;
      fresh = v.fresh;
      in_use = v.in_use;
      own_id = v.own_id;
      is_open = v.is_open;
      old_id = v.old_id;
      free =
          Injects-pred c.free_stack (c.free_top - 1) c.free_top c.next_fresh_slot v.free
            (omega arith);
      unused = λ j k i hj h. v.unused j k i (omega arith) h;
    };
    handed_out = v.free.below (c.free_top - 1) (omega arith);
    not_used = λ k i h z. v.unused (c.free_top - 1) k i (omega arith) h (sym z);
    not_free = λ j hj e.
        absurd (omega (arith, v.free.apart j (c.free_top - 1) (omega arith) (omega arith) e));
  }

  fresh-IsTaken :
      (c : Core D)
      → IsOwned c
      → c.next_fresh_slot < max_orders
      → IsTaken (record c { next_fresh_slot = c.next_fresh_slot + 1 }) c.next_fresh_slot
  fresh-IsTaken c v room = record {
    owned = record {
      probed = v.probed;
      fresh = omega arith;
      in_use = λ k i h. omega (arith, v.in_use k i h);
      own_id = v.own_id;
      is_open = v.is_open;
      old_id = v.old_id;
      free =
          Injects-mono c.free_stack c.free_top c.next_fresh_slot (c.next_fresh_slot + 1) v.free
            (omega arith);
      unused = v.unused;
    };
    handed_out = omega arith;
    not_used = λ k i h z. absurd (omega (arith, v.in_use k i h, z));
    not_free = λ j hj z. absurd (omega (arith, v.free.below j hj, z));
  }

  module _ (c : Core D) (slot : ℕ) (taken : IsTaken c slot) (o : Order D) where
    -- The core with the order in its slot.
    abbrev pub placed : Core D
    placed = record c {
      orders = update c.orders slot o;
      order_map = map_insert c.order_map c.next_id slot;
      next_id = (c.next_id + 1) % u64_mod;
    }

    pub inserted :
        (k i : ℕ)
        → slot_of placed.order_map k ≡ some i
        → ((k ≡ c.next_id) × (i ≡ slot)) ⊎ ((i ≢ slot) × (slot_of c.order_map k ≡ some i))
    inserted k i h =
        let v = taken.owned in
        let found =
          (slot_of-map_insert c.order_map v.probed c.next_id slot (next_id-Absent c v)
              (owned-HasRoom c v)).1
            k in
        elim (Bool-cases (c.next_id == k)) [
          | inl e ↦ inl (sym (==→eq c.next_id k e), cc (sym (rw e at found) ∙ h))
          | inr e ↦ let old = sym (rw e at found) ∙ h in inr (taken.not_used k i old, old)
        ]

    pub placed-IsOwned :
        c.next_id + 1 < u64_mod → o.id ≡ c.next_id → is_fillable o.status ≡ true → IsOwned placed
    placed-IsOwned small same fillable =
        let v = taken.owned in
        record {
          probed =
              (slot_of-map_insert c.order_map v.probed c.next_id slot (next_id-Absent c v)
                (owned-HasRoom c v)).0;
          fresh = v.fresh;
          in_use = λ k i h. elim (inserted k i h) [
            | inl (_, e) ↦ rw e taken.handed_out
            | inr (_, old) ↦ v.in_use k i old
          ];
          own_id = λ k i h. elim (inserted k i h) [
            | inl (new, e) ↦ rw (e, new, ==_refl slot) same
            | inr (ne, old) ↦ rw (ne→== i slot ne) (v.own_id k i old)
          ];
          is_open = λ k i h. elim (inserted k i h) [
            | inl (_, e) ↦ rw (e, ==_refl slot) fillable
            | inr (ne, old) ↦ rw (ne→== i slot ne) (v.is_open k i old)
          ];
          old_id = λ k i h. elim (inserted k i h) [
            | inl (new, _) ↦ omega arith
            | inr (_, old) ↦ omega (arith, v.old_id k i old)
          ];
          free = v.free;
          unused = λ j k i hj h. elim (inserted k i h) [
            | inl (_, e) ↦ rw e (taken.not_free j hj)
            | inr (_, old) ↦ v.unused j k i hj old
          ];
        }

module _ {ℓ} {D : Type ℓ} ⦃d : Double D⦄ where
  -- Where `alloc_slot` gives a slot, the slot is taken.
  pub alloc_slot-IsTaken :
      (s : Oms D)
      → IsOwned (core s)
      → leb max_orders (alloc_slot s).0 ≡ false
      → IsTaken (core (alloc_slot s).1) (alloc_slot s).0
  unfolding alloc_slot
  alloc_slot-IsTaken s v got = elim (Bool-cases (ltb 0 s.free_top)) [
    | inl e ↦ rw e (popped-IsTaken (core s) v (ground arith))
    | inr e ↦ elim (Bool-cases (ltb s.next_fresh_slot max_orders)) [
      | inl f ↦ rw (e, f) (fresh-IsTaken (core s) v (ground arith))
      | inr f ↦ absurd (cc (rw (e, f) at got))
    ]
  ]

  pub alloc_slot-IsOwned : (s : Oms D) → IsOwned (core s) → IsOwned (core (alloc_slot s).1)
  unfolding alloc_slot
  alloc_slot-IsOwned s v = elim (Bool-cases (ltb 0 s.free_top)) [
    | inl e ↦ rw e (popped-IsTaken (core s) v (ground arith)).owned
    | inr e ↦ elim (Bool-cases (ltb s.next_fresh_slot max_orders)) [
      | inl f ↦ rw (e, f) (fresh-IsTaken (core s) v (ground arith)).owned
      | inr f ↦ rw (e, f) v
    ]
  ]

  pub alloc_slot-next_id : (s : Oms D) → (alloc_slot s).1.next_id ≡ s.next_id
  unfolding alloc_slot
  alloc_slot-next_id s = ground arith
