-- ===== src/Oms/Ownership/Freed.antt =====
-- `free_slot` of src/oms.cpp gives a slot back, and a report rewrites an order in its slot.
use nanosecond_trading_stack.Common.{
  ℕ, ◌+◌, ◌≡◌, ◌≢◌, sym, ap, ◌∙◌, true, some, ◌==◌, arith, inl, inr, Bool-cases, ==→eq, ==→ne,
  ne→==,
}
use nanosecond_trading_stack.Common.Pigeonhole.{Injects-suc}
use nanosecond_trading_stack.Oms.OrderMap.Lookup.{slot_of-map_remove}
use nanosecond_trading_stack.Oms.OrderMap.Slots.{slot_of}
use nanosecond_trading_stack.Oms.OrderMap.{map_remove, update}
use nanosecond_trading_stack.Oms.Ownership.{Core, IsOwned, owned-HasRoom, free_top-le}
use nanosecond_trading_stack.Oms.{Order, is_fillable, inc}

module _ {ℓ} {D : Type ℓ} (c : Core D) (v : IsOwned c) (id slot : ℕ)
    (held : slot_of c.order_map id ≡ some slot) where
  -- No other id has the slot.
  pub other_slot : (k i : ℕ) → slot_of c.order_map k ≡ some i → id ≢ k → i ≢ slot
  other_slot k i h ne e =
      ne (sym (v.own_id id slot held) ∙ (ap (λ j. (c.orders j).id) (sym e) ∙ v.own_id k i h))

  -- The order in the slot stays an open order of the same id.
  pub updated-IsOwned :
      (o : Order D)
      → o.id ≡ id
      → is_fillable o.status ≡ true
      → IsOwned (record c { orders = update c.orders slot o })
  updated-IsOwned o same fillable = record {
    probed = v.probed;
    fresh = v.fresh;
    in_use = v.in_use;
    own_id = λ k i h. elim (Bool-cases (i == slot)) [
      | inl e ↦ rw e (
          same
          ∙ (sym (v.own_id id slot held)
              ∙ (ap (λ j. (c.orders j).id) (sym (==→eq i slot e)) ∙ v.own_id k i h)))
      | inr e ↦ rw e (v.own_id k i h)
    ];
    is_open = λ k i h. elim (Bool-cases (i == slot)) [
      | inl e ↦ rw e fillable
      | inr e ↦ rw e (v.is_open k i h)
    ];
    old_id = v.old_id;
    free = v.free;
    unused = v.unused;
  }

  -- The core after `free_slot`, whatever was written into the slot.
  abbrev pub freed : Order D → Core D
  freed o = record c {
    orders = update c.orders slot o;
    order_map = map_remove c.order_map id;
    free_stack = update c.free_stack c.free_top slot;
    free_top = inc c.free_top;
  }

  pub kept :
      (k i : ℕ)
      → slot_of (map_remove c.order_map id) k ≡ some i
      → (id ≢ k) × (slot_of c.order_map k ≡ some i)
  kept k i h =
      let removed = (slot_of-map_remove c.order_map id v.probed (owned-HasRoom c v)).1 k in
      elim (Bool-cases (id == k)) [
        | inl e ↦ absurd (cc (h, rw e at removed))
        | inr e ↦ (==→ne id k e, sym (rw e at removed) ∙ h)
      ]

  free_top-inc : inc c.free_top ≡ c.free_top + 1
  free_top-inc = omega (arith, free_top-le c v)

  pub freed-IsOwned : (o : Order D) → IsOwned (freed o)
  freed-IsOwned o = record {
    probed = (slot_of-map_remove c.order_map id v.probed (owned-HasRoom c v)).0;
    fresh = v.fresh;
    in_use = λ k i h. v.in_use k i (kept k i h).1;
    own_id = λ k i h.
        let (ne, old) = kept k i h in rw (ne→== i slot (other_slot k i old ne)) (v.own_id k i old);
    is_open = λ k i h.
        let (ne, old) = kept k i h in rw (ne→== i slot (other_slot k i old ne)) (v.is_open k i old);
    old_id = λ k i h. v.old_id k i (kept k i h).1;
    free = rw free_top-inc (
        Injects-suc c.free_stack c.free_top c.next_fresh_slot slot v.free (v.in_use id slot held)
          (λ i hi. v.unused i id slot hi held));
    unused = λ j k i hj h.
        let (ne, old) = kept k i h in
        elim (Bool-cases (j == c.free_top)) [
          | inl e ↦ rw e (λ z. other_slot k i old ne (sym z))
          | inr e ↦ rw e (v.unused j k i (omega (arith, free_top-inc, ==→ne j c.free_top e)) old)
        ];
  }
