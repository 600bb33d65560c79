-- ===== src/Oms/Counts.antt =====
-- src/oms.cpp: `pending_new_` and `live_orders_` are numbers of orders that the map holds. First the
-- number of held orders of a kind, and how the handlers of a report change it.
pub mod Tallied
pub mod Kept
use nanosecond_trading_stack.Common.{
  ℕ, zero, suc, ◌+◌, ◌%◌, ◌≤◌, ◌<◌, ◌≡◌, ◌≢◌, refl, sym, Option, none, some, ◌==◌, u64_mod, arith,
  Bool, true, false, if◌then◌else◌, Bool-cases, inl, inr, ==→eq, ==→ne, ne→==, ==_refl,
}
use nanosecond_trading_stack.Oms.OrderMap.Lookup.{slot_of-map_remove, slot_of-map_insert}
use nanosecond_trading_stack.Oms.OrderMap.Slots.{slot_of}
use nanosecond_trading_stack.Oms.OrderMap.{update, map_remove, map_insert}
use nanosecond_trading_stack.Oms.Ownership.Freed.{freed, other_slot}
use nanosecond_trading_stack.Oms.Ownership.Placed.{IsTaken, placed}
use nanosecond_trading_stack.Oms.Ownership.{Core, IsOwned, owned-HasRoom, next_id-Absent}
use nanosecond_trading_stack.Oms.{Order}

abbrev sum_below : ℕ → (ℕ → ℕ) → ℕ
sum_below zero f = 0
sum_below (suc n) f = sum_below n f + f n

pub sum_below-same :
    (n : ℕ) (f g : ℕ → ℕ) → ((k : ℕ) → k < n → f k ≡ g k) → sum_below n f ≡ sum_below n g
sum_below-same zero f g h = refl
sum_below-same (suc n) f g h =
    omega (arith, sum_below-same n f g (λ k lt. h k (omega arith)), h n (omega arith))

sum_below_change :
    (n id : ℕ) (f g : ℕ → ℕ)
    → id < n
    → ((k : ℕ) → id ≢ k → f k ≡ g k)
    → sum_below n f + g id ≡ sum_below n g + f id
sum_below_change zero id f g lt h = absurd (omega arith)
sum_below_change (suc n) id f g lt h = elim (Bool-cases (id == n)) [
  | inl e ↦
      let same : id ≡ n = ==→eq id n e in
      let rest = sum_below-same n f g (λ k lt'. h k (λ z. absurd (omega (arith, z)))) in
      rw same (omega (arith, rest))
  | inr e ↦
      let ne = ==→ne id n e in
      omega (arith, h n ne, sum_below_change n id f g (omega (arith, ne)) h)
]

sum_below-bound : (n : ℕ) (f : ℕ → ℕ) → ((k : ℕ) → f k ≤ 1) → sum_below n f ≤ n
sum_below-bound zero f h = omega arith
sum_below-bound (suc n) f h = omega (arith, sum_below-bound n f h, h n)

pub sum_below-add :
    (n : ℕ) (f g h : ℕ → ℕ)
    → ((k : ℕ) → f k + g k ≡ h k)
    → sum_below n f + sum_below n g ≡ sum_below n h
sum_below-add zero f g h e = refl
sum_below-add (suc n) f g h e = omega (arith, sum_below-add n f g h e, e n)

module _ {ℓ} {D : Type ℓ} (weigh : Order D → ℕ) where
  abbrev pub weight : (ℕ → Order D) → Option ℕ → ℕ
  weight orders none = 0
  weight orders (some i) = weigh (orders i)

  -- The weights of the orders that the map holds, together.
  abbrev pub held_weight : Core D → ℕ
  held_weight c = sum_below c.next_id (λ k. weight c.orders (slot_of c.order_map k))

  weight-update :
      (orders : ℕ → Order D) (slot : ℕ) (o : Order D) (r : Option ℕ)
      → ((i : ℕ) → r ≡ some i → i ≢ slot)
      → weight (update orders slot o) r ≡ weight orders r
  weight-update orders slot o none h = refl
  weight-update orders slot o (some i) h = rw (ne→== i slot (h i refl)) refl

  weight-le :
      (orders : ℕ → Order D) → ((o : Order D) → weigh o ≤ 1) → (r : Option ℕ) → weight orders r ≤ 1
  weight-le orders h none = omega arith
  weight-le orders h (some i) = h (orders i)

  pub held_weight-bound : (c : Core D) → ((o : Order D) → weigh o ≤ 1) → held_weight c ≤ c.next_id
  held_weight-bound c h =
      sum_below-bound c.next_id _ (λ k. weight-le c.orders h (slot_of c.order_map k))

  module _ (c : Core D) (v : IsOwned c) (id slot : ℕ) (held : slot_of c.order_map id ≡ some slot)
      (o : Order D) where
    pub revised-weight :
        held_weight (record c { orders = update c.orders slot o }) + weigh (c.orders slot)
        ≡ held_weight c + weigh o
    revised-weight =
        let changed =
          sum_below_change c.next_id id
            (λ k. weight (update c.orders slot o) (slot_of c.order_map k))
            (λ k. weight c.orders (slot_of c.order_map k)) (v.old_id id slot held)
            (λ k ne.
              weight-update c.orders slot o (slot_of c.order_map k)
                (λ i h. other_slot c v id slot held k i h ne)) in
        rw (held, ==_refl slot) at changed

    pub freed-weight :
        held_weight (freed c v id slot held o) + weigh (c.orders slot) ≡ held_weight c
    freed-weight =
        let removed = (slot_of-map_remove c.order_map id v.probed (owned-HasRoom c v)).1 in
        let gone : slot_of (map_remove c.order_map id) id ≡ none =
          rw (==_refl id) at (removed id) in
        let changed =
          sum_below_change c.next_id id
            (λ k. weight (update c.orders slot o) (slot_of (map_remove c.order_map id) k))
            (λ k. weight c.orders (slot_of c.order_map k)) (v.old_id id slot held)
            (λ k ne.
              let same : slot_of (map_remove c.order_map id) k ≡ slot_of c.order_map k =
                rw (ne→== id k ne) at (removed k) in
              rw same (
                weight-update c.orders slot o (slot_of c.order_map k)
                  (λ i h. other_slot c v id slot held k i h ne))) in
        let after = rw (held, gone) at changed in omega (arith, after)

  module _ (c : Core D) (slot : ℕ) (taken : IsTaken c slot) (o : Order D) where
    pub placed-weight :
        c.next_id + 1 < u64_mod → held_weight (placed c slot taken o) ≡ held_weight c + weigh o
    placed-weight small =
        let v = taken.owned in
        let found =
          (slot_of-map_insert c.order_map v.probed c.next_id slot (next_id-Absent c v)
            (owned-HasRoom c v)).1 in
        let last : slot_of (map_insert c.order_map c.next_id slot) c.next_id ≡ some slot =
          rw (==_refl c.next_id) at (found c.next_id) in
        let next : (c.next_id + 1) % u64_mod ≡ suc c.next_id = omega arith in
        let others : sum_below c.next_id (λ k.
          weight (update c.orders slot o) (slot_of (map_insert c.order_map c.next_id slot) k))
            ≡ held_weight c =
          sum_below-same c.next_id _ _ (λ k lt.
            let old : slot_of (map_insert c.order_map c.next_id slot) k ≡ slot_of c.order_map k =
              rw (ne→== c.next_id k (λ z. absurd (omega (arith, z)))) at (found k) in
            rw old (weight-update c.orders slot o (slot_of c.order_map k) (taken.not_used k))) in
        rw (next, last, ==_refl slot, others) refl
