-- ===== src/Oms/Exposure.antt =====
-- src/oms.cpp: `pending_position_delta_` is the sum of what the orders of the map have open.
pub mod Kept
use nanosecond_trading_stack.Common.{
  ℕ, zero, suc, ◌+◌, ◌-◌, ◌*◌, ◌%◌, ◌≤◌, ◌<◌, ◌≡◌, ◌≢◌, ◌⊎◌, inl, inr, refl, sym, ap, subst, ◌∙◌,
  Bool, true, false, ◌||◌, Option, none, some, ◌==◌, leb, ltb, if◌then◌else◌, add32, sub32, neg32,
  u32_mod, u64_mod, arith, Bool-cases, Option-cases, ==→eq, ==→ne, ne→==, ==_refl, dec_le,
}
use nanosecond_trading_stack.Double.{Double}
use nanosecond_trading_stack.Oms.OrderMap.Slots.{slot_of}
use nanosecond_trading_stack.Oms.OrderMap.{OrderMap, update, map_remove, map_insert}
use nanosecond_trading_stack.Oms.Ownership.{Core, core, IsOwned, owned-HasRoom, next_id-Absent}
use nanosecond_trading_stack.Oms.Ownership.Freed.{freed, other_slot, kept}
use nanosecond_trading_stack.Oms.OrderMap.Lookup.{slot_of-map_remove, slot_of-map_insert}
use nanosecond_trading_stack.Oms.Ownership.Placed.{IsTaken, placed, inserted}
use nanosecond_trading_stack.Oms.{
  Oms, Order, signed_qty, send_new, with_order, alloc_slot, max_orders, check_risk,
}
use nanosecond_trading_stack.Types.{Side, OrderType, buy, sell}

-- The sum of the first `n` values, as a 32-bit integer.
abbrev pub total : ℕ → (ℕ → ℕ) → ℕ
total zero f = 0
total (suc n) f = add32 (total n f) (f n)

pub total-same : (n : ℕ) (f g : ℕ → ℕ) → ((k : ℕ) → k < n → f k ≡ g k) → total n f ≡ total n g
total-same zero f g h = refl
total-same (suc n) f g h =
    let rest = total-same n f g (λ k lt. h k (omega arith)) in
    let last = h n (omega arith) in rw (rest, last) refl

-- A sum of which one value changes.
total_change :
    (n id : ℕ) (f g : ℕ → ℕ)
    → id < n
    → ((k : ℕ) → id ≢ k → f k ≡ g k)
    → add32 (total n f) (g id) ≡ add32 (total n g) (f id)
total_change zero id f g lt h = absurd (omega arith)
total_change (suc n) id f g lt h = elim (Bool-cases (id == n)) [
  | inl e ↦
      let same : id ≡ n = ==→eq id n e in
      let rest : total n f ≡ total n g =
        total-same n f g (λ k lt'. h k (λ z. absurd (omega (arith, z)))) in
      rw (same, rest) (omega arith)
  | inr e ↦
      let ne = ==→ne id n e in
      let last : f n ≡ g n = h n ne in
      let rest = total_change n id f g (omega (arith, ne)) h in omega (arith, last, rest)
]

total_small : (n : ℕ) (f : ℕ → ℕ) → total n f < u32_mod
total_small zero f = omega arith
total_small (suc n) f = omega arith

-- A running sum stays the sum when one value changes and it is corrected.
pub recount :
    (n id : ℕ) (f g : ℕ → ℕ) (p p' : ℕ)
    → p ≡ total n g
    → id < n
    → ((k : ℕ) → id ≢ k → f k ≡ g k)
    → p' < u32_mod
    → add32 p' (g id) ≡ add32 p (f id)
    → p' ≡ total n f
recount n id f g p p' e lt h small corrected =
    omega (arith, total_change n id f g lt h, total_small n f, total_small n g)

pub signed_small : (side : Side) (qty : ℕ) → signed_qty side qty < u32_mod
signed_small buy qty = omega arith
signed_small sell qty = omega arith

module _ {ℓ} {D : Type ℓ} where
  -- What an order has open, with its sign.
  abbrev pub open_qty : Order D → ℕ
  open_qty o = signed_qty o.side o.leaves_qty

  abbrev pub share : (ℕ → Order D) → Option ℕ → ℕ
  share orders none = 0
  share orders (some i) = open_qty (orders i)

  -- What the orders that the map holds have open, together.
  abbrev pub open_total : Core D → ℕ
  open_total c = total c.next_id (λ k. share c.orders (slot_of c.order_map k))

  abbrev pub IsSized : Order D → Type 0
  IsSized o = (o.filled_qty + o.leaves_qty ≡ o.qty) × (o.qty < u32_mod)

  -- `p` is the sum of what is open, and every order that the map holds has open what is not filled.
  pub record IsCounted (c : Core D) (p : ℕ) : Type ℓ where
    pub counted : p ≡ open_total c
    pub sized : (k i : ℕ) → slot_of c.order_map k ≡ some i → IsSized (c.orders i)

  pub counted-small : (c : Core D) (p : ℕ) → IsCounted c p → p < u32_mod
  counted-small c p q =
      omega (arith, q.counted, total_small c.next_id (λ k. share c.orders (slot_of c.order_map k)))

  share-update :
      (orders : ℕ → Order D) (slot : ℕ) (o : Order D) (r : Option ℕ)
      → ((i : ℕ) → r ≡ some i → i ≢ slot)
      → share (update orders slot o) r ≡ share orders r
  share-update orders slot o none h = refl
  share-update orders slot o (some i) h = rw (ne→== i slot (h i refl)) refl

  module _ (c : Core D) (v : IsOwned c) (id slot : ℕ) (held : slot_of c.order_map id ≡ some slot)
      (p p' : ℕ) (q : IsCounted c p) (o : Order D) (small : p' < u32_mod) where
    pub revised-IsCounted :
        IsSized o
        → add32 p' (open_qty (c.orders slot)) ≡ add32 p (open_qty o)
        → IsCounted (record c { orders = update c.orders slot o }) p'
    revised-IsCounted size corrected = record {
      counted =
          recount c.next_id id _ (λ k. share c.orders (slot_of c.order_map k)) p p' q.counted
            (v.old_id id slot held)
            (λ k ne.
              share-update c.orders slot o (slot_of c.order_map k)
                (λ i h. other_slot c v id slot held k i h ne))
            small (rw (held, ==_refl slot) corrected);
      sized = λ k i h. elim (Bool-cases (i == slot)) [
        | inl e ↦ rw e size
        | inr e ↦ rw e (q.sized k i h)
      ];
    }

    pub freed-IsCounted :
        add32 p' (open_qty (c.orders slot)) ≡ p → IsCounted (freed c v id slot held o) p'
    freed-IsCounted corrected =
        let removed = (slot_of-map_remove c.order_map id v.probed (owned-HasRoom c v)).1 in
        let gone : slot_of (map_remove c.order_map id) id ≡ none =
          rw (==_refl id) at (removed id) in
        let small_p = counted-small c p q in
        record {
          counted =
              recount c.next_id id _ (λ k. share c.orders (slot_of c.order_map k)) p p' q.counted
                (v.old_id id slot held)
                (λ k ne.
                  let same : slot_of (map_remove c.order_map id) k ≡ slot_of c.order_map k =
                    rw (ne→== id k ne) at (removed k) in
                  rw same (
                    share-update c.orders slot o (slot_of c.order_map k)
                      (λ i h. other_slot c v id slot held k i h ne)))
                small (rw (held, gone) (omega (arith, corrected, small_p)));
          sized = λ k i h.
              let (ne, old) = kept c v id slot held k i h in
              rw (ne→== i slot (other_slot c v id slot held k i old ne)) (q.sized k i old);
        }

  module _ (c : Core D) (slot : ℕ) (taken : IsTaken c slot) (o : Order D) (p : ℕ)
      (q : IsCounted c p) where
    pub placed-IsCounted :
        c.next_id + 1 < u64_mod
        → IsSized o
        → IsCounted (placed c slot taken o) (add32 p (open_qty o))
    placed-IsCounted small size =
        let v = taken.owned in
        let found =
          (slot_of-map_insert c.order_map v.probed c.next_id slot (next_id-Absent c v)
            (owned-HasRoom c v)).1 in
        let last : slot_of (map_insert c.order_map c.next_id slot) c.next_id ≡ some slot =
          rw (==_refl c.next_id) at (found c.next_id) in
        let next : (c.next_id + 1) % u64_mod ≡ suc c.next_id = omega arith in
        let others : total c.next_id (λ k.
          share (update c.orders slot o) (slot_of (map_insert c.order_map c.next_id slot) k))
            ≡ total c.next_id (λ k. share c.orders (slot_of c.order_map k)) =
          total-same c.next_id _ _ (λ k lt.
            let old : slot_of (map_insert c.order_map c.next_id slot) k ≡ slot_of c.order_map k =
              rw (ne→== c.next_id k (λ z. absurd (omega (arith, z)))) at (found k) in
            rw old (share-update c.orders slot o (slot_of c.order_map k) (taken.not_used k))) in
        record {
          counted = rw (next, last, ==_refl slot, others, q.counted) refl;
          sized = λ k i h. elim (inserted c slot taken o k i h) [
            | inl (_, e) ↦ rw (e, ==_refl slot) size
            | inr (ne, old) ↦ rw (ne→== i slot ne) (q.sized k i old)
          ];
        }
