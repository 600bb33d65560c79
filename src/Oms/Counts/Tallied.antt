-- ===== src/Oms/Counts/Tallied.antt =====
-- The counters of src/oms.cpp for the orders that wait for their first report and for the others.
use nanosecond_trading_stack.Common.{
  ℕ, ◌+◌, ◌≤◌, ◌<◌, ◌≡◌, sym, subst, Bool, true, false, some, if◌then◌else◌, u64_mod, arith,
}
use nanosecond_trading_stack.Oms.Counts.{
  held_weight, held_weight-bound, revised-weight, freed-weight,
}
use nanosecond_trading_stack.Oms.OrderMap.Slots.{slot_of}
use nanosecond_trading_stack.Oms.OrderMap.{update}
use nanosecond_trading_stack.Oms.Ownership.Handlers.{give_back}
use nanosecond_trading_stack.Oms.Ownership.{Core, IsOwned}
use nanosecond_trading_stack.Oms.{Order, inc, dec_pos}
use nanosecond_trading_stack.Types.{is_sent}

abbrev bit : Bool → ℕ
bit b = if b then 1 else 0

abbrev other_bit : Bool → ℕ
other_bit b = if b then 0 else 1

-- The counters of a fill, which counts as the acceptance of an order that waits, and of its end.
pub fill_counters :
    (sent : Bool) (p l : ℕ)
    → bit sent ≤ p
    → other_bit sent ≤ l
    → l + 1 < u64_mod
    → let p' = if sent then dec_pos p else p in
      let l' = if sent then inc l else l in
      (p' + bit sent ≡ p) × (l' + other_bit sent ≡ l + 1) × (dec_pos l' + other_bit sent ≡ l)
fill_counters true p l hp hl small = (ground arith, ground arith, ground arith)
fill_counters false p l hp hl small = (ground arith, ground arith, ground arith)

module _ {ℓ} {D : Type ℓ} where
  -- An order that waits for its first report, and one that has had it.
  abbrev pub waits : Order D → ℕ
  waits o = if is_sent o.status then 1 else 0

  abbrev pub lives : Order D → ℕ
  lives o = if is_sent o.status then 0 else 1

  waits_le_one : (o : Order D) → waits o ≤ 1
  waits_le_one o = ground arith

  lives_le_one : (o : Order D) → lives o ≤ 1
  lives_le_one o = ground arith

  -- `pending` orders that the map holds wait for their first report, and `live` ones have had it.
  pub record IsTallied (c : Core D) (pending live : ℕ) : Type ℓ where
    pub waiting : pending ≡ held_weight waits c
    pub living : live ≡ held_weight lives c

  pub IsTallied-same :
      (b c : Core D) (p p' l l' : ℕ) → b ≡ c → p ≡ p' → l ≡ l' → IsTallied c p' l' → IsTallied b p l
  IsTallied-same b c p p' l l' e hp hl q =
      subst (λ x. IsTallied x p l) (sym e)
        (subst (λ n. IsTallied c n l) (sym hp) (subst (IsTallied c p') (sym hl) q))

  pub tallied_bound : (c : Core D) (p l : ℕ) → IsTallied c p l → (p ≤ c.next_id) × (l ≤ c.next_id)
  tallied_bound c p l q = (
    omega (arith, q.waiting, held_weight-bound waits c waits_le_one),
    omega (arith, q.living, held_weight-bound lives c lives_le_one),
  )

  module _ (c : Core D) (v : IsOwned c) (id slot : ℕ) (held : slot_of c.order_map id ≡ some slot)
      (p l : ℕ) (q : IsTallied c p l) (o : Order D) (p' l' : ℕ) where
    pub revised-IsTallied :
        p' + waits (c.orders slot) ≡ p + waits o
        → l' + lives (c.orders slot) ≡ l + lives o
        → IsTallied (record c { orders = update c.orders slot o }) p' l'
    revised-IsTallied hp hl = record {
      waiting = omega (arith, hp, q.waiting, revised-weight waits c v id slot held o);
      living = omega (arith, hl, q.living, revised-weight lives c v id slot held o);
    }

    -- The slot is given back, whatever was written into it.
    pub released-IsTallied :
        (k : ℕ)
        → k ≡ id
        → p' + waits (c.orders slot) ≡ p
        → l' + lives (c.orders slot) ≡ l
        → IsTallied (give_back slot k (record c { orders = update c.orders slot o })) p' l'
    released-IsTallied k e hp hl =
        subst
          (λ n. IsTallied (give_back slot n (record c { orders = update c.orders slot o })) p' l')
          (sym e)
          (record {
            waiting = omega (arith, hp, q.waiting, freed-weight waits c v id slot held o);
            living = omega (arith, hl, q.living, freed-weight lives c v id slot held o);
          })
