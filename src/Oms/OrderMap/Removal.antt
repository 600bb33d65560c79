-- ===== src/Oms/OrderMap/Removal.antt =====
-- `map_remove`: the entries behind a removed one are taken out and put in again, up to the first
-- free element. The loop keeps an invariant about the elements that it has still to visit.
use nanosecond_trading_stack.Oms.OrderMap.Pending.{
  Pending, cleared_ne, cleared_free, cleared_old, cleared-HasUniqueIds, passes_end,
}
use nanosecond_trading_stack.Common.{
  ℕ, zero, suc, ◌+◌, ◌%◌, ◌≤◌, ◌<◌, ◌≡◌, refl, sym, ap, ◌∙◌, ◌≢◌, ◌↔◌, inl, inr, false, arith,
  Bool-cases, ne→==, ℕ_discrete, dec_le,
}
use nanosecond_trading_stack.Oms.OrderMap.{
  order_map_size, MapEntry, OrderMap, clear, map_hash, rehash,
}
use nanosecond_trading_stack.Oms.OrderMap.Probing.{
  Occupied, HasPath, IsProbed, FirstFree, map_insert-FirstFree, Absent, entry,
}
use nanosecond_trading_stack.Oms.OrderMap.Inserted.{
  inserted, inserted_old, inserted_new, inserted_cases, inserted-Occupied, inserted-HasPath_new,
  inserted-HasPath_old, inserted-HasUniqueIds,
}
use nanosecond_trading_stack.Oms.OrderMap.Slots.{Holds}
use nanosecond_trading_stack.Oms.OrderMap.Ring.{
  dist, map_hash-lt, dist-lt, dist-next, dist_self, dist-next_self,
}

-- One round of the loop, at an element that is occupied.
module _ {t : OrderMap} {j m : ℕ} (w : Pending t j m) (taken : Occupied t j) where
  abbrev id : ℕ
  id = (t j).id

  abbrev emptied : OrderMap
  emptied = clear t j

  abbrev next : ℕ
  next = (j + 1) % order_map_size

  not_end : j ≢ m
  not_end e = cc (w.end_free, rw e at taken)

  absent : Absent emptied id
  absent p hp op same =
      let (apart, tp) = cleared_old t j p op in
      apart (
        w.unique p j hp w.next_in tp taken
          (ap (λ (e : MapEntry). e.id) (sym (cleared_ne t j p apart)) ∙ same))

  -- An element between the next one and the end is not the one just visited.
  later : (c : ℕ) → c < order_map_size → dist next c < dist next m → (j ≢ c) × (dist j c < dist j m)
  later c hc lt =
      let apart : j ≢ c = λ e. absurd (
        omega (
          arith,
          dist-lt {a = next} (omega arith) w.end_in,
          dist-next w.next_in w.end_in not_end,
          wraps e,
        )) in
      (apart, omega (arith, dist-next w.next_in hc apart, dist-next w.next_in w.end_in not_end))
    where
      wraps : j ≡ c → dist next c ≡ 8191
      wraps e = rw (← e) (omega (arith, dist-next_self j w.next_in))

  module _ (q : ℕ) (first : FirstFree emptied (map_hash id) q) where
    abbrev moved : OrderMap
    moved = inserted emptied id (t j).slot q first

    -- The entry goes no further than where it was.
    no_further : dist (map_hash id) q ≤ dist (map_hash id) j
    no_further = elim (dec_le (dist (map_hash id) q) (dist (map_hash id) j)) [
      | yes le ↦ le
      | no gt ↦ cc (cleared_free t j, first.before j w.next_in (omega arith))
    ]

    before_end : q ≢ m
    before_end e =
        let lt = w.short j w.next_in (rw dist_self (omega (arith, positive))) in
        absurd (omega (arith, no_further, ap (dist (map_hash id)) e))
      where
        positive : 0 < dist j m
        positive = omega (arith, dist-next w.next_in w.end_in not_end)

    -- An entry that is not moved is the one that the table had before the round.
    unmoved : (p : ℕ) → Occupied emptied p → (p ≢ j) × Occupied t p × (moved p ≡ t p)
    unmoved p op =
        let (apart, tp) = cleared_old t j p op in
        (apart, tp, (inserted_old emptied id (t j).slot q first p op).1 ∙ cleared_ne t j p apart)

    emptied-HasPath :
        (p : ℕ)
        → p < order_map_size
        → Occupied emptied p
        → dist next m ≤ dist next p
        → HasPath emptied p
    emptied-HasPath p hp op far c hc le =
        let (apart, tp) = cleared_old t j p op in
        let key = ap (λ (e : MapEntry). map_hash e.id) (cleared_ne t j p apart) in
        let beyond : dist j m ≤ dist j p = omega (
          arith,
          dist-next w.next_in hp (λ e. apart (sym e)),
          dist-next w.next_in w.end_in not_end,
        ) in
        let path : HasPath t p = w.settled p hp tp beyond in
        let near : dist (map_hash (t p).id) c ≤ dist (map_hash (t p).id) p = rw key at le in
        let not_here : c ≢ j = λ e. cc (
          w.end_free,
          path m w.end_in (
              passes_end (map_hash (t p).id) j m p (map_hash-lt (t p).id) w.next_in w.end_in hp
                (rw e at near) beyond),
        ) in
        rw (cleared_ne t j c not_here) (path c hc near)

    later-Occupied :
        (c : ℕ)
        → c < order_map_size
        → dist next c < dist next m
        → Occupied emptied c × (dist j c < dist j m)
    later-Occupied c hc lt =
        let (apart, near) = later c hc lt in
        (rw (cleared_ne t j c (λ e. apart (sym e))) (w.ahead c hc near), near)

    step-Pending : Pending moved next m
    step-Pending = record {
      next_in = omega arith;
      end_in = w.end_in;
      end_free =
          rw (ne→== m q (λ e. before_end (sym e)), ne→== m j (λ e. not_end (sym e))) w.end_free;
      ahead =
          λ c hc lt. inserted-Occupied emptied id (t j).slot q first c (later-Occupied c hc lt).0;
      settled = λ p hp op far. elim (inserted_cases emptied id (t j).slot q first p op) [
        | inl e ↦ rw e (inserted-HasPath_new emptied id (t j).slot q first)
        | inr (_, ep) ↦
            inserted-HasPath_old emptied id (t j).slot q first p ep (emptied-HasPath p hp ep far)
      ];
      short = λ p hp lt.
          let (ep, near) = later-Occupied p hp lt in rw ((unmoved p ep).2) (w.short p hp near);
      unique =
          inserted-HasUniqueIds emptied id (t j).slot q first absent
            (cleared-HasUniqueIds t j w.unique);
    }

    -- The round keeps what the table holds.
    step-Holds : (k s : ℕ) → Holds moved k s ↔ Holds t k s
    step-Holds k s = (back, forth)
      where
        new : moved q ≡ entry id (t j).slot
        new = inserted_new emptied id (t j).slot q first

        back : Holds moved k s → Holds t k s
        back (p, hp, op, e, f) = elim (inserted_cases emptied id (t j).slot q first p op) [
          | inl at ↦
              let same = ap moved at ∙ new in
              (
                j,
                w.next_in,
                taken,
                sym (ap (λ (x : MapEntry). x.id) same) ∙ e,
                sym (ap (λ (x : MapEntry). x.slot) same) ∙ f,
              )
          | inr (_, ep) ↦
              let (_, tp, same) = unmoved p ep in (p, hp, tp, rw same at e, rw same at f)
        ]

        forth : Holds t k s → Holds moved k s
        forth (p, hp, op, e, f) = elim (ℕ_discrete p j) [
          | yes at ↦ (
            q,
            first.inside,
            rw new refl,
            rw new (sym (ap (λ x. (t x).id) at) ∙ e),
            rw new (sym (ap (λ x. (t x).slot) at) ∙ f),
          )
          | no apart ↦
              let ep : Occupied emptied p = rw (cleared_ne t j p apart) op in
              let same = (unmoved p ep).2 in (p, hp, rw same op, rw same e, rw same f)
        ]

-- With a round for each pending element the loop ends, and then the invariant of probing holds for
-- what the table held.
pub rehash-IsProbed :
    (fuel : ℕ) (t : OrderMap) (j m : ℕ)
    → Pending t j m
    → dist j m < fuel
    → IsProbed (rehash fuel t j) × ((k s : ℕ) → Holds (rehash fuel t j) k s ↔ Holds t k s)
unfolding rehash
rehash-IsProbed zero t j m w h = absurd (omega arith)
rehash-IsProbed (suc fuel) t j m w h = elim (Bool-cases (t j).occupied) [
  | inr open' ↦
      let over : dist j m ≡ 0 = at_end open' in
      (
        rw open' (record { path = λ p hp op. w.settled p hp op (omega arith); unique = w.unique }),
        λ k s. rw open' ((λ z. z), (λ z. z)),
      )
  | inl taken ↦
      let (q, first, e) =
        map_insert-FirstFree (clear t j) (t j).id (t j).slot j w.next_in (cleared_free t j) in
      let (probed, held) =
        rehash-IsProbed fuel _ ((j + 1) % order_map_size) m (step-Pending w taken q first)
          (omega (arith, dist-next w.next_in w.end_in (not_end w taken))) in
      (
        rw (taken, e) probed,
        λ k s.
            let step = step-Holds w taken q first k s in
            rw (taken, e) ((λ z. step.0 ((held k s).0 z)), (λ z. (held k s).1 (step.1 z))),
      )
]
  where
    at_end : (t j).occupied ≡ false → dist j m ≡ 0
    at_end open' = elim (ℕ_discrete (dist j m) 0) [
      | yes z ↦ z
      | no more ↦ cc (open', w.ahead j w.next_in (rw dist_self (omega arith)))
    ]
