-- ===== src/Oms/OrderMap/Inserted.antt =====
-- An insertion into the map of src/oms.cpp under the invariant of probing.
use nanosecond_trading_stack.Common.{
  ℕ, ◌≤◌, ◌≡◌, refl, sym, ap, ◌∙◌, ◌≢◌, ◌⊎◌, inl, inr, arith, ◌==◌, Bool-cases, ==→eq, ==→ne, ne→==,
  ==_refl, ℕ_discrete,
}
use nanosecond_trading_stack.Oms.OrderMap.{MapEntry, OrderMap, update, map_hash}
use nanosecond_trading_stack.Oms.OrderMap.Ring.{dist, map_hash-lt, eq_of_dist}
use nanosecond_trading_stack.Oms.OrderMap.Probing.{
  Occupied, HasPath, HasUniqueIds, IsProbed, FirstFree, entry, Absent,
}

-- An entry for an id that has none keeps the invariant.
module _ (t : OrderMap) (id slot q : ℕ) (first : FirstFree t (map_hash id) q) where
  abbrev pub inserted : OrderMap
  inserted = update t q (entry id slot)

  pub inserted_old : (c : ℕ) → Occupied t c → (c ≢ q) × (inserted c ≡ t c)
  inserted_old c oc =
      let apart : c ≢ q = λ z. cc (first.free, rw z at oc) in (apart, rw (ne→== c q apart))

  pub inserted_new : inserted q ≡ entry id slot
  inserted_new = rw (==_refl q)

  pub inserted_cases : (c : ℕ) → Occupied inserted c → (c ≡ q) ⊎ ((c ≢ q) × Occupied t c)
  inserted_cases c oc = elim (Bool-cases (c == q)) [
    | inl e ↦ inl (==→eq c q e)
    | inr e ↦ inr (==→ne c q e, rw e at oc)
  ]

  pub inserted-Occupied : (c : ℕ) → Occupied t c → Occupied inserted c
  inserted-Occupied c oc = rw (inserted_old c oc).1 oc

  pub inserted-HasPath_new : HasPath inserted q
  inserted-HasPath_new c hc le =
      let near : dist (map_hash id) c ≤ dist (map_hash id) q = rw inserted_new at le in
      elim (ℕ_discrete (dist (map_hash id) c) (dist (map_hash id) q)) [
        | yes same ↦
            let here : c ≡ q = eq_of_dist (map_hash-lt id) hc first.inside same in
            rw (here, inserted_new) refl
        | no other ↦ inserted-Occupied c (first.before c hc (omega arith))
      ]

  pub inserted-HasPath_old : (p : ℕ) → Occupied t p → HasPath t p → HasPath inserted p
  inserted-HasPath_old p op path c hc le =
      inserted-Occupied c (path c hc (rw (inserted_old p op).1 at le))

  pub inserted-HasUniqueIds : Absent t id → HasUniqueIds t → HasUniqueIds inserted
  inserted-HasUniqueIds absent unique a b ha hb oa ob same = elim (inserted_cases a oa) [
    | inl a=q ↦ elim (inserted_cases b ob) [
      | inl b=q ↦ a=q ∙ sym b=q
      | inr (_, tb) ↦ absurd (
          absent b hb tb (
            sym (
              ap (λ (e : MapEntry). e.id) (sym inserted_new ∙ ap inserted (sym a=q))
              ∙ same
              ∙ ap (λ (e : MapEntry). e.id) (inserted_old b tb).1)))
    ]
    | inr (_, ta) ↦ elim (inserted_cases b ob) [
      | inl b=q ↦ absurd (
          absent a ha ta (
            ap (λ (e : MapEntry). e.id) (sym (inserted_old a ta).1)
            ∙ same
            ∙ ap (λ (e : MapEntry). e.id) (ap inserted b=q ∙ inserted_new)))
      | inr (_, tb) ↦ unique a b ha hb ta tb (
          ap (λ (e : MapEntry). e.id) (sym (inserted_old a ta).1)
          ∙ same
          ∙ ap (λ (e : MapEntry). e.id) (inserted_old b tb).1)
    ]
  ]

  pub inserted-IsProbed : Absent t id → IsProbed t → IsProbed inserted
  inserted-IsProbed absent v = record {
    path = λ p hp op. elim (inserted_cases p op) [
      | inl e ↦ rw e inserted-HasPath_new
      | inr (_, tp) ↦ inserted-HasPath_old p tp (v.path p hp tp)
    ];
    unique = inserted-HasUniqueIds absent v.unique;
  }
