-- ===== src/Oms/OrderMap/Lookup.antt =====
-- The hash map as a finite map: what `map_insert` and `map_remove` do to every lookup.
use nanosecond_trading_stack.Common.{
  ℕ, ◌≡◌, refl, sym, ap, ◌∙◌, ◌≢◌, ◌↔◌, inl, inr, ◌==◌, if◌then◌else◌, Bool-cases, ==→eq, ==→ne,
  Option, none, some,
}
use nanosecond_trading_stack.Oms.OrderMap.{
  MapEntry, OrderMap, no_orders, map_hash, map_insert, map_remove,
}
use nanosecond_trading_stack.Oms.OrderMap.Probing.{
  IsProbed, FirstFree, map_insert-FirstFree, Absent,
}
use nanosecond_trading_stack.Oms.OrderMap.Inserted.{
  inserted, inserted_old, inserted_new, inserted_cases, inserted-IsProbed,
}
use nanosecond_trading_stack.Oms.OrderMap.Slots.{
  HasRoom, Holds, slot_of, slot_of-Holds, Holds-slot_of,
}
use nanosecond_trading_stack.Oms.OrderMap.Removed.{removed_at}

option_ext : (a b : Option ℕ) → ((s : ℕ) → a ≡ some s ↔ b ≡ some s) → a ≡ b
option_ext none none h = refl
option_ext none (some s) h = cc ((h s).1 refl)
option_ext (some s) none h = cc ((h s).0 refl)
option_ext (some s) (some r) h = sym ((h s).0 refl)

module _ (t : OrderMap) (v : IsProbed t) (id slot : ℕ) (absent : Absent t id)
    (room : HasRoom t) where
  -- In a map that is probed, has room and does not hold the id, an insertion puts the slot under the
  -- id, leaves every other lookup as it was, and leaves the map probed.
  pub slot_of-map_insert :
      IsProbed (map_insert t id slot)
      × ((k : ℕ) → slot_of (map_insert t id slot) k ≡ (if id == k then some slot else slot_of t k))
  slot_of-map_insert =
      let (f, hf, free) = room in
      let (q, first, e) = map_insert-FirstFree t id slot f hf free in
      let probed = inserted-IsProbed t id slot q first absent v in
      (
        rw e probed,
        λ k. rw e (elim (Bool-cases (id == k)) [
          | inl same ↦ rw same (
              slot_of-Holds (inserted t id slot q first) probed k slot (
                q,
                first.inside,
                rw (inserted_new t id slot q first) refl,
                rw (inserted_new t id slot q first) (==→eq id k same),
                rw (inserted_new t id slot q first) refl,
              ))
          | inr other ↦ rw other (
              option_ext _ _ (λ s. (
                (λ h. slot_of-Holds t v k s (
                    back q first k s (==→ne id k other)
                      (Holds-slot_of (inserted t id slot q first) probed k s h))),
                (λ h.
                    slot_of-Holds (inserted t id slot q first) probed k s
                      (forth q first k s (Holds-slot_of t v k s h))),
              )))
        ]),
      )
    where
      back :
          (q : ℕ) (first : FirstFree t (map_hash id) q) (k s : ℕ)
          → id ≢ k
          → Holds (inserted t id slot q first) k s
          → Holds t k s
      back q first k s ne (p, hp, op, e, f) = elim (inserted_cases t id slot q first p op) [
        | inl at ↦ absurd (
            ne (
              sym (
                ap (λ (x : MapEntry). x.id)
                  (ap (inserted t id slot q first) at ∙ inserted_new t id slot q first))
              ∙ e))
        | inr (_, tp) ↦
            let same = (inserted_old t id slot q first p tp).1 in
            (p, hp, tp, rw same at e, rw same at f)
      ]

      forth :
          (q : ℕ) (first : FirstFree t (map_hash id) q) (k s : ℕ)
          → Holds t k s
          → Holds (inserted t id slot q first) k s
      forth q first k s (p, hp, op, e, f) =
          let same = (inserted_old t id slot q first p op).1 in
          (p, hp, rw same op, rw same e, rw same f)

-- In a map that is probed and has room, a removal takes the id out, leaves every other lookup as it
-- was, and leaves the map probed.
pub slot_of-map_remove :
    (t : OrderMap) (id : ℕ)
    → IsProbed t
    → HasRoom t
    → IsProbed (map_remove t id)
      × ((k : ℕ) → slot_of (map_remove t id) k ≡ (if id == k then none else slot_of t k))
slot_of-map_remove t id v room =
    let (probed, held) = removed_at t id v room in
    (
      probed,
      λ k. elim (Bool-cases (id == k)) [
        | inl same ↦ rw same (
            option_ext _ _ (λ s. (
              (λ h.
                  absurd (((held k s).0 (Holds-slot_of _ probed k s h)).1 (sym (==→eq id k same)))),
              (λ h. cc),
            )))
        | inr other ↦ rw other (
            option_ext _ _ (λ s. (
              (λ h. slot_of-Holds t v k s ((held k s).0 (Holds-slot_of _ probed k s h)).0),
              (λ h.
                  slot_of-Holds _ probed k s
                    ((held k s).1 (Holds-slot_of t v k s h, (λ z. ==→ne id k other (sym z))))),
            )))
      ],
    )

-- The empty array satisfies the invariant of probing.
pub no_orders-IsProbed : IsProbed no_orders
no_orders-IsProbed = record { path = λ p hp op. cc; unique = λ p q hp hq op oq e. cc }
