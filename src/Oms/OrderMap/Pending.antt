-- ===== src/Oms/OrderMap/Pending.antt =====
-- The loop of `map_remove` that rehashes the entries behind a removed one: what holds before each
-- of its rounds.
use nanosecond_trading_stack.Common.{
  ℕ, ◌≤◌, ◌<◌, ◌≡◌, sym, ap, ◌∙◌, ◌≢◌, inl, inr, false, arith, ◌==◌, Bool-cases, ==→ne, ne→==,
  ==_refl, dec_le,
}
use nanosecond_trading_stack.Oms.OrderMap.{order_map_size, MapEntry, OrderMap, clear, map_hash}
use nanosecond_trading_stack.Oms.OrderMap.Probing.{Occupied, HasPath, HasUniqueIds}
use nanosecond_trading_stack.Oms.OrderMap.Ring.{dist, dist_split}

-- `j` is the next element of the loop, and `m` the free element at which it will end.
pub record Pending (t : OrderMap) (j m : ℕ) : Type 0 where
  pub next_in : j < order_map_size
  pub end_in : m < order_map_size
  pub end_free : (t m).occupied ≡ false
  pub ahead : (c : ℕ) → c < order_map_size → dist j c < dist j m → Occupied t c
  pub settled : (p : ℕ) → p < order_map_size → Occupied t p → dist j m ≤ dist j p → HasPath t p
  pub short :
      (p : ℕ)
      → p < order_map_size
      → dist j p < dist j m
      → dist (map_hash (t p).id) p < dist (map_hash (t p).id) m
  pub unique : HasUniqueIds t

module _ (t : OrderMap) (j : ℕ) where
  pub cleared_ne : (c : ℕ) → c ≢ j → clear t j c ≡ t c
  cleared_ne c h = rw (ne→== c j h)

  pub cleared_free : (clear t j j).occupied ≡ false
  cleared_free = rw (==_refl j)

  pub cleared_old : (c : ℕ) → Occupied (clear t j) c → (c ≢ j) × Occupied t c
  cleared_old c oc = elim (Bool-cases (c == j)) [
    | inl e ↦ cc (rw e at oc)
    | inr e ↦ (==→ne c j e, rw e at oc)
  ]

  pub cleared-HasUniqueIds : HasUniqueIds t → HasUniqueIds (clear t j)
  cleared-HasUniqueIds unique a b ha hb oa ob same =
      let (na, ta) = cleared_old a oa in
      let (nb, tb) = cleared_old b ob in
      unique a b ha hb ta tb (
        ap (λ (e : MapEntry). e.id) (sym (cleared_ne a na))
        ∙ same
        ∙ ap (λ (e : MapEntry). e.id) (cleared_ne b nb))

-- An element that comes before `j` on a path which goes on beyond the pending ones has the end of
-- the loop on its path.
pub passes_end :
    (h j m p : ℕ)
    → h < order_map_size
    → j < order_map_size
    → m < order_map_size
    → p < order_map_size
    → dist h j ≤ dist h p
    → dist j m ≤ dist j p
    → dist h m ≤ dist h p
passes_end h j m p hh hj hm hp le far = elim (dec_le (dist h j) (dist h m)) [
  | yes near ↦ omega (arith, dist_split hh hj hp le, dist_split hh hj hm near)
  | no before ↦ omega arith
]
