-- ===== src/Oms/OrderMap/Slots.antt =====
-- The slots that the map of src/oms.cpp gives for ids.
use nanosecond_trading_stack.Common.{
  ℕ, ◌<◌, ◌≡◌, inl, inr, true, false, arith, if◌then◌else◌, Option, none, some, ltb, leb, lt→ltb,
}
use nanosecond_trading_stack.Oms.OrderMap.{order_map_size, OrderMap, map_find}
use nanosecond_trading_stack.Oms.OrderMap.Probing.{Occupied, IsProbed, map_find_sound, map_find-hit}

-- Some element is free.
abbrev pub HasRoom : OrderMap → Type 0
HasRoom t = (f : ℕ) × (f < order_map_size) × ((t f).occupied ≡ false)

-- The array holds the slot `s` for the id `k`.
abbrev pub Holds : OrderMap → ℕ → ℕ → Type 0
Holds t k s = (p : ℕ) × (p < order_map_size) × Occupied t p × ((t p).id ≡ k) × ((t p).slot ≡ s)

-- The slot that the code finds for an id: `order_map_[map_find(id)].slot`.
pub slot_of : OrderMap → ℕ → Option ℕ
slot_of t k = let p = map_find t k in if ltb p order_map_size then some (t p).slot else none

module _ (t : OrderMap) (v : IsProbed t) (k s : ℕ) where
  pub slot_of-Holds : Holds t k s → slot_of t k ≡ some s
  unfolding slot_of
  slot_of-Holds (p, hp, op, id, slot) =
      let at : map_find t k ≡ p = rw id at (map_find-hit t p v hp op) in
      rw (at, slot_of) (rw (lt→ltb p order_map_size hp, slot))

  pub Holds-slot_of : slot_of t k ≡ some s → Holds t k s
  unfolding slot_of
  Holds-slot_of e = elim (map_find_sound t k) [
    | inl z ↦ ground arith
    | inr (lt, op, id) ↦ (map_find t k, lt, op, id, ground arith)
  ]

-- Where the search ends inside the array, it ends at the slot of the id.
pub slot_of_found :
    (t : OrderMap) (k : ℕ)
    → leb order_map_size (map_find t k) ≡ false
    → slot_of t k ≡ some (t (map_find t k)).slot
unfolding slot_of
slot_of_found t k e = rw (lt→ltb (map_find t k) order_map_size (ground arith))

-- Where the map gives a slot, the search ends inside the array, at that slot.
pub slot_of_inside :
    (t : OrderMap) (k s : ℕ)
    → slot_of t k ≡ some s
    → (leb order_map_size (map_find t k) ≡ false) × ((t (map_find t k)).slot ≡ s)
unfolding slot_of
slot_of_inside t k s e = (ground arith, ground arith)

-- Where the map gives no slot, the search ends outside the array.
pub slot_of-none :
    (t : OrderMap) (k : ℕ) → slot_of t k ≡ none → leb order_map_size (map_find t k) ≡ true
unfolding slot_of
slot_of-none t k e = ground arith
