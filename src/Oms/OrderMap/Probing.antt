-- ===== src/Oms/OrderMap/Probing.antt =====
-- The invariant of linear probing, and what `map_find` and `map_insert` do under it.
use nanosecond_trading_stack.Common.{
  ℕ, zero, suc, ◌+◌, ◌%◌, ◌≤◌, ◌<◌, ◌≡◌, refl, sym, ap, ◌∙◌, ◌≢◌, ◌⊎◌, inl, inr, true, false, arith,
  ◌==◌, Bool-cases, ==→eq, ==→ne, ℕ_discrete,
}
use nanosecond_trading_stack.Oms.OrderMap.{
  order_map_size, MapEntry, OrderMap, update, map_hash, insert_from, map_insert, find_from,
  map_find,
}
use nanosecond_trading_stack.Oms.OrderMap.Ring.{dist, map_hash-lt, dist-lt, eq_of_dist, dist-probe}

abbrev pub Occupied : OrderMap → ℕ → Type 0
Occupied t p = (t p).occupied ≡ true

-- Every element from the hash of an entry up to the entry is occupied.
abbrev pub HasPath : OrderMap → ℕ → Type 0
HasPath t p =
    (c : ℕ)
    → c < order_map_size
    → dist (map_hash (t p).id) c ≤ dist (map_hash (t p).id) p
    → Occupied t c

-- No id stands in two elements.
abbrev pub HasUniqueIds : OrderMap → Type 0
HasUniqueIds t =
    (p q : ℕ)
    → p < order_map_size
    → q < order_map_size
    → Occupied t p
    → Occupied t q
    → (t p).id ≡ (t q).id
    → p ≡ q

pub record IsProbed (t : OrderMap) : Type 0 where
  pub path : (p : ℕ) → p < order_map_size → Occupied t p → HasPath t p
  pub unique : HasUniqueIds t

-- The place at which an insertion that begins at `idx` ends: the first element that is free.
pub record FirstFree (t : OrderMap) (idx q : ℕ) : Type 0 where
  pub inside : q < order_map_size
  pub free : (t q).occupied ≡ false
  pub before : (c : ℕ) → c < order_map_size → dist idx c < dist idx q → Occupied t c

module _ (t : OrderMap) (idx : ℕ) (idx-lt : idx < order_map_size) where
  -- Some element is free, so a free one is found, and the entry is written there.
  insert_from-FirstFree :
      (n i id slot f : ℕ)
      → n + i ≡ order_map_size
      → f < order_map_size
      → (t f).occupied ≡ false
      → ((c : ℕ) → c < order_map_size → dist idx c < i → Occupied t c)
      → (q : ℕ) × FirstFree t idx q
        × (insert_from n t idx i id slot
            ≡ update t q (record { id = id; slot = slot; occupied = true }))
  unfolding insert_from
  insert_from-FirstFree zero i id slot f e hf free seen =
      let clash = seen f hf (omega (arith, dist-lt idx-lt hf)) in absurd (ground arith)
  insert_from-FirstFree (suc n) i id slot f e hf free seen =
      let pos : ℕ = (idx + i) % order_map_size in
      let at = dist-probe idx i idx-lt (omega arith) in
      elim (Bool-cases (t pos).occupied) [
        | inl taken ↦ rw taken (
            insert_from-FirstFree n (i + 1) id slot f (omega arith) hf free (λ c hc lt.
              elim (ℕ_discrete (dist idx c) i) [
                | yes same ↦
                    let here = eq_of_dist idx-lt hc {c = pos} (omega arith) (same ∙ sym at) in
                    rw here taken
                | no other ↦ seen c hc (omega arith)
              ]))
        | inr open' ↦ (
          pos,
          record {
            inside = omega arith;
            free = open';
            before = λ c hc lt. seen c hc (omega arith);
          },
          rw open',
        )
      ]

  pub first_free :
      (f : ℕ) → f < order_map_size → (t f).occupied ≡ false → (q : ℕ) × FirstFree t idx q
  first_free f hf free =
      let (q, first, _) =
        insert_from-FirstFree order_map_size 0 0 0 f (omega arith) hf free
          (λ c hc lt. absurd (omega arith)) in
      (q, first)

abbrev pub entry : ℕ → ℕ → MapEntry
entry id slot = record { id = id; slot = slot; occupied = true }

pub map_insert-FirstFree :
    (t : OrderMap) (id slot f : ℕ)
    → f < order_map_size
    → (t f).occupied ≡ false
    → (q : ℕ) × FirstFree t (map_hash id) q × (map_insert t id slot ≡ update t q (entry id slot))
unfolding map_insert
map_insert-FirstFree t id slot f hf free =
    insert_from-FirstFree t (map_hash id) (map_hash-lt id) order_map_size 0 id slot f (omega arith)
      hf free (λ c hc lt. absurd (omega arith))

module _ (t : OrderMap) (id : ℕ) where
  -- The search finds the entry of an id that has one with a full path.
  find_from-hit :
      (n i p : ℕ)
      → n + i ≡ order_map_size
      → p < order_map_size
      → (t p).id ≡ id
      → i ≤ dist (map_hash id) p
      → HasPath t p
      → ((c : ℕ) → c < order_map_size → Occupied t c → (t c).id ≡ id → c ≡ p)
      → find_from n t (map_hash id) i id ≡ p
  unfolding find_from
  find_from-hit zero i p e hp same le path only =
      absurd (omega (arith, dist-lt (map_hash-lt id) hp))
  find_from-hit (suc n) i p e hp same le path only =
      let pos : ℕ = (map_hash id + i) % order_map_size in
      let lt = dist-lt (map_hash-lt id) hp in
      let at : dist (map_hash id) pos ≡ i =
        dist-probe (map_hash id) i (map_hash-lt id) (omega arith) in
      let taken : Occupied t pos = path pos (omega arith) (rw same (omega arith)) in
      elim (Bool-cases ((t pos).id == id)) [
        | inl hit ↦ rw (taken, hit) (only pos (omega arith) taken (==→eq _ _ hit))
        | inr miss ↦
            let apart : pos ≢ p = λ z. ==→ne _ _ miss (ap (λ x. (t x).id) z ∙ same) in
            let further : i ≢ dist (map_hash id) p =
              λ z. apart (eq_of_dist (map_hash-lt id) (omega arith) hp (at ∙ z)) in
            rw (taken, miss)
              (find_from-hit n (i + 1) p (omega arith) hp same (omega arith) path only)
      ]

  -- What the search returns inside the array is an occupied element with the id.
  find_from_sound :
      (n i : ℕ)
      → let p = find_from n t (map_hash id) i id in
        (p ≡ order_map_size) ⊎ ((p < order_map_size) × Occupied t p × ((t p).id ≡ id))
  unfolding find_from
  find_from_sound zero i = inl refl
  find_from_sound (suc n) i =
      let pos : ℕ = (map_hash id + i) % order_map_size in
      elim (Bool-cases (t pos).occupied) [
        | inr open' ↦ rw open' (inl refl)
        | inl taken ↦ elim (Bool-cases ((t pos).id == id)) [
          | inl hit ↦ rw (taken, hit) (inr (omega arith, taken, ==→eq _ _ hit))
          | inr miss ↦ rw (taken, miss) (find_from_sound n (i + 1))
        ]
      ]

  pub map_find_sound :
      let p = map_find t id in
      (p ≡ order_map_size) ⊎ ((p < order_map_size) × Occupied t p × ((t p).id ≡ id))
  unfolding map_find
  map_find_sound = find_from_sound order_map_size 0

-- Under the invariant the search finds exactly the element that holds the id.
pub map_find-hit :
    (t : OrderMap) (p : ℕ)
    → IsProbed t
    → p < order_map_size
    → Occupied t p
    → map_find t (t p).id ≡ p
unfolding map_find
map_find-hit t p v hp taken =
    find_from-hit t (t p).id order_map_size 0 p (omega arith) hp refl (omega arith)
      (v.path p hp taken) (λ c hc oc same. v.unique c p hc hp oc taken same)

abbrev pub Absent : OrderMap → ℕ → Type 0
Absent t id = (p : ℕ) → p < order_map_size → Occupied t p → (t p).id ≢ id

pub map_find-miss : (t : OrderMap) (id : ℕ) → Absent t id → map_find t id ≡ order_map_size
map_find-miss t id absent = elim (map_find_sound t id) [
  | inl e ↦ e
  | inr (lt, oc, same) ↦ absurd (absent _ lt oc same)
]
