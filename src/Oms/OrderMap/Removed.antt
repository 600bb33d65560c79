-- ===== src/Oms/OrderMap/Removed.antt =====
-- src/oms.cpp: `map_remove` ends with a map that is probed and holds the other ids.
use nanosecond_trading_stack.Common.{
  ℕ, suc, ◌+◌, ◌%◌, ◌≤◌, ◌<◌, ◌≡◌, sym, ap, ◌∙◌, ◌≢◌, ◌↔◌, inl, inr, false, arith, dec_le, lt→ltb,
}
use nanosecond_trading_stack.Oms.OrderMap.{
  order_map_size, MapEntry, OrderMap, clear, map_hash, map_find, rehash, map_remove,
}
use nanosecond_trading_stack.Oms.OrderMap.Probing.{
  Occupied, HasPath, IsProbed, FirstFree, first_free, map_find_sound, map_find-hit,
}
use nanosecond_trading_stack.Oms.OrderMap.Slots.{HasRoom, Holds}
use nanosecond_trading_stack.Oms.OrderMap.Pending.{
  Pending, cleared_ne, cleared_free, cleared_old, passes_end, cleared-HasUniqueIds,
}
use nanosecond_trading_stack.Oms.OrderMap.Removal.{rehash-IsProbed}
use nanosecond_trading_stack.Oms.OrderMap.Ring.{
  dist, map_hash-lt, dist-lt, dist-next, dist-next_self,
}

module _ (t : OrderMap) (v : IsProbed t) (pos : ℕ) (hp : pos < order_map_size) where
  abbrev next : ℕ
  next = (pos + 1) % order_map_size

  module _ (m : ℕ) (first : FirstFree (clear t pos) next m) (apart : m ≢ pos) where
    m-free : (t m).occupied ≡ false
    m-free = rw (cleared_ne t pos m apart) at first.free

    m-dist : dist pos m ≡ suc (dist next m)
    m-dist = dist-next hp first.inside (λ e. apart (sym e))

    -- A path that goes beyond the end does not come through the removed element.
    cleared-HasPath :
        (p : ℕ)
        → p < order_map_size
        → Occupied (clear t pos) p
        → dist next m ≤ dist next p
        → HasPath (clear t pos) p
    cleared-HasPath p hp' op far c hc le =
        let (p-apart, tp) = cleared_old t pos p op in
        let key = ap (λ (e : MapEntry). map_hash e.id) (cleared_ne t pos p p-apart) in
        let path : HasPath t p = v.path p hp' tp in
        let near : dist (map_hash (t p).id) c ≤ dist (map_hash (t p).id) p = rw key at le in
        let beyond : dist pos m ≤ dist pos p =
          omega (arith, m-dist, dist-next hp hp' (λ e. p-apart (sym e))) in
        let c-apart : c ≢ pos = λ e. cc (
          m-free,
          path m first.inside (
              passes_end (map_hash (t p).id) pos m p (map_hash-lt (t p).id) hp first.inside hp'
                (rw e at near) beyond),
        ) in
        rw (cleared_ne t pos c c-apart) (path c hc near)

    cleared-short :
        (p : ℕ)
        → p < order_map_size
        → dist next p < dist next m
        → dist (map_hash (clear t pos p).id) p < dist (map_hash (clear t pos p).id) m
    cleared-short p hp' lt =
        let (p-apart, tp) = cleared_old t pos p (first.before p hp' lt) in
        let h : ℕ = map_hash (t p).id in
        rw (cleared_ne t pos p p-apart) (elim (dec_le (dist h m) (dist h p)) [
          | yes le ↦ cc (m-free, v.path p hp' tp m first.inside le)
          | no gt ↦ omega arith
        ])

    cleared-Pending : Pending (clear t pos) next m
    cleared-Pending = record {
      next_in = omega arith;
      end_in = first.inside;
      end_free = first.free;
      ahead = first.before;
      settled = cleared-HasPath;
      short = cleared-short;
      unique = cleared-HasUniqueIds t pos v.unique;
    }

  -- With another element free, the loop has an end, which is not the removed element.
  removal-Pending : Occupied t pos → HasRoom t → (m : ℕ) × Pending (clear t pos) next m
  removal-Pending taken (f, hf, free) =
      let (m, first) = first_free (clear t pos) next (omega arith) pos hp (cleared_free t pos) in
      let f-apart : f ≢ pos = λ e. cc (free, rw (sym e) at taken) in
      let f-free : (clear t pos f).occupied ≡ false = rw (cleared_ne t pos f f-apart) free in
      let apart : m ≢ pos = λ e. elim (dec_le (dist next m) (dist next f)) [
        | yes le ↦ absurd (
            omega (
              arith,
              ap (dist next) e,
              dist-next_self pos hp,
              dist-next hp hf (λ z. f-apart (sym z)),
              dist-lt hp hf,
            ))
        | no gt ↦ cc (f-free, first.before f hf (omega arith))
      ] in
      (m, cleared-Pending m first apart)

  cleared-Holds :
      Occupied t pos → (k s : ℕ) → Holds (clear t pos) k s ↔ (Holds t k s × (k ≢ (t pos).id))
  cleared-Holds taken k s = (back, forth)
    where
      back : Holds (clear t pos) k s → Holds t k s × (k ≢ (t pos).id)
      back (p, hp', op, e, f) =
          let (apart, tp) = cleared_old t pos p op in
          let same = cleared_ne t pos p apart in
          let id : (t p).id ≡ k = rw same at e in
          ((p, hp', tp, id, rw same at f), (λ z. apart (v.unique p pos hp' hp tp taken (id ∙ z))))

      forth : Holds t k s × (k ≢ (t pos).id) → Holds (clear t pos) k s
      forth ((p, hp', op, e, f), ne) =
          let apart : p ≢ pos = λ z. ne (sym e ∙ ap (λ x. (t x).id) z) in
          let same = cleared_ne t pos p apart in (p, hp', rw same op, rw same e, rw same f)

map_remove-miss : (t : OrderMap) (id : ℕ) → map_find t id ≡ order_map_size → map_remove t id ≡ t
unfolding map_remove
map_remove-miss t id e = rw (e, map_remove)

map_remove-hit :
    (t : OrderMap) (id : ℕ)
    → map_find t id < order_map_size
    → let pos = map_find t id in
      map_remove t id ≡ rehash order_map_size (clear t pos) ((pos + 1) % order_map_size)
unfolding map_remove
map_remove-hit t id lt = rw (lt→ltb (map_find t id) order_map_size lt)

-- The removal of an id, with the rehashing behind it, and the elements that are left.
pub removed_at :
    (t : OrderMap) (id : ℕ)
    → IsProbed t
    → HasRoom t
    → IsProbed (map_remove t id)
      × ((k s : ℕ) → Holds (map_remove t id) k s ↔ (Holds t k s × (k ≢ id)))
removed_at t id v room = elim (map_find_sound t id) [
  | inl miss ↦
      rw (map_remove-miss t id miss) (v, (λ k s. ((λ h. (h, not_held miss k s h)), (λ z. z.0))))
  | inr (lt, taken, same) ↦
      let pos = map_find t id in
      let (m, pending) = removal-Pending t v pos lt taken room in
      let (probed, held) =
        rehash-IsProbed order_map_size (clear t pos) ((pos + 1) % order_map_size) m pending
          (dist-lt pending.next_in pending.end_in) in
      rw (map_remove-hit t id lt) (
        probed,
        (λ k s. (
          (λ h.
              let (old, ne) = (cleared-Holds t v pos lt taken k s).0 ((held k s).0 h) in
              (old, (λ z. ne (z ∙ sym same)))),
          (λ h. (held k s).1 ((cleared-Holds t v pos lt taken k s).1 (h.0, (λ z. h.1 (z ∙ same))))),
        )),
      )
]
  where
    not_held : map_find t id ≡ order_map_size → (k s : ℕ) → Holds t k s → k ≢ id
    not_held miss k s (p, hp, op, e, f) z =
        let at = map_find-hit t p v hp op in
        absurd (omega (arith, sym (ap (map_find t) (e ∙ z)) ∙ at))
