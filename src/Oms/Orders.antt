-- ===== src/Oms/Orders.antt =====
-- `send_new` of include/nts/oms.h and `on_execution` of src/oms.cpp: new orders against the limits.
use nanosecond_trading_stack.Common.{
  ℕ, ◌+◌, ◌-◌, ◌%◌, ◌&&◌, Bool, ◌≡◌, ◌≤◌, ◌<◌, refl, true, false, none, some, sym, ap, subst, ◌∙◌,
  ◌⊎◌, ==_refl, ltb, leb, ◌==◌, if◌then◌else◌, add32, abs32, ltb_int32, u64_mod, arith, Bool-cases,
  inl, inr,
}
use nanosecond_trading_stack.Double.{Double}
use nanosecond_trading_stack.Oms.Accounting.{in_flight}
use nanosecond_trading_stack.Oms.OrderMap.{map_insert}
use nanosecond_trading_stack.Oms.OrderMap.Lookup.{slot_of-map_insert}
use nanosecond_trading_stack.Oms.OrderMap.Probing.{IsProbed, Absent, map_find-miss}
use nanosecond_trading_stack.Oms.OrderMap.Slots.{HasRoom, slot_of}
use nanosecond_trading_stack.Oms.{
  Oms, ExecutionReport, signed_qty, exposure, check_risk, alloc_slot, send_new, on_execution,
  max_orders, with_order,
}
use nanosecond_trading_stack.Types.{Side, OrderType, sent}

module _ {ℓ} {D : Type ℓ} ⦃d : Double D⦄ where
  -- A report for an id that no element of the map holds changes nothing.
  on_execution-unknown :
      (report : ExecutionReport D) (s : Oms D)
      → Absent s.order_map report.order_id
      → on_execution report s ≡ s
  unfolding on_execution
  on_execution-unknown report s absent = rw (map_find-miss s.order_map report.order_id absent)

  -- Whether a price is too far from the reference price; both the reference price and the limit
  -- count only where they are above 0.
  abbrev is_too_far : D → Oms D → Bool
  is_too_far price s =
      d.lt_d d.zero_d s.ref_price
      && d.lt_d d.zero_d s.risk.max_price_deviation
      && d.lt_d s.risk.max_price_deviation (d.abs_d (d.sub price s.ref_price))

  check_risk_limits :
      (side : Side) (price : D) (qty : ℕ) (s : Oms D)
      → check_risk side price qty s ≡ true
      → (qty ≤ s.risk.max_order_qty)
        × ((s.live_orders + s.pending_new) % u64_mod < s.risk.max_live_orders)
        × (ltb_int32 s.risk.max_position (abs32 (exposure side qty s)) ≡ false)
        × (is_too_far price s ≡ false)
  unfolding check_risk
  check_risk_limits side price qty s h = elim (Bool-cases (ltb s.risk.max_order_qty qty)) [
    | inl e ↦ absurd (cc (rw e at h))
    | inr e ↦
        elim (Bool-cases (leb s.risk.max_live_orders ((s.live_orders + s.pending_new) % u64_mod))) [
          | inl f ↦ absurd (cc (rw (e, f) at h))
          | inr f ↦
              elim (Bool-cases (ltb_int32 s.risk.max_position (abs32 (exposure side qty s)))) [
                | inl g ↦ absurd (cc (rw (e, f, g) at h))
                | inr g ↦ (ground arith, ground arith, g, ground arith)
              ]
        ]
  ]

  pub alloc_slot_keeps :
      (s : Oms D)
      → (top fresh : ℕ) × ((alloc_slot s).1 ≡ record s { free_top = top; next_fresh_slot = fresh })
  unfolding alloc_slot
  alloc_slot_keeps s = elim (Bool-cases (ltb 0 s.free_top)) [
    | inl e ↦ (s.free_top - 1, s.next_fresh_slot, rw e refl)
    | inr e ↦ elim (Bool-cases (ltb s.next_fresh_slot max_orders)) [
      | inl f ↦ (s.free_top, s.next_fresh_slot + 1, rw (e, f) refl)
      | inr f ↦ (s.free_top, s.next_fresh_slot, rw (e, f) refl)
    ]
  ]

  -- What `send_new` gives is no order, or the order in the slot that it took.
  pub send_new_cases :
      (side : Side) (price : D) (qty : ℕ) (type : OrderType) (s : Oms D)
      → ((send_new side price qty type s).0 ≡ none)
        ⊎ ((check_risk side price qty s ≡ true)
            × (leb max_orders (alloc_slot s).0 ≡ false)
            × (send_new side price qty type s ≡ (
              some (alloc_slot s).0,
              with_order side price qty type (alloc_slot s).0 (alloc_slot s).1,
            )))
  unfolding send_new
  send_new_cases side price qty type s = elim (Bool-cases (check_risk side price qty s)) [
    | inr e ↦ inl (rw e refl)
    | inl e ↦ elim (Bool-cases (leb max_orders (alloc_slot s).0)) [
      | inl f ↦ inl (rw (e, f) refl)
      | inr f ↦ inr (e, f, rw (e, f) refl)
    ]
  ]

  -- The order that a successful `send_new` stores, under its new id, in a slot of the array, with no
  -- more in flight and no price further off than the limits allow.
  abbrev pub IsSent : Side → D → ℕ → OrderType → Oms D → ℕ → Oms D → Type ℓ
  IsSent side price qty type s slot s' =
      (slot < max_orders)
      × ((s'.orders slot).id ≡ s.next_id)
      × ((s'.orders slot).status ≡ sent)
      × ((s'.orders slot).leaves_qty ≡ qty)
      × (qty ≤ s.risk.max_order_qty)
      × ((s.live_orders + s.pending_new) % u64_mod < s.risk.max_live_orders)
      × (in_flight s' ≡ add32 (in_flight s) (signed_qty side qty))
      × (ltb_int32 s.risk.max_position (abs32 (in_flight s')) ≡ false)
      × (is_too_far price s ≡ false)
      × ((s'.orders slot).side ≡ side)
      × ((s'.orders slot).price ≡ price)
      × ((s'.orders slot).qty ≡ qty)
      × ((s'.orders slot).filled_qty ≡ 0)
      × ((s'.orders slot).order_type ≡ type)

  with_order-IsSent :
      (side : Side) (price : D) (qty : ℕ) (type : OrderType) (slot top fresh : ℕ) (s : Oms D)
      → check_risk side price qty s ≡ true
      → leb max_orders slot ≡ false
      → IsSent side price qty type s slot (
          with_order side price qty type slot
            (record s { free_top = top; next_fresh_slot = fresh }))
  with_order-IsSent side price qty type slot top fresh s ok free =
      let (small, live, near, close) = check_risk_limits side price qty s ok in
      let same = ==_refl slot in
      let moved : add32 s.position (add32 s.pending_position_delta (signed_qty side qty))
          ≡ exposure side qty s =
        omega arith in
      (
        ground arith,
        rw same refl,
        rw same refl,
        rw same refl,
        small,
        live,
        moved,
        rw moved near,
        close,
        rw same refl,
        rw same refl,
        rw same refl,
        rw same refl,
        rw same refl,
      )

  -- Where `send_new` returns an order, it is one that the limits allow: not too large, not one live
  -- order too many, with all that is in flight no position beyond the limit, and, where there is a
  -- reference price and a limit on the distance to it, no price further off. It stands in a slot of
  -- the array as it was asked for, with its new id, `Sent`, and with its whole quantity open.
  pub send_new-IsSent :
      (side : Side) (price : D) (qty : ℕ) (type : OrderType) (s s' : Oms D) (slot : ℕ)
      → send_new side price qty type s ≡ (some slot, s')
      → IsSent side price qty type s slot s'
  send_new-IsSent side price qty type s s' slot h = elim (send_new_cases side price qty type s) [
    | inl e ↦ absurd (cc (e, h))
    | inr (ok, free, e) ↦
        let (top, fresh, keeps) = alloc_slot_keeps s in
        let sent_now = with_order-IsSent side price qty type (alloc_slot s).0 top fresh s ok free in
        let stored =
          subst
            (λ x.
              IsSent side price qty type s (alloc_slot s).0
                (with_order side price qty type (alloc_slot s).0 x))
            (sym keeps) sent_now in
        let pairs = sym e ∙ h in
        let slots : (alloc_slot s).0 ≡ slot = cc (ap (λ x. x.0) pairs) in
        subst (λ x. IsSent side price qty type s x s') slots
          (subst (IsSent side price qty type s (alloc_slot s).0) (ap (λ x. x.1) pairs) stored)
  ]

  -- Where `send_new` returns an order, the map then gives its slot for its id, and for every other
  -- id what it gave before. The map has room, and its next id is not in it yet.
  pub send_new-slot_of :
      (side : Side) (price : D) (qty : ℕ) (type : OrderType) (s s' : Oms D) (slot : ℕ)
      → IsProbed s.order_map
      → HasRoom s.order_map
      → Absent s.order_map s.next_id
      → send_new side price qty type s ≡ (some slot, s')
      → IsProbed s'.order_map
        × ((k : ℕ)
            → slot_of s'.order_map k
              ≡ (if s.next_id == k then some slot else slot_of s.order_map k))
  send_new-slot_of side price qty type s s' slot v room absent h =
      elim (send_new_cases side price qty type s) [
        | inl e ↦ absurd (cc (e, h))
        | inr (ok, free, e) ↦
            let (top, fresh, keeps) = alloc_slot_keeps s in
            let pairs = sym e ∙ h in
            let slots : (alloc_slot s).0 ≡ slot = cc (ap (λ x. x.0) pairs) in
            let table : map_insert s.order_map s.next_id slot ≡ s'.order_map =
              sym (ap (λ x. map_insert x.order_map x.next_id slot) keeps)
              ∙ (ap (λ x. map_insert (alloc_slot s).1.order_map (alloc_slot s).1.next_id x)
                    (sym slots)
                  ∙ ap (λ x. x.1.order_map) pairs) in
            subst
              (λ t.
                IsProbed t
                × ((k : ℕ)
                    → slot_of t k ≡ (if s.next_id == k then some slot else slot_of s.order_map k)))
              table (slot_of-map_insert s.order_map v s.next_id slot absent room)
      ]
