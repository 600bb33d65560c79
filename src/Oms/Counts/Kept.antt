-- ===== src/Oms/Counts/Kept.antt =====
-- src/oms.cpp: the numbers of waiting and of live orders under every operation.
use nanosecond_trading_stack.Oms.Counts.Tallied.{
  waits, lives, fill_counters, IsTallied, IsTallied-same, tallied_bound, revised-IsTallied,
  released-IsTallied,
}
use nanosecond_trading_stack.Common.{
  ℕ, ◌+◌, ◌≤◌, ◌<◌, ◌≡◌, refl, sym, ap, subst, Bool, true, false, ◌||◌, some, ◌==◌, if◌then◌else◌,
  leb, u64_mod, arith, Bool-cases, inl, inr,
}
use nanosecond_trading_stack.Double.{Double}
use nanosecond_trading_stack.Oms.Counts.{freed-weight, placed-weight}
use nanosecond_trading_stack.Oms.OrderMap.Slots.{slot_of, slot_of_found}
use nanosecond_trading_stack.Oms.OrderMap.{order_map_size, map_find}
use nanosecond_trading_stack.Oms.Orders.{alloc_slot_keeps}
use nanosecond_trading_stack.Oms.Ownership.Handlers.{give_back, settle_side-core}
use nanosecond_trading_stack.Oms.Ownership.Placed.{alloc_slot-IsTaken, alloc_slot-next_id}
use nanosecond_trading_stack.Oms.Ownership.{core, IsOwned}
use nanosecond_trading_stack.Oms.{
  Oms, Order, ExecutionReport, inc, dec_pos, send_new, check_risk, alloc_slot, max_orders,
  settle_fill, filled_order, apply_trading_fill, free_slot, on_new_ack, on_fill, on_cancel_ack,
  on_reject, execute, on_execution,
}
use nanosecond_trading_stack.Types.{
  Side, buy, sell, OrderType, OrderStatus, is_sent, ExecType, new_ack, fill, partial_fill,
  cancel_ack, reject, cancel_reject, other_code,
}

-- What the counters rely on: an order is cancelled once it has had its first report, and rejected
-- only by its first report.
abbrev pub Suits : ExecType → OrderStatus → Type 0
Suits cancel_ack status = is_sent status ≡ false
Suits reject status = is_sent status ≡ true
Suits _ status = Unit

-- A handler's counters, before and after.
abbrev pub Tallies {ℓ} : {D : Type ℓ} → Oms D → Type ℓ
Tallies s = IsTallied (core s) s.pending_new s.live_orders

module _ {ℓ} {D : Type ℓ} ⦃d : Double D⦄ where
  settle_side-counters :
      (side : Side) (is_fill : Bool) (fq : ℕ) (price : D) (slot : ℕ) (o : Order D) (s : Oms D)
      → let s' = settle_fill is_fill fq price slot (record o { side = side }) s in
        (s'.pending_new ≡ (if is_sent o.status then dec_pos s.pending_new else s.pending_new))
        × (s'.live_orders ≡ (if is_sent o.status then inc s.live_orders else s.live_orders))
  unfolding settle_fill apply_trading_fill
  settle_side-counters buy is_fill fq price slot o s = elim (Bool-cases (is_sent o.status)) [
    | inl e ↦ rw e (refl, refl)
    | inr e ↦ rw e (refl, refl)
  ]
  settle_side-counters sell is_fill fq price slot o s = elim (Bool-cases (is_sent o.status)) [
    | inl e ↦ rw e (refl, refl)
    | inr e ↦ rw e (refl, refl)
  ]

  module _ (id slot : ℕ) (s : Oms D) (v : IsOwned (core s))
      (held : slot_of s.order_map id ≡ some slot) (q : Tallies s)
      (room : s.next_id + 1 < u64_mod) where
    abbrev order : Order D
    order = s.orders slot

    enough : (waits order ≤ s.pending_new) × (lives order ≤ s.live_orders)
    enough = (
      omega (arith, q.waiting, freed-weight waits (core s) v id slot held order),
      omega (arith, q.living, freed-weight lives (core s) v id slot held order),
    )

    small : s.live_orders + 1 < u64_mod
    small = omega (arith, (tallied_bound (core s) s.pending_new s.live_orders q).1)

    counters :
        let sent = is_sent order.status in
        let p' = if sent then dec_pos s.pending_new else s.pending_new in
        let l' = if sent then inc s.live_orders else s.live_orders in
        (p' + waits order ≡ s.pending_new)
        × (l' + lives order ≡ s.live_orders + 1)
        × (dec_pos l' + lives order ≡ s.live_orders)
    counters =
        fill_counters (is_sent order.status) s.pending_new s.live_orders enough.0 enough.1 small

    as_waiting : is_sent order.status ≡ true → (waits order ≡ 1) × (lives order ≡ 0)
    as_waiting e = rw e (refl, refl)

    as_live : is_sent order.status ≡ false → (waits order ≡ 0) × (lives order ≡ 1)
    as_live e = rw e (refl, refl)

    on_new_ack-IsTallied : Tallies (on_new_ack slot s)
    unfolding on_new_ack
    on_new_ack-IsTallied = elim (Bool-cases (is_sent order.status)) [
      | inl e ↦
          let (one, none_left) = as_waiting e in
          rw e (
            revised-IsTallied (core s) v id slot held s.pending_new s.live_orders q _ _ _
              (ground (arith, one, enough)) (ground (arith, none_left, small)))
      | inr e ↦ rw e q
    ]

    -- An order that has had its first report is cancelled, and one that waits for it is rejected.
    on_cancel_ack-IsTallied : is_sent order.status ≡ false → Tallies (on_cancel_ack slot s)
    unfolding on_cancel_ack free_slot
    on_cancel_ack-IsTallied e =
        let (none_left, one) = as_live e in
        released-IsTallied (core s) v id slot held s.pending_new s.live_orders q _ _ _ order.id
          (v.own_id id slot held) (omega (arith, none_left)) (ground (arith, one, enough))

    on_reject-IsTallied : is_sent order.status ≡ true → Tallies (on_reject slot s)
    unfolding on_reject free_slot
    on_reject-IsTallied e =
        let (one, none_left) = as_waiting e in
        released-IsTallied (core s) v id slot held s.pending_new s.live_orders q _ _ _ order.id
          (v.own_id id slot held) (ground (arith, e, one, enough)) (omega (arith, none_left))

    on_fill-IsTallied :
        (is_fill : Bool) (fq : ℕ) (price : D) → Tallies (on_fill is_fill fq price slot s)
    unfolding on_fill free_slot
    on_fill-IsTallied is_fill fq price =
        let settled = settle_side-core order.side is_fill fq price slot order s in
        let (pn, lv) = settle_side-counters order.side is_fill fq price slot order s in
        let x = settle_fill is_fill fq price slot order s in
        let (pending, live, ended) = counters in
        let o' = filled_order is_fill fq price order in
        rw (v.is_open id slot held) (elim (Bool-cases (is_fill || (o'.leaves_qty == 0))) [
          | inl e ↦
              let done =
                released-IsTallied (core s) v id slot held s.pending_new s.live_orders q o' _ _
                  order.id (v.own_id id slot held) pending ended in
              rw e (
                IsTallied-same (give_back slot order.id (core x)) _ x.pending_new _
                  (dec_pos x.live_orders) _ (ap (give_back slot order.id) settled) pn
                  (ap dec_pos lv) done)
          | inr e ↦
              let partly : is_sent o'.status ≡ false = rw e refl in
              let done =
                revised-IsTallied (core s) v id slot held s.pending_new s.live_orders q o' _ _
                  (rw partly (omega (arith, pending))) (rw partly live) in
              rw e (IsTallied-same (core x) _ x.pending_new _ x.live_orders _ settled pn lv done)
        ])

    execute-IsTallied :
        (type : ExecType) (report : ExecutionReport D)
        → Suits type order.status
        → Tallies (execute (record report { exec_type = type }) slot s)
    unfolding execute
    execute-IsTallied new_ack report h = on_new_ack-IsTallied
    execute-IsTallied fill report h = on_fill-IsTallied true report.fill_qty report.fill_price
    execute-IsTallied partial_fill report h =
        on_fill-IsTallied false report.fill_qty report.fill_price
    execute-IsTallied cancel_ack report h = on_cancel_ack-IsTallied h
    execute-IsTallied reject report h = on_reject-IsTallied h
    execute-IsTallied cancel_reject report h = q
    execute-IsTallied (other_code _) report h = q

  -- The report suits the order that it is for, where the map holds it.
  abbrev pub IsSuiting : ExecutionReport D → Oms D → Type 0
  IsSuiting report s =
      (i : ℕ)
      → slot_of s.order_map report.order_id ≡ some i
      → Suits report.exec_type (s.orders i).status

  pub on_execution-IsTallied :
      (report : ExecutionReport D) (s : Oms D)
      → IsOwned (core s)
      → Tallies s
      → s.next_id + 1 < u64_mod
      → IsSuiting report s
      → Tallies (on_execution report s)
  unfolding on_execution
  on_execution-IsTallied report s v q room suits =
      let pos = map_find s.order_map report.order_id in
      elim (Bool-cases (leb order_map_size pos)) [
        | inl e ↦ rw e q
        | inr e ↦
            let slot = (s.order_map pos).slot in
            let held = slot_of_found s.order_map report.order_id e in
            rw e (
              execute-IsTallied report.order_id slot s v held q room report.exec_type report
                (suits slot held))
      ]

  alloc_slot-IsTallied : (s : Oms D) → Tallies s → Tallies (alloc_slot s).1
  alloc_slot-IsTallied s q =
      let (top, unused, keeps) = alloc_slot_keeps s in
      subst Tallies (sym keeps) (record { waiting = q.waiting; living = q.living })

  pub send_new-IsTallied :
      (side : Side) (price : D) (qty : ℕ) (type : OrderType) (s : Oms D)
      → IsOwned (core s)
      → Tallies s
      → s.next_id + 1 < u64_mod
      → Tallies (send_new side price qty type s).1
  unfolding send_new
  send_new-IsTallied side price qty type s v q room =
      elim (Bool-cases (check_risk side price qty s)) [
        | inr e ↦ rw e q
        | inl e ↦ elim (Bool-cases (leb max_orders (alloc_slot s).0)) [
          | inl f ↦ rw (e, f) (alloc_slot-IsTallied s q)
          | inr f ↦
              let r = alloc_slot-IsTallied s q in
              let taken = alloc_slot-IsTaken s v f in
              let c = core (alloc_slot s).1 in
              let next : c.next_id + 1 < u64_mod = rw (alloc_slot-next_id s) room in
              let (few, _) =
                tallied_bound c (alloc_slot s).1.pending_new (alloc_slot s).1.live_orders r in
              rw (e, f)
                (record {
                  waiting =
                      omega (
                        arith,
                        r.waiting,
                        few,
                        placed-weight waits c (alloc_slot s).0 taken _ next,
                      );
                  living =
                      omega (arith, r.living, placed-weight lives c (alloc_slot s).0 taken _ next);
                })
        ]
      ]
