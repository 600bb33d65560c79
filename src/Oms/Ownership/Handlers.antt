-- ===== src/Oms/Ownership/Handlers.antt =====
-- The ownership of slots under every operation of include/nts/oms.h and src/oms.cpp.
use nanosecond_trading_stack.Common.{
  ℕ, ◌+◌, ◌<◌, ◌≡◌, refl, sym, Bool, true, false, ◌||◌, some, ◌==◌, inl, inr, Bool-cases, u64_mod,
  leb, subst,
}
use nanosecond_trading_stack.Double.{Double}
use nanosecond_trading_stack.Oms.OrderMap.Slots.{slot_of, slot_of_found}
use nanosecond_trading_stack.Oms.OrderMap.{order_map_size, map_find, map_remove, update}
use nanosecond_trading_stack.Oms.Ownership.Freed.{updated-IsOwned, freed-IsOwned}
use nanosecond_trading_stack.Oms.Ownership.Placed.{
  alloc_slot-IsOwned, alloc_slot-next_id, alloc_slot-IsTaken, placed-IsOwned,
}
use nanosecond_trading_stack.Oms.Ownership.{Core, core, IsOwned}
use nanosecond_trading_stack.Oms.{
  Oms, Order, ExecutionReport, filled_order, free_slot, settle_fill, apply_trading_fill, on_new_ack,
  on_fill, on_cancel_ack, on_reject, execute, on_execution, send_new, check_risk, alloc_slot,
  max_orders, inc,
}
use nanosecond_trading_stack.Types.{
  Side, buy, sell, OrderType, is_sent, ExecType, new_ack, fill, partial_fill, cancel_ack, reject,
  cancel_reject, other_code,
}

-- `free_slot` on what the invariant reads.
abbrev pub give_back {ℓ} : {D : Type ℓ} → ℕ → ℕ → Core D → Core D
give_back slot id c = record c {
  order_map = map_remove c.order_map id;
  free_stack = update c.free_stack c.free_top slot;
  free_top = inc c.free_top;
}

module _ {ℓ} {D : Type ℓ} ⦃d : Double D⦄ where
  -- A fill changes nothing of the core but the order.
  pub settle_side-core :
      (side : Side) (is_fill : Bool) (fq : ℕ) (price : D) (slot : ℕ) (o : Order D) (s : Oms D)
      → let o' = record o { side = side } in
        core (settle_fill is_fill fq price slot o' s)
        ≡ record (core s) { orders = update s.orders slot (filled_order is_fill fq price o') }
  unfolding settle_fill apply_trading_fill
  settle_side-core buy is_fill fq price slot o s = elim (Bool-cases (is_sent o.status)) [
    | inl e ↦ rw e refl
    | inr e ↦ rw e refl
  ]
  settle_side-core sell is_fill fq price slot o s = elim (Bool-cases (is_sent o.status)) [
    | inl e ↦ rw e refl
    | inr e ↦ rw e refl
  ]

  module _ (id slot : ℕ) (s : Oms D) (v : IsOwned (core s))
      (held : slot_of s.order_map id ≡ some slot) where
    abbrev order : Order D
    order = s.orders slot

    same_id : order.id ≡ id
    same_id = v.own_id id slot held

    on_new_ack-IsOwned : IsOwned (core (on_new_ack slot s))
    unfolding on_new_ack
    on_new_ack-IsOwned = elim (Bool-cases (is_sent order.status)) [
      | inl e ↦ rw e (updated-IsOwned (core s) v id slot held _ same_id refl)
      | inr e ↦ rw e v
    ]

    -- A slot is given back, whatever was written into it.
    free_slot-IsOwned :
        (s' : Oms D) (o : Order D)
        → core s' ≡ record (core s) { orders = update s.orders slot o }
        → IsOwned (core (free_slot slot order.id s'))
    unfolding free_slot
    free_slot-IsOwned s' o e =
        subst (λ k. IsOwned (give_back slot k (core s'))) (sym same_id)
          (subst (λ c. IsOwned (give_back slot id c)) (sym e)
            (freed-IsOwned (core s) v id slot held o))

    on_cancel_ack-IsOwned : IsOwned (core (on_cancel_ack slot s))
    unfolding on_cancel_ack
    on_cancel_ack-IsOwned = free_slot-IsOwned _ _ refl

    on_reject-IsOwned : IsOwned (core (on_reject slot s))
    unfolding on_reject
    on_reject-IsOwned = free_slot-IsOwned _ _ refl

    on_fill-IsOwned :
        (is_fill : Bool) (fq : ℕ) (price : D) → IsOwned (core (on_fill is_fill fq price slot s))
    unfolding on_fill
    on_fill-IsOwned is_fill fq price =
        let settled = settle_side-core order.side is_fill fq price slot order s in
        let o' = filled_order is_fill fq price order in
        rw (v.is_open id slot held) (elim (Bool-cases (is_fill || (o'.leaves_qty == 0))) [
          | inl e ↦ rw e (free_slot-IsOwned _ o' settled)
          | inr e ↦ rw e (
              subst IsOwned (sym settled)
                (updated-IsOwned (core s) v id slot held o' same_id (rw e refl)))
        ])

    execute-IsOwned :
        (type : ExecType) (report : ExecutionReport D)
        → IsOwned (core (execute (record report { exec_type = type }) slot s))
    unfolding execute
    execute-IsOwned new_ack report = on_new_ack-IsOwned
    execute-IsOwned fill report = on_fill-IsOwned true report.fill_qty report.fill_price
    execute-IsOwned partial_fill report = on_fill-IsOwned false report.fill_qty report.fill_price
    execute-IsOwned cancel_ack report = on_cancel_ack-IsOwned
    execute-IsOwned reject report = on_reject-IsOwned
    execute-IsOwned cancel_reject report = v
    execute-IsOwned (other_code _) report = v

  pub on_execution-IsOwned :
      (report : ExecutionReport D) (s : Oms D)
      → IsOwned (core s)
      → IsOwned (core (on_execution report s))
  unfolding on_execution
  on_execution-IsOwned report s v =
      let pos = map_find s.order_map report.order_id in
      elim (Bool-cases (leb order_map_size pos)) [
        | inl e ↦ rw e v
        | inr e ↦ rw e (
            execute-IsOwned report.order_id (s.order_map pos).slot s v
              (slot_of_found s.order_map report.order_id e) report.exec_type report)
      ]

  pub send_new-IsOwned :
      (side : Side) (price : D) (qty : ℕ) (type : OrderType) (s : Oms D)
      → IsOwned (core s)
      → s.next_id + 1 < u64_mod
      → IsOwned (core (send_new side price qty type s).1)
  unfolding send_new
  send_new-IsOwned side price qty type s v small = elim (Bool-cases (check_risk side price qty s)) [
    | inr e ↦ rw e v
    | inl e ↦ elim (Bool-cases (leb max_orders (alloc_slot s).0)) [
      | inl f ↦ rw (e, f) (alloc_slot-IsOwned s v)
      | inr f ↦
          rw (e, f)
            (placed-IsOwned (core (alloc_slot s).1) (alloc_slot s).0 (alloc_slot-IsTaken s v f) _
              (rw (alloc_slot-next_id s) small) refl refl)
    ]
  ]
