-- ===== src/Oms/Exposure/Kept.antt =====
-- src/oms.cpp: the sum of what is open under every operation.
use nanosecond_trading_stack.Common.{
  ℕ, ◌+◌, ◌-◌, ◌≤◌, ◌<◌, ◌≡◌, ◌⊎◌, inl, inr, refl, sym, ap, subst, ◌∙◌, Bool, true, false, ◌||◌,
  some, ◌==◌, leb, add32, sub32, u32_mod, u64_mod, arith, Bool-cases,
}
use nanosecond_trading_stack.Double.{Double}
use nanosecond_trading_stack.Oms.Exposure.{
  open_qty, IsSized, IsCounted, revised-IsCounted, freed-IsCounted, placed-IsCounted, counted-small,
}
use nanosecond_trading_stack.Oms.OrderMap.Slots.{slot_of, slot_of_found}
use nanosecond_trading_stack.Oms.OrderMap.{update, order_map_size, map_find}
use nanosecond_trading_stack.Oms.Ownership.{core, IsOwned}
use nanosecond_trading_stack.Oms.Ownership.Handlers.{give_back, settle_side-core}
use nanosecond_trading_stack.Oms.Ownership.Placed.{alloc_slot-IsTaken, alloc_slot-next_id}
use nanosecond_trading_stack.Oms.Orders.{alloc_slot_keeps}
use nanosecond_trading_stack.Oms.{
  Oms, Order, ExecutionReport, signed_qty, send_new, alloc_slot, max_orders, check_risk,
  filled_order, settle_fill, free_slot, apply_trading_fill, on_new_ack, on_fill, on_cancel_ack,
  on_reject, execute, on_execution,
}
use nanosecond_trading_stack.Types.{
  Side, OrderType, buy, sell, is_sent, ExecType, new_ack, fill, partial_fill, cancel_ack, reject,
  cancel_reject, other_code,
}

-- A fill is of what is open, and the last one of all of it.
abbrev pub Fits : ExecType → ℕ → ℕ → Type 0
Fits fill fq leaves = fq ≡ leaves
Fits partial_fill fq leaves = fq ≤ leaves
Fits _ fq leaves = Unit

-- What a fill takes off the sum is what it takes off the order.
part_off :
    (side : Side) (p fq leaves : ℕ)
    → fq ≤ leaves
    → leaves < u32_mod
    → add32 (sub32 p (signed_qty side fq)) (signed_qty side leaves)
      ≡ add32 p (signed_qty side (leaves - fq))
part_off buy p fq leaves le small = omega arith
part_off sell p fq leaves le small = omega arith

whole_off :
    (side : Side) (p q : ℕ)
    → p < u32_mod
    → add32 (sub32 p (signed_qty side q)) (signed_qty side q) ≡ p
whole_off buy p q small = omega arith
whole_off sell p q small = omega arith

sub32-small : (p q : ℕ) → sub32 p q < u32_mod
sub32-small p q = omega arith

module _ {ℓ} {D : Type ℓ} ⦃d : Double D⦄ where
  settle_side-pending :
      (side : Side) (is_fill : Bool) (fq : ℕ) (price : D) (slot : ℕ) (o : Order D) (s : Oms D)
      → let o' = record o { side = side } in
        (settle_fill is_fill fq price slot o' s).pending_position_delta
        ≡ sub32 s.pending_position_delta (signed_qty side fq)
  unfolding settle_fill apply_trading_fill
  settle_side-pending buy is_fill fq price slot o s = elim (Bool-cases (is_sent o.status)) [
    | inl e ↦ rw e refl
    | inr e ↦ rw e refl
  ]
  settle_side-pending sell is_fill fq price slot o s = elim (Bool-cases (is_sent o.status)) [
    | inl e ↦ rw e refl
    | inr e ↦ rw e refl
  ]

  filled_order-leaves :
      (is_fill : Bool) (fq : ℕ) (price : D) (o : Order D)
      → IsSized o
      → fq ≤ o.leaves_qty
      → ((filled_order is_fill fq price o).leaves_qty ≡ o.leaves_qty - fq)
        × ((filled_order is_fill fq price o).filled_qty ≡ o.filled_qty + fq)
  filled_order-leaves is_fill fq price o (size, small) le = (ground arith, ground arith)

  module _ (id slot : ℕ) (s : Oms D) (v : IsOwned (core s))
      (held : slot_of s.order_map id ≡ some slot)
      (q : IsCounted (core s) s.pending_position_delta) where
    abbrev order : Order D
    order = s.orders slot

    same_id : order.id ≡ id
    same_id = v.own_id id slot held

    on_new_ack-IsCounted :
        IsCounted (core (on_new_ack slot s)) (on_new_ack slot s).pending_position_delta
    unfolding on_new_ack
    on_new_ack-IsCounted = elim (Bool-cases (is_sent order.status)) [
      | inl e ↦ rw e (
          revised-IsCounted (core s) v id slot held s.pending_position_delta
            s.pending_position_delta q _ (counted-small (core s) s.pending_position_delta q)
            (q.sized id slot held) refl)
      | inr e ↦ rw e q
    ]

    -- The slot is given back once what the order had open is taken off.
    free_slot-IsCounted :
        (s' : Oms D) (o : Order D)
        → core s' ≡ record (core s) { orders = update s.orders slot o }
        → s'.pending_position_delta ≡ sub32 s.pending_position_delta (open_qty order)
        → IsCounted
            (core (free_slot slot order.id s'))
            (free_slot slot order.id s').pending_position_delta
    unfolding free_slot
    free_slot-IsCounted s' o e off =
        let small = counted-small (core s) s.pending_position_delta q in
        let done =
          freed-IsCounted (core s) v id slot held s.pending_position_delta
            (sub32 s.pending_position_delta (open_qty order)) q o
            (sub32-small s.pending_position_delta (open_qty order))
            (whole_off order.side s.pending_position_delta order.leaves_qty small) in
        subst (IsCounted (core (free_slot slot order.id s'))) (sym off) (
          subst
            (λ k.
              IsCounted (give_back slot k (core s'))
                (sub32 s.pending_position_delta (open_qty order)))
            (sym same_id)
            (subst
              (λ c.
                IsCounted (give_back slot id c) (sub32 s.pending_position_delta (open_qty order)))
              (sym e) done))

    on_cancel_ack-IsCounted :
        IsCounted (core (on_cancel_ack slot s)) (on_cancel_ack slot s).pending_position_delta
    unfolding on_cancel_ack
    on_cancel_ack-IsCounted = free_slot-IsCounted _ _ refl refl

    on_reject-IsCounted :
        IsCounted (core (on_reject slot s)) (on_reject slot s).pending_position_delta
    unfolding on_reject
    on_reject-IsCounted = free_slot-IsCounted _ _ refl refl

    on_fill-IsCounted :
        (is_fill : Bool) (fq : ℕ) (price : D)
        → fq ≤ order.leaves_qty
        → (is_fill ≡ false) ⊎ (fq ≡ order.leaves_qty)
        → IsCounted
            (core (on_fill is_fill fq price slot s))
            (on_fill is_fill fq price slot s).pending_position_delta
    unfolding on_fill
    on_fill-IsCounted is_fill fq price le whole =
        let settled = settle_side-core order.side is_fill fq price slot order s in
        let off = settle_side-pending order.side is_fill fq price slot order s in
        let o' = filled_order is_fill fq price order in
        let size = q.sized id slot held in
        let (leaves, filled) = filled_order-leaves is_fill fq price order size le in
        rw (v.is_open id slot held) (elim (Bool-cases (is_fill || (o'.leaves_qty == 0))) [
          | inl e ↦
              let all : fq ≡ order.leaves_qty = elim whole [
                | inl n ↦ ground (arith, n, e, leaves)
                | inr z ↦ z
              ] in
              rw e (
                free_slot-IsCounted _ o' settled
                  (off ∙ ap (λ x. sub32 s.pending_position_delta (signed_qty order.side x)) all))
          | inr e ↦
              let small = counted-small (core s) s.pending_position_delta q in
              let kept : IsCounted (record (core s) { orders = update s.orders slot o' })
                  (sub32 s.pending_position_delta (signed_qty order.side fq)) =
                revised-IsCounted (core s) v id slot held s.pending_position_delta _ q o'
                  (sub32-small s.pending_position_delta (signed_qty order.side fq))
                  (omega (arith, leaves, filled, size.0), size.1)
                  (rw leaves (
                    part_off order.side s.pending_position_delta fq order.leaves_qty le
                      (omega (arith, size.0, size.1)))) in
              rw e (
                subst (IsCounted (core (settle_fill is_fill fq price slot order s))) (sym off) (
                  subst
                    (λ c. IsCounted c (sub32 s.pending_position_delta (signed_qty order.side fq)))
                    (sym settled) kept))
        ])

    execute-IsCounted :
        (type : ExecType) (report : ExecutionReport D)
        → Fits type report.fill_qty order.leaves_qty
        → let s' = execute (record report { exec_type = type }) slot s in
          IsCounted (core s') s'.pending_position_delta
    unfolding execute
    execute-IsCounted new_ack report fits = on_new_ack-IsCounted
    execute-IsCounted fill report fits =
        on_fill-IsCounted true report.fill_qty report.fill_price (omega (arith, fits)) (inr fits)
    execute-IsCounted partial_fill report fits =
        on_fill-IsCounted false report.fill_qty report.fill_price fits (inl refl)
    execute-IsCounted cancel_ack report fits = on_cancel_ack-IsCounted
    execute-IsCounted reject report fits = on_reject-IsCounted
    execute-IsCounted cancel_reject report fits = q
    execute-IsCounted (other_code _) report fits = q

  -- The order that a report is for, where the map holds it, has open what the report fills.
  abbrev pub IsFitting : ExecutionReport D → Oms D → Type 0
  IsFitting report s =
      (i : ℕ)
      → slot_of s.order_map report.order_id ≡ some i
      → Fits report.exec_type report.fill_qty (s.orders i).leaves_qty

  pub on_execution-IsCounted :
      (report : ExecutionReport D) (s : Oms D)
      → IsOwned (core s)
      → IsCounted (core s) s.pending_position_delta
      → IsFitting report s
      → IsCounted (core (on_execution report s)) (on_execution report s).pending_position_delta
  unfolding on_execution
  on_execution-IsCounted report s v q fits =
      let pos = map_find s.order_map report.order_id in
      elim (Bool-cases (leb order_map_size pos)) [
        | inl e ↦ rw e q
        | inr e ↦
            let slot = (s.order_map pos).slot in
            let held = slot_of_found s.order_map report.order_id e in
            rw e (
              execute-IsCounted report.order_id slot s v held q report.exec_type report
                (fits slot held))
      ]

  alloc_slot-IsCounted :
      (s : Oms D)
      → IsCounted (core s) s.pending_position_delta
      → IsCounted (core (alloc_slot s).1) (alloc_slot s).1.pending_position_delta
  alloc_slot-IsCounted s q =
      let (top, unused, keeps) = alloc_slot_keeps s in
      subst (λ x. IsCounted (core x) x.pending_position_delta) (sym keeps)
        (record { counted = q.counted; sized = q.sized })

  pub send_new-IsCounted :
      (side : Side) (price : D) (qty : ℕ) (type : OrderType) (s : Oms D)
      → IsOwned (core s)
      → IsCounted (core s) s.pending_position_delta
      → qty < u32_mod
      → s.next_id + 1 < u64_mod
      → let s' = (send_new side price qty type s).1 in IsCounted (core s') s'.pending_position_delta
  unfolding send_new
  send_new-IsCounted side price qty type s v q fits small =
      elim (Bool-cases (check_risk side price qty s)) [
        | inr e ↦ rw e q
        | inl e ↦ elim (Bool-cases (leb max_orders (alloc_slot s).0)) [
          | inl f ↦ rw (e, f) (alloc_slot-IsCounted s q)
          | inr f ↦
              rw (e, f)
                (placed-IsCounted (core (alloc_slot s).1) (alloc_slot s).0
                  (alloc_slot-IsTaken s v f) _ (alloc_slot s).1.pending_position_delta
                  (alloc_slot-IsCounted s q) (rw (alloc_slot-next_id s) small) (omega arith, fits))
        ]
      ]
