-- ===== src/Oms/Accounting.antt =====
-- src/oms.cpp: the books that the order management system keeps of its fills, and the exposure that
-- it checks new orders against.
use nanosecond_trading_stack.Common.{
  ℕ, ◌+◌, ◌%◌, ◌≡◌, refl, Bool, true, false, ◌||◌, leb, ◌==◌, if◌then◌else◌, add32, u32_mod, arith,
  Bool-cases, inl, inr,
}
use nanosecond_trading_stack.Double.{Double}
use nanosecond_trading_stack.Oms.OrderMap.{order_map_size, map_find}
use nanosecond_trading_stack.Oms.{
  Oms, Order, ExecutionReport, on_new_ack, on_fill, on_cancel_ack, on_reject, execute, on_execution,
  free_slot, apply_trading_fill, filled_order, settle_fill, is_fillable, dec_pos,
}
use nanosecond_trading_stack.Types.{
  Side, buy, sell, is_sent, ExecType, new_ack, fill, partial_fill, cancel_ack, reject,
  cancel_reject, other_code,
}

module _ {ℓ} {D : Type ℓ} ⦃d : Double D⦄ where
  -- The position is what was bought less what was sold, and the filled quantity their sum.
  abbrev pub IsBalanced : Oms D → Type 0
  IsBalanced s =
      (add32 s.position s.sell_qty ≡ s.buy_qty % u32_mod)
      × (s.total_filled_qty % u32_mod ≡ (s.buy_qty + s.sell_qty) % u32_mod)

  -- The position with all that is in flight.
  abbrev pub in_flight : Oms D → ℕ
  in_flight s = add32 s.position s.pending_position_delta

  on_new_ack-IsBalanced : (slot : ℕ) (s : Oms D) → IsBalanced s → IsBalanced (on_new_ack slot s)
  unfolding on_new_ack
  on_new_ack-IsBalanced slot s h = elim (Bool-cases (is_sent (s.orders slot).status)) [
    | inl e ↦ rw e h
    | inr e ↦ rw e h
  ]

  on_cancel_ack-IsBalanced :
      (slot : ℕ) (s : Oms D) → IsBalanced s → IsBalanced (on_cancel_ack slot s)
  unfolding on_cancel_ack free_slot
  on_cancel_ack-IsBalanced slot s h = h

  on_reject-IsBalanced : (slot : ℕ) (s : Oms D) → IsBalanced s → IsBalanced (on_reject slot s)
  unfolding on_reject free_slot
  on_reject-IsBalanced slot s h = h

  -- A fill counts as bought or sold as it moves the position.
  settle_side-IsBalanced :
      (side : Side) (is_fill : Bool) (fq : ℕ) (price : D) (slot : ℕ) (o : Order D) (s : Oms D)
      → IsBalanced s
      → IsBalanced (settle_fill is_fill fq price slot (record o { side = side }) s)
  unfolding settle_fill apply_trading_fill
  settle_side-IsBalanced buy is_fill fq price slot o s (p, q) =
      elim (Bool-cases (is_sent o.status)) [
        | inl e ↦ rw e (omega arith, omega arith)
        | inr e ↦ rw e (omega arith, omega arith)
      ]
  settle_side-IsBalanced sell is_fill fq price slot o s (p, q) =
      elim (Bool-cases (is_sent o.status)) [
        | inl e ↦ rw e (omega arith, omega arith)
        | inr e ↦ rw e (omega arith, omega arith)
      ]

  settle_side-in_flight :
      (side : Side) (is_fill : Bool) (fq : ℕ) (price : D) (slot : ℕ) (o : Order D) (s : Oms D)
      → in_flight (settle_fill is_fill fq price slot (record o { side = side }) s) ≡ in_flight s
  unfolding settle_fill apply_trading_fill
  settle_side-in_flight buy is_fill fq price slot o s = elim (Bool-cases (is_sent o.status)) [
    | inl e ↦ rw e (omega arith)
    | inr e ↦ rw e (omega arith)
  ]
  settle_side-in_flight sell is_fill fq price slot o s = elim (Bool-cases (is_sent o.status)) [
    | inl e ↦ rw e (omega arith)
    | inr e ↦ rw e (omega arith)
  ]

  -- What the order's books say is kept by what `on_fill` does about its slot.
  pub finish_fill {κ} :
      (P : Oms D → Type κ) (fillable last : Bool) (slot id : ℕ) (settled s : Oms D)
      → P s
      → P settled
      → P (free_slot slot id (record settled { live_orders = dec_pos settled.live_orders }))
      → P (
          if fillable
          then (if last
              then free_slot slot id (record settled { live_orders = dec_pos settled.live_orders })
              else settled)
          else s)
  finish_fill P false last slot id settled s kept h freed = kept
  finish_fill P true true slot id settled s kept h freed = freed
  finish_fill P true false slot id settled s kept h freed = h

  on_fill-IsBalanced :
      (is_fill : Bool) (fq : ℕ) (price : D) (slot : ℕ) (s : Oms D)
      → IsBalanced s
      → IsBalanced (on_fill is_fill fq price slot s)
  unfolding on_fill free_slot
  on_fill-IsBalanced is_fill fq price slot s h =
      let o = s.orders slot in
      let settled = settle_side-IsBalanced o.side is_fill fq price slot o s h in
      finish_fill IsBalanced (is_fillable o.status)
        (is_fill || ((filled_order is_fill fq price o).leaves_qty == 0)) slot o.id
        (settle_fill is_fill fq price slot o s) s h settled settled

  -- No fill changes the position with all that is in flight: what it adds to the one it takes off
  -- the other.
  pub on_fill-in_flight :
      (is_fill : Bool) (fq : ℕ) (price : D) (slot : ℕ) (s : Oms D)
      → in_flight (on_fill is_fill fq price slot s) ≡ in_flight s
  unfolding on_fill free_slot
  on_fill-in_flight is_fill fq price slot s =
      let o = s.orders slot in
      let settled = settle_side-in_flight o.side is_fill fq price slot o s in
      finish_fill (λ x. in_flight x ≡ in_flight s) (is_fillable o.status)
        (is_fill || ((filled_order is_fill fq price o).leaves_qty == 0)) slot o.id
        (settle_fill is_fill fq price slot o s) s refl settled settled

  execute-IsBalanced :
      (type : ExecType) (report : ExecutionReport D) (slot : ℕ) (s : Oms D)
      → IsBalanced s
      → IsBalanced (execute (record report { exec_type = type }) slot s)
  unfolding execute
  execute-IsBalanced new_ack report slot s h = on_new_ack-IsBalanced slot s h
  execute-IsBalanced fill report slot s h =
      on_fill-IsBalanced true report.fill_qty report.fill_price slot s h
  execute-IsBalanced partial_fill report slot s h =
      on_fill-IsBalanced false report.fill_qty report.fill_price slot s h
  execute-IsBalanced cancel_ack report slot s h = on_cancel_ack-IsBalanced slot s h
  execute-IsBalanced reject report slot s h = on_reject-IsBalanced slot s h
  execute-IsBalanced cancel_reject report slot s h = h
  execute-IsBalanced (other_code _) report slot s h = h

  -- Whatever report comes, the position stays what was bought less what was sold, and the filled
  -- quantity their sum, as 32-bit integers.
  pub on_execution-IsBalanced :
      (report : ExecutionReport D) (s : Oms D) → IsBalanced s → IsBalanced (on_execution report s)
  unfolding on_execution
  on_execution-IsBalanced report s h =
      elim (Bool-cases (leb order_map_size (map_find s.order_map report.order_id))) [
        | inl e ↦ rw e h
        | inr e ↦ rw e (
            execute-IsBalanced report.exec_type report
              (s.order_map (map_find s.order_map report.order_id)).slot s h)
      ]
