-- ===== src/Oms/Reports.antt =====
-- What the reports of an order do, in every reachable order management system of src/oms.cpp.
use nanosecond_trading_stack.Common.{
  ℕ, ◌+◌, ◌%◌, ◌≡◌, refl, ◌∙◌, Bool, true, false, ◌||◌, none, some, ◌==◌, arith, inl, inr,
  Bool-cases, u32_mod, add32, ==_refl,
}
use nanosecond_trading_stack.Double.{Double}
use nanosecond_trading_stack.Oms.OrderMap.Lookup.{slot_of-map_remove}
use nanosecond_trading_stack.Oms.OrderMap.Slots.{slot_of, slot_of-none}
use nanosecond_trading_stack.Oms.Ownership.{core, owned-HasRoom}
use nanosecond_trading_stack.Oms.Reachable.{Reachable, Reachable-IsOwned, on_execution-held}
use nanosecond_trading_stack.Oms.{
  Oms, Order, ExecutionReport, on_execution, execute, signed_qty, on_fill, settle_fill,
  apply_trading_fill, free_slot, filled_order, is_fillable, on_cancel_ack,
}
use nanosecond_trading_stack.Types.{
  Side, buy, sell, is_sent, ExecType, fill, partial_fill, cancel_ack,
}

-- The type of a fill that is the last one, or not.
abbrev pub fill_type : Bool → ExecType
fill_type true = fill
fill_type false = partial_fill

module _ {ℓ} {D : Type ℓ} ⦃d : Double D⦄ where
  -- What a fill of `fq` books: the quantity, and the position by the side of the order.
  abbrev pub IsBooked : Side → ℕ → Oms D → Oms D → Type 0
  IsBooked side fq s s' =
      (s'.total_filled_qty ≡ (s.total_filled_qty + fq) % u32_mod)
      × (s'.position ≡ add32 s.position (signed_qty side fq))

  settle_side-IsBooked :
      (side : Side) (is_fill : Bool) (fq : ℕ) (price : D) (slot : ℕ) (o : Order D) (s : Oms D)
      → IsBooked side fq s (settle_fill is_fill fq price slot (record o { side = side }) s)
  unfolding settle_fill apply_trading_fill
  settle_side-IsBooked buy is_fill fq price slot o s = elim (Bool-cases (is_sent o.status)) [
    | inl e ↦ rw e (refl, refl)
    | inr e ↦ rw e (refl, refl)
  ]
  settle_side-IsBooked sell is_fill fq price slot o s = elim (Bool-cases (is_sent o.status)) [
    | inl e ↦ rw e (refl, omega arith)
    | inr e ↦ rw e (refl, omega arith)
  ]

  on_fill-IsBooked :
      (is_fill : Bool) (fq : ℕ) (price : D) (slot : ℕ) (s : Oms D)
      → is_fillable (s.orders slot).status ≡ true
      → IsBooked (s.orders slot).side fq s (on_fill is_fill fq price slot s)
  unfolding on_fill free_slot
  on_fill-IsBooked is_fill fq price slot s open' =
      let o = s.orders slot in
      let settled = settle_side-IsBooked o.side is_fill fq price slot o s in
      rw open' (elim (Bool-cases (is_fill || ((filled_order is_fill fq price o).leaves_qty == 0))) [
        | inl e ↦ rw e settled
        | inr e ↦ rw e settled
      ])

  execute-fill :
      (is_fill : Bool) (report : ExecutionReport D) (slot : ℕ) (s : Oms D)
      → execute (record report { exec_type = fill_type is_fill }) slot s
        ≡ on_fill is_fill report.fill_qty report.fill_price slot s
  unfolding execute
  execute-fill true report slot s = refl
  execute-fill false report slot s = refl

  -- In a reachable order management system, no fill of an order that the map holds is ignored: its
  -- quantity is booked and moves the position, for a last fill and for a partial one.
  pub fill-IsBooked :
      (is_fill : Bool) (report : ExecutionReport D) (s : Oms D) (slot : ℕ)
      → Reachable s
      → slot_of s.order_map report.order_id ≡ some slot
      → IsBooked
          (s.orders slot).side
          report.fill_qty
          s
          (on_execution (record report { exec_type = fill_type is_fill }) s)
  fill-IsBooked is_fill report s slot r h =
      let open' = (Reachable-IsOwned r).is_open report.order_id slot h in
      rw
        (
          on_execution-held (record report { exec_type = fill_type is_fill }) s slot h,
          execute-fill is_fill report slot s,
        )
        (on_fill-IsBooked is_fill report.fill_qty report.fill_price slot s open')

  -- A report for an id that the map does not lead anywhere changes nothing.
  on_execution-none :
      (report : ExecutionReport D) (s : Oms D)
      → slot_of s.order_map report.order_id ≡ none
      → on_execution report s ≡ s
  unfolding on_execution
  on_execution-none report s h = rw (slot_of-none s.order_map report.order_id h) refl

  on_cancel_ack-pending :
      (slot : ℕ) (s : Oms D) → (on_cancel_ack slot s).pending_new ≡ s.pending_new
  unfolding on_cancel_ack free_slot
  on_cancel_ack-pending slot s = refl

  on_cancel_ack-slot_of :
      (slot id : ℕ) (s : Oms D)
      → Reachable s
      → slot_of s.order_map id ≡ some slot
      → slot_of (on_cancel_ack slot s).order_map id ≡ none
  unfolding on_cancel_ack free_slot
  on_cancel_ack-slot_of slot id s r h =
      let v = Reachable-IsOwned r in
      rw (v.own_id id slot h) (
        (slot_of-map_remove s.order_map id v.probed (owned-HasRoom (core s) v)).1 id
        ∙ rw (==_refl id) refl)

  -- In a reachable order management system, the cancellation of an order that the map holds takes it
  -- out of the map and leaves the count of pending orders, even if the order is in it, and no further
  -- report for the order changes anything.
  pub cancel_ack-stays_pending :
      (cancelled later : ExecutionReport D) (s : Oms D) (slot : ℕ)
      → Reachable s
      → cancelled.exec_type ≡ cancel_ack
      → slot_of s.order_map cancelled.order_id ≡ some slot
      → later.order_id ≡ cancelled.order_id
      → let s' = on_execution cancelled s in
        (slot_of s'.order_map cancelled.order_id ≡ none)
        × (s'.pending_new ≡ s.pending_new)
        × (on_execution later s' ≡ s')
  unfolding execute
  cancel_ack-stays_pending cancelled later s slot r is_cancel h same =
      let gone = on_cancel_ack-slot_of slot cancelled.order_id s r h in
      rw (on_execution-held cancelled s slot h, is_cancel)
        (gone, on_cancel_ack-pending slot s, on_execution-none later _ (rw same gone))
