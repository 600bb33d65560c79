-- ===== src/Oms.antt =====
-- The order management system, include/nts/oms.h and src/oms.cpp. A `Qty` is a `uint32_t`, a counter
-- a `size_t`, and a position an `int32_t` by its pattern; a method returns the new object.
pub mod Tests
pub mod OrderMap
mod State
pub use State.*
pub mod Accounting
pub mod Balanced
pub mod Counts
pub mod Exposure
pub mod Orderly
pub mod Orders
pub mod Ownership
pub mod Reachable
pub mod Reports
pub mod Traded
use nanosecond_trading_stack.Common.{
  ℕ, ◌+◌, ◌-◌, ◌%◌, ◌≡◌, refl, Bool, true, false, ◌&&◌, ◌||◌, not, Option, none, some, ltb, leb,
  ◌==◌, if◌then◌else◌, add32, sub32, neg32, abs32, ltb_int32, u32_mod, u64_mod,
}
use nanosecond_trading_stack.Double.{Double}
use nanosecond_trading_stack.Oms.OrderMap.{
  OrderMap as EntryArray, no_orders, order_map_size, map_insert, map_find, map_remove, update,
}
use nanosecond_trading_stack.Types.{
  Side, buy, sell, OrderType, limit, ioc, OrderStatus, empty, sent, live, partially_filled, filled,
  cancelled, rejected, ExecType, new_ack, fill, partial_fill, cancel_ack, reject, cancel_reject,
  other_code, max_position, is_sent, is_ioc,
}

module _ {ℓ} {D : Type ℓ} ⦃d : Double D⦄ where
  open d use {zero_d, five, add, sub, mul, div, abs_d, lt_d, of_uint, of_int32}

  unfoldable pub set_reference_price : D → Oms D → Oms D
  set_reference_price price s = record s { ref_price = price }

  -- The slot, or `max_orders` where none is left.
  unfoldable pub alloc_slot : Oms D → ℕ × Oms D
  alloc_slot s =
      if ltb 0 s.free_top
      then (s.free_stack (s.free_top - 1), record s { free_top = s.free_top - 1 })
      else if ltb s.next_fresh_slot max_orders
      then (s.next_fresh_slot, record s { next_fresh_slot = s.next_fresh_slot + 1 })
      else (max_orders, s)

  -- The position that the order would bring, with all that is in flight.
  abbrev pub exposure : Side → ℕ → Oms D → ℕ
  exposure side qty s = add32 (add32 s.position s.pending_position_delta) (signed_qty side qty)

  unfoldable pub check_risk : Side → D → ℕ → Oms D → Bool
  check_risk side price qty s =
      if ltb s.risk.max_order_qty qty
      then false
      else if leb s.risk.max_live_orders ((s.live_orders + s.pending_new) % u64_mod)
      then false
      else if ltb_int32 s.risk.max_position (abs32 (exposure side qty s))
      then false
      else if lt_d zero_d s.ref_price && lt_d zero_d s.risk.max_price_deviation
      then not (lt_d s.risk.max_price_deviation (abs_d (sub price s.ref_price)))
      else true

  -- The object after `send_new` has written the order into `slot`.
  abbrev pub with_order : Side → D → ℕ → OrderType → ℕ → Oms D → Oms D
  with_order side price qty type slot s =
      let id = s.next_id in
      record s {
        orders = update s.orders slot (record (s.orders slot) {
          id = id;
          price = price;
          qty = qty;
          filled_qty = 0;
          leaves_qty = qty;
          side = side;
          order_type = type;
          status = sent;
          avg_fill_price = zero_d;
        });
        next_id = (id + 1) % u64_mod;
        order_map = map_insert s.order_map id slot;
        order_count = inc s.order_count;
        pending_new = inc s.pending_new;
        pending_position_delta = add32 s.pending_position_delta (signed_qty side qty);
      }

  -- The pointer that `send_new` returns is the slot of the order.
  unfoldable pub send_new : Side → D → ℕ → OrderType → Oms D → Option ℕ × Oms D
  send_new side price qty type s =
      let (slot, s') = alloc_slot s in
      if not (check_risk side price qty s)
      then (none, s)
      else if leb max_orders slot
      then (none, s')
      else (some slot, with_order side price qty type slot s')

  unfoldable pub free_slot : ℕ → ℕ → Oms D → Oms D
  free_slot slot id s = record s {
    order_map = map_remove s.order_map id;
    free_stack = update s.free_stack s.free_top slot;
    free_top = inc s.free_top;
  }

  unfoldable pub apply_trading_fill : Side → ℕ → D → Oms D → Oms D
  apply_trading_fill buy qty price s = record s {
    position = add32 s.position (qty % u32_mod);
    trading_cash = sub s.trading_cash (mul price (of_uint qty));
  }
  apply_trading_fill sell qty price s = record s {
    position = sub32 s.position (qty % u32_mod);
    trading_cash = add s.trading_cash (mul price (of_uint qty));
  }

  -- `case ExecType::NewAck`
  unfoldable pub on_new_ack : ℕ → Oms D → Oms D
  on_new_ack slot s =
      let o = s.orders slot in
      if is_sent o.status
      then record s {
        orders = update s.orders slot (record o { status = live });
        pending_new = dec_pos s.pending_new;
        accepted_orders = inc s.accepted_orders;
        live_orders = inc s.live_orders;
      }
      else s

  -- A fill of an order that is still `Sent` counts as its acceptance.
  abbrev pub accept_on_fill : OrderStatus → Oms D → Oms D
  accept_on_fill status s =
      if is_sent status
      then record s {
        pending_new = dec_pos s.pending_new;
        accepted_orders = inc s.accepted_orders;
        live_orders = inc s.live_orders;
      }
      else s

  -- The fields of the order after a fill of `fq` at `price`.
  abbrev pub filled_order : Bool → ℕ → D → Order D → Order D
  filled_order is_fill fq price o =
      let new_cost = add (mul o.avg_fill_price (of_uint o.filled_qty)) (mul price (of_uint fq)) in
      let filled_qty = (o.filled_qty + fq) % u32_mod in
      let leaves = if ltb filled_qty o.qty then o.qty - filled_qty else 0 in
      record o {
        filled_qty = filled_qty;
        leaves_qty = leaves;
        avg_fill_price =
            if ltb 0 filled_qty then div new_cost (of_uint filled_qty) else o.avg_fill_price;
        status = if is_fill || (leaves == 0) then filled else partially_filled;
      }

  abbrev pub count_fill : Side → ℕ → Oms D → Oms D
  count_fill buy fq s = record s {
    buy_fills = inc s.buy_fills;
    buy_qty = (s.buy_qty + fq) % u32_mod;
  }
  count_fill sell fq s = record s {
    sell_fills = inc s.sell_fills;
    sell_qty = (s.sell_qty + fq) % u32_mod;
  }

  -- A fill of the order `o` in `slot`, up to the test whether it is the last one.
  unfoldable pub settle_fill : Bool → ℕ → D → ℕ → Order D → Oms D → Oms D
  unfolding apply_trading_fill
  settle_fill is_fill fq price slot o s =
      let accepted = accept_on_fill o.status s in
      let o' = filled_order is_fill fq price o in
      let moved = apply_trading_fill o.side fq price (record accepted {
        orders = update accepted.orders slot o';
        pending_position_delta = sub32 accepted.pending_position_delta (signed_qty o.side fq);
      }) in
      count_fill o.side fq (record moved {
        filled_orders =
            if o'.filled_qty == fq then inc moved.filled_orders else moved.filled_orders;
        fills = inc moved.fills;
        total_filled_qty = (moved.total_filled_qty + fq) % u32_mod;
      })

  -- `case ExecType::Fill` and `case ExecType::PartialFill`
  unfoldable pub on_fill : Bool → ℕ → D → ℕ → Oms D → Oms D
  on_fill is_fill fq price slot s =
      let o = s.orders slot in
      let settled = settle_fill is_fill fq price slot o s in
      if is_fillable o.status
      then (if is_fill || ((filled_order is_fill fq price o).leaves_qty == 0)
          then free_slot slot o.id (record settled { live_orders = dec_pos settled.live_orders })
          else settled)
      else s

  -- `case ExecType::CancelAck`
  unfoldable pub on_cancel_ack : ℕ → Oms D → Oms D
  on_cancel_ack slot s =
      let o = s.orders slot in
      free_slot slot o.id (record s {
        orders = update s.orders slot (record o { status = cancelled });
        missed_ioc =
            if is_ioc o.order_type && (o.filled_qty == 0) then inc s.missed_ioc else s.missed_ioc;
        pending_position_delta = sub32 s.pending_position_delta (signed_qty o.side o.leaves_qty);
        live_orders = dec_pos s.live_orders;
        cancels = inc s.cancels;
      })

  -- `case ExecType::Reject`
  unfoldable pub on_reject : ℕ → Oms D → Oms D
  on_reject slot s =
      let o = s.orders slot in
      free_slot slot o.id (record s {
        orders = update s.orders slot (record o { status = rejected });
        pending_new = if is_sent o.status then dec_pos s.pending_new else s.pending_new;
        pending_position_delta = sub32 s.pending_position_delta (signed_qty o.side o.leaves_qty);
        rejects = inc s.rejects;
      })

  -- The `switch`, for the slot that the map gives.
  unfoldable pub execute : ExecutionReport D → ℕ → Oms D → Oms D
  execute report slot s = elim report.exec_type [
    | new_ack ↦ on_new_ack slot s
    | fill ↦ on_fill true report.fill_qty report.fill_price slot s
    | partial_fill ↦ on_fill false report.fill_qty report.fill_price slot s
    | cancel_ack ↦ on_cancel_ack slot s
    | reject ↦ on_reject slot s
    | cancel_reject ↦ s
    | other_code _ ↦ s
  ]

  unfoldable pub on_execution : ExecutionReport D → Oms D → Oms D
  on_execution report s =
      let pos = map_find s.order_map report.order_id in
      if leb order_map_size pos then s else execute report (s.order_map pos).slot s

  unfoldable pub mark_pnl : D → Oms D → D
  mark_pnl current_mid s = mul (of_int32 s.position) current_mid

  unfoldable pub total_pnl : D → Oms D → D
  unfolding mark_pnl
  total_pnl current_mid s = add (add s.trading_cash zero_d) (mark_pnl current_mid s)
