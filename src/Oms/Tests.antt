-- ===== src/Oms/Tests.antt =====
-- An order management system over whole numbers, and what the theorems say of it.
use nanosecond_trading_stack.Common.{
  ℕ, ◌+◌, ◌^◌, ◌<◌, ◌≡◌, refl, ap, subst, true, none, some, ◌==◌, if◌then◌else◌, arith, ltb, leb,
  ◌-◌, ◌*◌, ◌/◌, add32, abs32, ltb_int32, false,
}
use nanosecond_trading_stack.Double.{Double}
use nanosecond_trading_stack.Oms.Accounting.{IsBalanced, in_flight}
use nanosecond_trading_stack.Oms.OrderMap.Lookup.{
  slot_of-map_insert, slot_of-map_remove, no_orders-IsProbed,
}
use nanosecond_trading_stack.Oms.OrderMap.Probing.{IsProbed, Absent}
use nanosecond_trading_stack.Oms.OrderMap.Slots.{HasRoom, slot_of}
use nanosecond_trading_stack.Oms.OrderMap.{
  OrderMap, no_orders, map_insert, map_remove, map_hash, insert_from, map_find, find_from,
}
use nanosecond_trading_stack.Oms.Ownership.{core, IsOwned}
use nanosecond_trading_stack.Oms.Reachable.{
  Reachable, fresh, submitted, reported, Reachable-IsOwned, send_new-reported,
}
use nanosecond_trading_stack.Oms.Reports.{IsBooked, fill-IsBooked, cancel_ack-stays_pending}
use nanosecond_trading_stack.Oms.Orders.{IsSent, send_new-IsSent, send_new-slot_of}
use nanosecond_trading_stack.Oms.Balanced.{Reachable-IsBalanced}
use nanosecond_trading_stack.Oms.Exposure.{open_total}
use nanosecond_trading_stack.Oms.Counts.Kept.{Tallies}
use nanosecond_trading_stack.Oms.Orderly.{
  Orderly, opened, ordered, replied, held_count, Orderly-IsTallied, send_new_live_limit,
}
use nanosecond_trading_stack.Oms.Traded.{
  Traded, fresh_start, sent_out, Traded-in_flight, send_new_within_limit,
}
use nanosecond_trading_stack.Oms.{
  free_slot, settle_fill, Oms, ExecutionReport, new, send_new, check_risk, alloc_slot, on_execution,
  on_fill, with_order, execute,
}
use nanosecond_trading_stack.Types.{buy, sell, ioc, fill, cancel_ack, new_ack}

-- Prices in whole ticks, none below 0.
instance abbrev pub ticks_double : Double ℕ
ticks_double = record {
  zero_d = 0;
  half = 0;
  one = 1;
  two = 2;
  five = 5;
  add = λ a b. a + b;
  sub = λ a b. a - b;
  mul = λ a b. a * b;
  div = λ a b. a / b;
  abs_d = λ a. a;
  lt_d = ltb;
  le_d = leb;
  of_uint = λ n. n;
  of_int32 = λ n. n;
  to_uint = λ n. n;
}

no_orders-HasRoom : HasRoom no_orders
no_orders-HasRoom = (0, omega arith, refl)

no_orders-Absent : (id : ℕ) → Absent no_orders id
no_orders-Absent id p hp op e = cc op

slot_of-map_insert_example :
    IsProbed (map_insert no_orders 1 0)
    × ((k : ℕ)
        → slot_of (map_insert no_orders 1 0) k ≡ (if 1 == k then some 0 else slot_of no_orders k))
slot_of-map_insert_example =
    slot_of-map_insert no_orders no_orders-IsProbed 1 0 (no_orders-Absent 1) no_orders-HasRoom

abbrev one_order : OrderMap
one_order = map_insert no_orders 1 0

one_order-HasRoom : HasRoom one_order
unfolding map_insert insert_from map_hash
one_order-HasRoom = (0, omega arith, refl)

slot_of-map_remove_example :
    IsProbed (map_remove one_order 1)
    × ((k : ℕ)
        → slot_of (map_remove one_order 1) k ≡ (if 1 == k then none else slot_of one_order k))
slot_of-map_remove_example =
    slot_of-map_remove one_order 1
      (slot_of-map_insert no_orders no_orders-IsProbed 1 0 (no_orders-Absent 1) no_orders-HasRoom).0
      one_order-HasRoom

abbrev pub empty_oms : Oms ℕ
empty_oms = new

abbrev pub one_sent : Oms ℕ
one_sent = with_order buy 100 3 ioc 0 (record empty_oms { next_fresh_slot = 1 })

bought : send_new buy 100 3 ioc empty_oms ≡ (some 0, one_sent)
unfolding send_new check_risk alloc_slot
bought = refl

send_new-IsSent_example : IsSent buy 100 3 ioc empty_oms 0 one_sent
send_new-IsSent_example = send_new-IsSent buy 100 3 ioc empty_oms one_sent 0 bought

one_sent_slots :
    IsProbed one_sent.order_map
    × ((k : ℕ) → slot_of one_sent.order_map k ≡ (if 1 == k then some 0 else slot_of no_orders k))
one_sent_slots =
    send_new-slot_of buy 100 3 ioc empty_oms one_sent 0 no_orders-IsProbed no_orders-HasRoom
      (no_orders-Absent 1) bought

abbrev pub fill_report : ExecutionReport ℕ
fill_report = record {
  order_id = 1;
  exec_type = fill;
  fill_price = 100;
  fill_qty = 3;
  leaves_qty = 0;
  timestamp_ns = 0;
}

abbrev cancel_report : ExecutionReport ℕ
cancel_report = record fill_report { exec_type = cancel_ack }

pub one_sent-Reachable : Reachable one_sent
one_sent-Reachable =
    subst Reachable (ap (λ r. r.1) bought) (submitted buy 100 3 ioc (omega arith) fresh)

one_sent-slot_of : slot_of one_sent.order_map 1 ≡ some 0
one_sent-slot_of = one_sent_slots.1 1

Reachable-IsOwned_example : IsOwned (core one_sent)
Reachable-IsOwned_example = Reachable-IsOwned one_sent-Reachable

send_new-reported_example : on_execution fill_report one_sent ≡ execute fill_report 0 one_sent
send_new-reported_example =
    send_new-reported buy 100 3 ioc empty_oms one_sent 0 fill_report fresh bought refl

fill-IsBooked_example : IsBooked buy 3 one_sent (on_execution fill_report one_sent)
fill-IsBooked_example =
    fill-IsBooked true fill_report one_sent 0 one_sent-Reachable one_sent-slot_of

cancel_ack-stays_pending_example :
    let s' = on_execution cancel_report one_sent in
    (slot_of s'.order_map 1 ≡ none)
    × (s'.pending_new ≡ one_sent.pending_new)
    × (on_execution fill_report s' ≡ s')
cancel_ack-stays_pending_example =
    cancel_ack-stays_pending cancel_report fill_report one_sent 0 one_sent-Reachable refl
      one_sent-slot_of refl

-- The risk limits count orders that are in flight against each other: a purchase of 500 that waits
-- lets a sale of 1000 through, and the fill of the sale alone leaves a position of -1000.
abbrev sell_report : ExecutionReport ℕ
sell_report = record {
  order_id = 2;
  exec_type = fill;
  fill_price = 100;
  fill_qty = 1000;
  leaves_qty = 0;
  timestamp_ns = 0;
}

two_sent : Oms ℕ
two_sent = (send_new sell 100 1000 ioc (send_new buy 100 500 ioc empty_oms).1).1

limit_passed : (on_execution sell_report two_sent).position ≡ 2 ^ 32 - 1000
unfolding on_execution map_find find_from two_sent send_new check_risk alloc_slot map_insert
    insert_from map_hash execute on_fill free_slot settle_fill
limit_passed = refl

one_sent-Traded : Traded one_sent
one_sent-Traded =
    subst Traded (ap (λ r. r.1) bought)
      (sent_out buy 100 3 ioc (omega arith) (omega arith) fresh_start)

Traded-in_flight_example : in_flight one_sent ≡ add32 one_sent.position (open_total (core one_sent))
Traded-in_flight_example = Traded-in_flight one_sent-Traded

send_new_within_limit_example :
    ltb_int32 empty_oms.risk.max_position
      (abs32 (add32 one_sent.position (open_total (core one_sent))))
    ≡ false
send_new_within_limit_example =
    send_new_within_limit buy 100 3 ioc empty_oms one_sent 0 fresh_start (omega arith) (omega arith)
      bought

Reachable-IsBalanced_example : IsBalanced (on_execution fill_report one_sent)
Reachable-IsBalanced_example = Reachable-IsBalanced (reported fill_report one_sent-Reachable)

one_sent-Orderly : Orderly one_sent
one_sent-Orderly = subst Orderly (ap (λ r. r.1) bought) (ordered buy 100 3 ioc (omega arith) opened)

abbrev ack_report : ExecutionReport ℕ
ack_report = record fill_report { exec_type = new_ack }

Orderly-IsTallied_example : Tallies (on_execution ack_report one_sent)
Orderly-IsTallied_example =
    Orderly-IsTallied (replied ack_report (omega arith) (λ i h. tt) one_sent-Orderly)

send_new_live_limit_example : held_count (core empty_oms) < empty_oms.risk.max_live_orders
send_new_live_limit_example =
    send_new_live_limit buy 100 3 ioc empty_oms one_sent 0 opened (omega arith) bought
