-- ===== src/Oms/Balanced.antt =====
-- include/nts/oms.h and src/oms.cpp: the books of every order management system that its client
-- brings about, and what the report at the end of a run of src/main.cpp says of them.
use nanosecond_trading_stack.Common.{ℕ, refl, sym, subst, leb, Bool-cases, inl, inr}
use nanosecond_trading_stack.Double.{Double}
use nanosecond_trading_stack.Oms.Accounting.{IsBalanced, on_execution-IsBalanced}
use nanosecond_trading_stack.Oms.Orders.{alloc_slot_keeps}
use nanosecond_trading_stack.Oms.Reachable.{Reachable, fresh, priced, submitted, stamped, reported}
use nanosecond_trading_stack.Oms.{
  Oms, set_reference_price, send_new, check_risk, alloc_slot, max_orders,
}
use nanosecond_trading_stack.Types.{Side, OrderType}

module _ {ℓ} {D : Type ℓ} ⦃d : Double D⦄ where
  alloc_slot-IsBalanced : (s : Oms D) → IsBalanced s → IsBalanced (alloc_slot s).1
  alloc_slot-IsBalanced s h =
      let (top, unused, keeps) = alloc_slot_keeps s in subst IsBalanced (sym keeps) h

  send_new-IsBalanced :
      (side : Side) (price : D) (qty : ℕ) (type : OrderType) (s : Oms D)
      → IsBalanced s
      → IsBalanced (send_new side price qty type s).1
  unfolding send_new
  send_new-IsBalanced side price qty type s h = elim (Bool-cases (check_risk side price qty s)) [
    | inr e ↦ rw e h
    | inl e ↦ elim (Bool-cases (leb max_orders (alloc_slot s).0)) [
      | inl f ↦ rw (e, f) (alloc_slot-IsBalanced s h)
      | inr f ↦ rw (e, f) (alloc_slot-IsBalanced s h)
    ]
  ]

  -- In every reachable order management system the position is what was bought less what was sold,
  -- and the filled quantity their sum, as 32-bit integers.
  pub Reachable-IsBalanced : {s : Oms D} → Reachable s → IsBalanced s
  unfolding set_reference_price
  Reachable-IsBalanced fresh = (refl, refl)
  Reachable-IsBalanced (priced price r) = Reachable-IsBalanced r
  Reachable-IsBalanced (submitted {s} side price qty type small r) =
      send_new-IsBalanced side price qty type s (Reachable-IsBalanced r)
  Reachable-IsBalanced (stamped slot tick ns r) = Reachable-IsBalanced r
  Reachable-IsBalanced (reported {s} report r) =
      on_execution-IsBalanced report s (Reachable-IsBalanced r)
