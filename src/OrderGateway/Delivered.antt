-- ===== src/OrderGateway/Delivered.antt =====
-- src/order_gateway.cpp: an order that is submitted, and the bytes that the exchange gets.
use nanosecond_trading_stack.Common.{
  ℕ, zero, suc, ◌+◌, ◌<◌, ◌≤◌, ◌≡◌, refl, ap, ◌∙◌, true, some, List, [], ◌∷◌, ◌++◌, take, drop,
  length, arith, u32_mod, u64_mod, ◌==◌, Bool-cases, inl, inr, All, ==→eq,
}
use nanosecond_trading_stack.Oms.{Order}
use nanosecond_trading_stack.OrderGateway.Stream.{take-drop}
use nanosecond_trading_stack.OrderGateway.Wire.{order_msg_bytes}
use nanosecond_trading_stack.OrderGateway.RoundTrip.{read_order, read_order-order_msg_bytes}
use nanosecond_trading_stack.OrderGateway.{
  WireOrderMsg, OrderGateway, Sent, took, again, send_failed, send_all, submit_order, wire_order,
  side_code, type_code, size_of_order_msg,
}
use nanosecond_trading_stack.Types.{Side, buy, sell, OrderType, limit, market, ioc}

-- No `send` fails.
abbrev pub Works : Sent → Type 0
Works (took n) = Unit
Works again = Unit
Works send_failed = ⊥

-- How many bytes the results of `send` take.
abbrev pub taken : List Sent → ℕ
taken [] = 0
taken (took n ∷ results) = n + taken results
taken (again ∷ results) = taken results
taken (send_failed ∷ results) = taken results

nil_message {ℓ} : {A : Type ℓ} (xs : List A) → length xs ≡ 0 → [] ≡ xs
nil_message [] h = refl
nil_message (x ∷ xs) h = absurd (omega arith)

length_dropped : (n : ℕ) (xs : List ℕ) → length xs ≤ n + length (drop n xs)
length_dropped zero xs = omega arith
length_dropped (suc n) [] = omega arith
length_dropped (suc n) (x ∷ xs) = omega (arith, length_dropped n xs)

length_dropped_le : (n m : ℕ) (xs : List ℕ) → length xs ≤ n + m → length (drop n xs) ≤ m
length_dropped_le zero m xs h = omega arith
length_dropped_le (suc n) m [] h = omega arith
length_dropped_le (suc n) m (x ∷ xs) h = length_dropped_le n m xs (omega arith)

-- If no `send` fails and they take as many bytes as the message has, all of the message goes out.
pub send_all-Whole :
    (message : List ℕ) (results : List Sent)
    → All Works results
    → length message ≤ taken results
    → ((send_all message results).0 ≡ message) × ((send_all message results).1 ≡ true)
unfolding send_all
send_all-Whole [] [] works enough = (refl, refl)
send_all-Whole (b ∷ bs) [] works enough = absurd (omega arith)
send_all-Whole message (send_failed ∷ results) works enough = absurd works.0
send_all-Whole message (again ∷ results) works enough = elim (Bool-cases (length message == 0)) [
  | inl e ↦ rw e (nil_message message (==→eq _ _ e), refl)
  | inr e ↦ rw e (send_all-Whole message results works.1 enough)
]
send_all-Whole message (took n ∷ results) works enough = elim (Bool-cases (length message == 0)) [
  | inl e ↦ rw e (nil_message message (==→eq _ _ e), refl)
  | inr e ↦
      let (whole, well) =
        send_all-Whole (drop n message) results works.1 (length_dropped_le n _ message enough) in
      rw e (ap (λ ys. take n message ++ ys) whole ∙ take-drop n message, well)
]

side_code-small : (side : Side) → side_code side < 256
side_code-small buy = omega arith
side_code-small sell = omega arith

type_code-small : (type : OrderType) (code : ℕ) → type_code type ≡ some code → code < 256
type_code-small limit code h = cc h
type_code-small market code h = let e : 1 ≡ code = cc h in omega arith
type_code-small ioc code h = let e : 2 ≡ code = cc h in omega arith

-- A gateway that is connected, with bytes of reports in its buffer.
abbrev pub opened : List ℕ → OrderGateway
opened read_buf = record { is_open = true; read_buf = read_buf }

module _ {ℓ} {D : Type ℓ} where
  -- The fields of an order are in the ranges of their types.
  pub record IsOrder (o : Order D) : Type 0 where
    pub id_small : o.id < u64_mod
    pub qty_small : o.qty < u32_mod
    pub tick_small : o.source_exchange_tick < u64_mod
    pub reaction_small : o.client_reaction_ns < u64_mod

  -- What the exchange is to read for an order of the given code.
  abbrev pub message_of : ℕ → Order D → WireOrderMsg D
  message_of code o = record {
    msg_type = 1;
    side = side_code o.side;
    order_type = code;
    client_order_id = o.id;
    price = o.price;
    qty = o.qty;
    source_exchange_tick = o.source_exchange_tick;
    client_reaction_ns = o.client_reaction_ns;
  }

  wire_order-message_of :
      (o : Order D) (code : ℕ)
      → type_code o.order_type ≡ some code
      → wire_order o ≡ some (message_of code o)
  unfolding wire_order
  wire_order-message_of o code h = rw (h, wire_order) refl

  -- An order that is not a limit order, submitted to an open gateway while no `send` fails and they
  -- take 48 bytes in all, however they cut them, goes out whole: the exchange reads every field of
  -- the order from the bytes, and the gateway stays open with its buffer.
  pub submit_order-delivers :
      (to_bits : D → ℕ) (of_bits : ℕ → D) (o : Order D) (code : ℕ) (results : List Sent)
      (read_buf : List ℕ)
      → ((x : D) → to_bits x < u64_mod)
      → ((x : D) → of_bits (to_bits x) ≡ x)
      → IsOrder o
      → type_code o.order_type ≡ some code
      → All Works results
      → size_of_order_msg ≤ taken results
      → let (out, g') = submit_order (order_msg_bytes to_bits) o results (opened read_buf) in
        (read_order of_bits out ≡ message_of code o)
        × (length out ≡ size_of_order_msg)
        × (g' ≡ opened read_buf)
  unfolding submit_order
  submit_order-delivers to_bits of_bits o code results read_buf small back v coded works enough =
      let m = message_of code o in
      let (read, size) = read_order-order_msg_bytes to_bits of_bits m small back (record {
        type_small = omega arith;
        side_small = side_code-small o.side;
        order_type_small = type_code-small o.order_type code coded;
        id_small = v.id_small;
        qty_small = v.qty_small;
        tick_small = v.tick_small;
        reaction_small = v.reaction_small;
      }) in
      let (whole, well) = send_all-Whole (order_msg_bytes to_bits m) results works (omega arith) in
      rw (wire_order-message_of o code coded, well, whole) (read, size, refl)
