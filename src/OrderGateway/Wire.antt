-- ===== src/OrderGateway/Wire.antt =====
-- include/nts/wire_protocol.h and src/order_gateway.cpp: the messages in memory. The fields stand at
-- the offsets of the two structures, least byte first; the bits of a `double` are a parameter.
use nanosecond_trading_stack.Common.{
  ℕ, zero, suc, ◌+◌, ◌*◌, ◌/◌, ◌%◌, List, [], ◌∷◌, ◌++◌, take, drop, ◌==◌, if◌then◌else◌,
}
use nanosecond_trading_stack.Oms.{ExecutionReport}
use nanosecond_trading_stack.OrderGateway.{WireOrderMsg}
use nanosecond_trading_stack.Types.{
  ExecType, new_ack, fill, partial_fill, cancel_ack, reject, cancel_reject, other_code,
}

-- An integer of `n` bytes in memory.
abbrev pub bytes_le : ℕ → ℕ → List ℕ
bytes_le zero x = []
bytes_le (suc n) x = (x % 256) ∷ bytes_le n (x / 256)

abbrev pub from_le : List ℕ → ℕ
from_le [] = 0
from_le (b ∷ bs) = b + 256 * from_le bs

-- The number in `n` bytes at an offset.
abbrev pub field : ℕ → ℕ → List ℕ → ℕ
field offset n bs = from_le (take n (drop offset bs))

-- `static_cast<uint8_t>` of a type of report, and back.
abbrev pub exec_code : ExecType → ℕ
exec_code new_ack = 0
exec_code fill = 1
exec_code partial_fill = 2
exec_code cancel_ack = 3
exec_code reject = 4
exec_code cancel_reject = 5
exec_code (other_code n) = n

abbrev pub exec_type_of : ℕ → ExecType
exec_type_of n =
    if n == 0
    then new_ack
    else if n == 1
    then fill
    else if n == 2
    then partial_fill
    else if n == 3
    then cancel_ack
    else if n == 4
    then reject
    else if n == 5
    then cancel_reject
    else other_code n

module _ {ℓ} {D : Type ℓ} where
  -- `struct WireOrderMsg`, with zeros in its padding
  unfoldable pub order_msg_bytes : (D → ℕ) → WireOrderMsg D → List ℕ
  order_msg_bytes to_bits m =
      bytes_le 1 m.msg_type
      ++ bytes_le 1 m.side
      ++ bytes_le 1 m.order_type
      ++ bytes_le 5 0
      ++ bytes_le 8 m.client_order_id
      ++ bytes_le 8 (to_bits m.price)
      ++ bytes_le 4 m.qty
      ++ bytes_le 4 0
      ++ bytes_le 8 m.source_exchange_tick
      ++ bytes_le 8 m.client_reaction_ns

  -- `poll_execution` takes a `struct WireExecReport` from the buffer; it reads neither its side nor
  -- its padding.
  unfoldable pub read_report : (ℕ → D) → List ℕ → ExecutionReport D
  read_report of_bits bs = record {
    order_id = field 8 8 bs;
    exec_type = exec_type_of (field 0 1 bs);
    fill_price = of_bits (field 16 8 bs);
    fill_qty = field 4 4 bs;
    leaves_qty = field 24 4 bs;
    timestamp_ns = field 32 8 bs;
  }
