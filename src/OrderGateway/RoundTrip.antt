-- ===== src/OrderGateway/RoundTrip.antt =====
-- include/nts/wire_protocol.h: the messages that are read from the bytes of others.
use nanosecond_trading_stack.Common.{
  ℕ, zero, suc, ◌*◌, ◌/◌, ◌<◌, ◌≤◌, ◌≡◌, refl, List, ◌++◌, length, arith, u32_mod, u64_mod,
}
use nanosecond_trading_stack.Oms.{ExecutionReport}
use nanosecond_trading_stack.OrderGateway.Wire.{
  bytes_le, from_le, field, exec_code, exec_type_of, order_msg_bytes, read_report,
}
use nanosecond_trading_stack.OrderGateway.{WireOrderMsg, size_of_order_msg}
use nanosecond_trading_stack.Types.{
  ExecType, new_ack, fill, partial_fill, cancel_ack, reject, cancel_reject, other_code,
}

abbrev byte_range : ℕ → ℕ
byte_range zero = 1
byte_range (suc n) = 256 * byte_range n

from_le-bytes_le : (n x : ℕ) → x < byte_range n → from_le (bytes_le n x) ≡ x
from_le-bytes_le zero x h = omega arith
from_le-bytes_le (suc n) x h = omega (arith, from_le-bytes_le n (x / 256) (omega arith))

-- A type of report as one byte; the codes below 6 have names.
abbrev pub IsExecType : ExecType → Type 0
IsExecType (other_code n) = (6 ≤ n) × (n < 256)
IsExecType _ = Unit

exec_type_of-exec_code :
    (t : ExecType) → IsExecType t → exec_type_of (from_le (bytes_le 1 (exec_code t))) ≡ t
exec_type_of-exec_code new_ack h = refl
exec_type_of-exec_code fill h = refl
exec_type_of-exec_code partial_fill h = refl
exec_type_of-exec_code cancel_ack h = refl
exec_type_of-exec_code reject h = refl
exec_type_of-exec_code cancel_reject h = refl
exec_type_of-exec_code (other_code n) (least, byte) = rw (from_le-bytes_le 1 n byte) (ground arith)

module _ {ℓ} {D : Type ℓ} where
  -- The fields of an execution report are in the ranges of their types.
  pub record IsReport (r : ExecutionReport D) : Type 0 where
    pub id_small : r.order_id < u64_mod
    pub code_small : IsExecType r.exec_type
    pub fill_small : r.fill_qty < u32_mod
    pub leaves_small : r.leaves_qty < u32_mod
    pub time_small : r.timestamp_ns < u64_mod

  -- `struct WireExecReport` as the exchange writes it: the report, a side, and any padding.
  abbrev pub report_bytes : (D → ℕ) → ℕ → ℕ → ℕ → ExecutionReport D → List ℕ
  report_bytes to_bits side pad1 pad2 r =
      bytes_le 1 (exec_code r.exec_type)
      ++ bytes_le 1 side
      ++ bytes_le 2 pad1
      ++ bytes_le 4 r.fill_qty
      ++ bytes_le 8 r.order_id
      ++ bytes_le 8 (to_bits r.fill_price)
      ++ bytes_le 4 r.leaves_qty
      ++ bytes_le 4 pad2
      ++ bytes_le 8 r.timestamp_ns

  -- A report is read back from its bytes in memory, whatever the side and the padding are, if its
  -- fields are in range and a price is read back from its bits.
  pub read_report-report_bytes :
      (to_bits : D → ℕ) (of_bits : ℕ → D) (side pad1 pad2 : ℕ) (r : ExecutionReport D)
      → ((x : D) → to_bits x < u64_mod)
      → ((x : D) → of_bits (to_bits x) ≡ x)
      → IsReport r
      → read_report of_bits (report_bytes to_bits side pad1 pad2 r) ≡ r
  unfolding read_report
  read_report-report_bytes to_bits of_bits side pad1 pad2 r small back v =
      rw
        (
          from_le-bytes_le 8 r.order_id v.id_small,
          exec_type_of-exec_code r.exec_type v.code_small,
          from_le-bytes_le 8 (to_bits r.fill_price) (small r.fill_price),
          back r.fill_price,
          from_le-bytes_le 4 r.fill_qty v.fill_small,
          from_le-bytes_le 4 r.leaves_qty v.leaves_small,
          from_le-bytes_le 8 r.timestamp_ns v.time_small,
        )
        refl

  -- The exchange's reading of a `struct WireOrderMsg`.
  abbrev pub read_order : (ℕ → D) → List ℕ → WireOrderMsg D
  read_order of_bits bs = record {
    msg_type = field 0 1 bs;
    side = field 1 1 bs;
    order_type = field 2 1 bs;
    client_order_id = field 8 8 bs;
    price = of_bits (field 16 8 bs);
    qty = field 24 4 bs;
    source_exchange_tick = field 32 8 bs;
    client_reaction_ns = field 40 8 bs;
  }

  pub record IsOrderMsg (m : WireOrderMsg D) : Type 0 where
    pub type_small : m.msg_type < 256
    pub side_small : m.side < 256
    pub order_type_small : m.order_type < 256
    pub id_small : m.client_order_id < u64_mod
    pub qty_small : m.qty < u32_mod
    pub tick_small : m.source_exchange_tick < u64_mod
    pub reaction_small : m.client_reaction_ns < u64_mod

  pub read_order-order_msg_bytes :
      (to_bits : D → ℕ) (of_bits : ℕ → D) (m : WireOrderMsg D)
      → ((x : D) → to_bits x < u64_mod)
      → ((x : D) → of_bits (to_bits x) ≡ x)
      → IsOrderMsg m
      → (read_order of_bits (order_msg_bytes to_bits m) ≡ m)
        × (length (order_msg_bytes to_bits m) ≡ size_of_order_msg)
  unfolding order_msg_bytes
  read_order-order_msg_bytes to_bits of_bits m small back v = (
    rw
        (
          from_le-bytes_le 1 m.msg_type v.type_small,
          from_le-bytes_le 1 m.side v.side_small,
          from_le-bytes_le 1 m.order_type v.order_type_small,
          from_le-bytes_le 8 m.client_order_id v.id_small,
          from_le-bytes_le 8 (to_bits m.price) (small m.price),
          back m.price,
          from_le-bytes_le 4 m.qty v.qty_small,
          from_le-bytes_le 8 m.source_exchange_tick v.tick_small,
          from_le-bytes_le 8 m.client_reaction_ns v.reaction_small,
        )
        refl,
    refl,
  )
