-- ===== src/Types.antt =====
-- include/nts/common.h: the enumerations and constants of the trading pipeline.
use nanosecond_trading_stack.Common.{ℕ, Bool, true, false}

pub data Side : Type 0 where
  buy sell : Side

pub data OrderType : Type 0 where
  limit market ioc : OrderType

pub data OrderStatus : Type 0 where
  empty pending_new sent live partially_filled filled cancelled rejected : OrderStatus

-- `other_code` is a value of the underlying `uint8_t` that has no name.
pub data ExecType : Type 0 where
  new_ack fill partial_fill cancel_ack reject cancel_reject : ExecType
  other_code : ℕ → ExecType

abbrev pub default_port : ℕ
default_port = 12345

abbrev pub max_position : ℕ
max_position = 500

abbrev pub is_sent : OrderStatus → Bool
is_sent sent = true
is_sent _ = false

abbrev pub is_ioc : OrderType → Bool
is_ioc ioc = true
is_ioc _ = false
