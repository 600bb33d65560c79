-- ===== src/Oms/State.antt =====
-- include/nts/oms.h: the orders, the limits, and the state of the order management system.
use nanosecond_trading_stack.Common.{
  ℕ, ◌+◌, ◌-◌, ◌%◌, Bool, true, false, ltb, if◌then◌else◌, neg32, u32_mod, u64_mod,
}
use nanosecond_trading_stack.Double.{Double}
use nanosecond_trading_stack.Oms.OrderMap.{OrderMap as EntryArray, no_orders}
use nanosecond_trading_stack.Types.{
  Side, buy, sell, OrderType, limit, OrderStatus, empty, sent, live, partially_filled, ExecType,
  max_position,
}

abbrev pub max_orders : ℕ
max_orders = 4096

-- `x++` of a `size_t`
abbrev pub inc : ℕ → ℕ
inc x = (x + 1) % u64_mod

-- `if (x > 0) x--;`
abbrev pub dec_pos : ℕ → ℕ
dec_pos x = if ltb 0 x then x - 1 else x

pub record Order {ℓ} (D : Type ℓ) : Type ℓ where
  pub id : ℕ
  pub price : D
  pub qty : ℕ
  pub filled_qty : ℕ
  pub leaves_qty : ℕ
  pub side : Side
  pub order_type : OrderType
  pub status : OrderStatus
  pub source_exchange_tick : ℕ
  pub client_reaction_ns : ℕ
  pub avg_fill_price : D

pub record ExecutionReport {ℓ} (D : Type ℓ) : Type ℓ where
  pub order_id : ℕ
  pub exec_type : ExecType
  pub fill_price : D
  pub fill_qty : ℕ
  pub leaves_qty : ℕ
  pub timestamp_ns : ℕ

pub record RiskLimits {ℓ} (D : Type ℓ) : Type ℓ where
  pub max_position : ℕ
  pub max_order_qty : ℕ
  pub max_price_deviation : D
  pub max_live_orders : ℕ

pub record Oms {ℓ} (D : Type ℓ) : Type ℓ where
  pub orders : ℕ → Order D
  pub next_id : ℕ
  pub order_count : ℕ
  pub free_stack : ℕ → ℕ
  pub free_top : ℕ
  pub next_fresh_slot : ℕ
  pub order_map : EntryArray
  pub position : ℕ
  pub pending_position_delta : ℕ
  pub trading_cash : D
  pub risk : RiskLimits D
  pub ref_price : D
  pub live_orders : ℕ
  pub pending_new : ℕ
  pub accepted_orders : ℕ
  pub filled_orders : ℕ
  pub missed_ioc : ℕ
  pub fills : ℕ
  pub buy_fills : ℕ
  pub sell_fills : ℕ
  pub cancels : ℕ
  pub rejects : ℕ
  pub total_filled_qty : ℕ
  pub buy_qty : ℕ
  pub sell_qty : ℕ

-- `(side == Side::Buy) ? static_cast<int32_t>(qty) : -static_cast<int32_t>(qty)`
abbrev pub signed_qty : Side → ℕ → ℕ
signed_qty buy qty = qty % u32_mod
signed_qty sell qty = neg32 (qty % u32_mod)

abbrev pub is_fillable : OrderStatus → Bool
is_fillable live = true
is_fillable partially_filled = true
is_fillable sent = true
is_fillable _ = false

module _ {ℓ} {D : Type ℓ} ⦃d : Double D⦄ where
  open d use {zero_d, five, add, sub, mul, div, abs_d, lt_d, of_uint, of_int32}

  abbrev pub no_order : Order D
  no_order = record {
    id = 0;
    price = zero_d;
    qty = 0;
    filled_qty = 0;
    leaves_qty = 0;
    side = buy;
    order_type = limit;
    status = empty;
    source_exchange_tick = 0;
    client_reaction_ns = 0;
    avg_fill_price = zero_d;
  }

  abbrev pub default_limits : RiskLimits D
  default_limits = record {
    max_position = max_position;
    max_order_qty = 10000;
    max_price_deviation = five;
    max_live_orders = 50;
  }

  abbrev pub new : Oms D
  new = record {
    orders = λ _. no_order;
    next_id = 1;
    order_count = 0;
    free_stack = λ _. 0;
    free_top = 0;
    next_fresh_slot = 0;
    order_map = no_orders;
    position = 0;
    pending_position_delta = 0;
    trading_cash = zero_d;
    risk = default_limits;
    ref_price = zero_d;
    live_orders = 0;
    pending_new = 0;
    accepted_orders = 0;
    filled_orders = 0;
    missed_ioc = 0;
    fills = 0;
    buy_fills = 0;
    sell_fills = 0;
    cancels = 0;
    rejects = 0;
    total_filled_qty = 0;
    buy_qty = 0;
    sell_qty = 0;
  }
