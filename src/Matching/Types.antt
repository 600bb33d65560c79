-- ===== src/Matching/Types.antt =====
-- include/nts/matching/types.h and the private types of include/nts/matching/orderbook.h.
-- Ids, prices and quantities are `uint64_t`: numbers below 2 ^ 64.
-- A `std::list` node keeps its address as long as it lives, and an iterator is that address.
use nanosecond_trading_stack.Common.{ℕ, List}

pub data Side : Type 0 where
  buy sell : Side

pub data OrderType : Type 0 where
  limit market : OrderType

pub record Order : Type 0 where
  pub id : ℕ
  pub side : Side
  pub price : ℕ
  pub qty : ℕ
  pub order_type : OrderType

pub record Fill : Type 0 where
  pub maker_id : ℕ
  pub taker_id : ℕ
  pub price : ℕ
  pub qty : ℕ
  pub side : Side

pub record RestingOrder : Type 0 where
  pub addr : ℕ
  pub id : ℕ
  pub qty : ℕ

abbrev pub OrderQueue : Type 0
OrderQueue = List RestingOrder

pub record OrderLocation : Type 0 where
  pub side : Side
  pub price : ℕ
  pub iter : ℕ

-- `std::map<Price, OrderQueue>`, in the order of its keys
abbrev pub Levels : Type 0
Levels = List (ℕ × OrderQueue)

abbrev pub Locations : Type 0
Locations = List (ℕ × OrderLocation)
