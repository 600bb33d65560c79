-- ===== src/QuoteBook.antt =====
-- include/nts/orderbook.h and src/orderbook.cpp: the best quote and the reference price. Only the
-- first of the ten levels of a side is ever written; the arrays are functions of the index.
use nanosecond_trading_stack.Common.{ℕ, Bool, true, false, ltb, if◌then◌else◌}
use nanosecond_trading_stack.Double.{Double}
use nanosecond_trading_stack.MarketData.{MdMsg}
use nanosecond_trading_stack.Oms.OrderMap.{update}

pub record PriceLevel {ℓ} (D : Type ℓ) : Type ℓ where
  pub price : D
  pub qty : ℕ

pub record OrderBook {ℓ} (D : Type ℓ) : Type ℓ where
  pub bids : ℕ → PriceLevel D
  pub asks : ℕ → PriceLevel D
  pub bid_depth : ℕ
  pub ask_depth : ℕ
  pub reference_mid : D
  pub has_reference : Bool

module _ {ℓ} {D : Type ℓ} ⦃d : Double D⦄ where
  open d use {zero_d, half, add, mul}

  abbrev pub no_level : PriceLevel D
  no_level = record { price = zero_d; qty = 0 }

  abbrev pub new : OrderBook D
  new = record {
    bids = λ _. no_level;
    asks = λ _. no_level;
    bid_depth = 0;
    ask_depth = 0;
    reference_mid = zero_d;
    has_reference = false;
  }

  unfoldable pub on_quote : MdMsg D → OrderBook D → OrderBook D
  on_quote q b = record b {
    bid_depth = 1;
    bids = update b.bids 0 (record { price = q.bid_price; qty = q.bid_size });
    ask_depth = 1;
    asks = update b.asks 0 (record { price = q.ask_price; qty = q.ask_size });
  }

  unfoldable pub on_reference : MdMsg D → OrderBook D → OrderBook D
  on_reference r b = record b { reference_mid = r.reference_mid; has_reference = true }

  unfoldable pub best_bid : OrderBook D → D
  best_bid b = if ltb 0 b.bid_depth then (b.bids 0).price else zero_d

  unfoldable pub best_ask : OrderBook D → D
  best_ask b = if ltb 0 b.ask_depth then (b.asks 0).price else zero_d

  unfoldable pub mid_price : OrderBook D → D
  mid_price b = mul (add (b.bids 0).price (b.asks 0).price) half

  unfoldable pub clear : OrderBook D → OrderBook D
  clear b = new
