-- ===== src/Strategy.antt =====
-- include/nts/strategy.h and src/strategy.cpp: the signal from the quote and the reference price.
use nanosecond_trading_stack.Common.{ℕ, ◌&&◌, not, if◌then◌else◌, ltb_int32, neg32}
use nanosecond_trading_stack.Double.{Double}
use nanosecond_trading_stack.QuoteBook.{OrderBook, best_bid, best_ask}
use nanosecond_trading_stack.Types.{max_position}

pub data Signal : Type 0 where
  no_signal buy_signal sell_signal : Signal

pub record StrategyParams {ℓ} (D : Type ℓ) : Type ℓ where
  pub edge_threshold : D
  pub order_size : ℕ
  pub max_position : ℕ

module _ {ℓ} {D : Type ℓ} ⦃d : Double D⦄ where
  open d use {two, add, le_d}

  abbrev pub default_params : StrategyParams D
  default_params = record { edge_threshold = two; order_size = 1; max_position = max_position }

  -- `a >= b` is `b <= a`, as it is for every pair of doubles.
  unfoldable pub on_book_update : StrategyParams D → OrderBook D → ℕ → Signal
  unfolding best_bid best_ask
  on_book_update params book position =
      let reference = book.reference_mid in
      if not book.has_reference
      then no_signal
      else if le_d (add (best_ask book) params.edge_threshold) reference
          && ltb_int32 position params.max_position
      then buy_signal
      else if le_d (add reference params.edge_threshold) (best_bid book)
          && ltb_int32 (neg32 params.max_position) position
      then sell_signal
      else no_signal
