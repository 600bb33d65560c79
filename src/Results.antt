-- ===== src/Results.antt =====
-- src/pipeline_utils.cpp: the values of the trading report, and the directories and the name of a
-- file of results. A path is a list of bytes. The calls of the system are not modelled.
pub mod Names
use nanosecond_trading_stack.Common.{
  ℕ, zero, suc, ◌+◌, ◌/◌, ◌%◌, ◌^◌, List, [], ◌∷◌, ◌++◌, ltb, ◌==◌, if◌then◌else◌,
}
use nanosecond_trading_stack.Double.{Double}
use nanosecond_trading_stack.MarketData.{MdReceiver}
use nanosecond_trading_stack.Oms.{Oms, total_pnl}
use nanosecond_trading_stack.QuoteBook.{OrderBook, mid_price}

pub record TradingReport {ℓ} (D : Type ℓ) : Type ℓ where
  pub elapsed_s : D
  pub iterations : ℕ
  pub ref_packets : ℕ
  pub ref_gaps : ℕ
  pub refs : ℕ
  pub target_packets : ℕ
  pub target_gaps : ℕ
  pub quotes : ℕ
  pub orders : ℕ
  pub accepted : ℕ
  pub filled : ℕ
  pub missed_ioc : ℕ
  pub rejected : ℕ
  pub hit_rate : D
  pub fill_events : ℕ
  pub fill_qty : ℕ
  pub buy_fills : ℕ
  pub buy_qty : ℕ
  pub sell_fills : ℕ
  pub sell_qty : ℕ
  pub realized : D
  pub liquidation : D
  pub total : D

module _ {ℓ} {D : Type ℓ} ⦃d : Double D⦄ where
  open d use {zero_d, sub, mul, div, of_uint}

  unfoldable pub print_trading_report :
      MdReceiver → MdReceiver → Oms D → OrderBook D → D → ℕ → TradingReport D
  unfolding total_pnl mid_price
  print_trading_report ref_md target_md oms book elapsed_s iterations = record {
    elapsed_s = elapsed_s;
    iterations = iterations;
    ref_packets = ref_md.packets;
    ref_gaps = ref_md.drops;
    refs = ref_md.references;
    target_packets = target_md.packets;
    target_gaps = target_md.drops;
    quotes = target_md.quotes;
    orders = oms.order_count;
    accepted = oms.accepted_orders;
    filled = oms.filled_orders;
    missed_ioc = oms.missed_ioc;
    rejected = oms.rejects;
    hit_rate =
        if ltb 0 oms.accepted_orders
        then div (mul (of_uint 100) (of_uint oms.filled_orders)) (of_uint oms.accepted_orders)
        else zero_d;
    fill_events = oms.fills;
    fill_qty = oms.total_filled_qty;
    buy_fills = oms.buy_fills;
    buy_qty = oms.buy_qty;
    sell_fills = oms.sell_fills;
    sell_qty = oms.sell_qty;
    realized = sub (total_pnl (mid_price book) oms) zero_d;
    liquidation = zero_d;
    total = total_pnl (mid_price book) oms;
  }

-- The code of `/`.
abbrev pub slash : ℕ
slash = 47

-- The loop of `mkdirs`, with `partial`: the paths that `mkdir` is called for.
unfoldable pub mkdirs_from : List ℕ → List ℕ → List (List ℕ)
mkdirs_from partial [] = []
mkdirs_from partial (c ∷ path) =
    let partial' = partial ++ (c ∷ []) in
    let rest = mkdirs_from partial' path in if c == slash then partial' ∷ rest else rest

unfoldable pub mkdirs : List ℕ → List (List ℕ)
unfolding mkdirs_from
mkdirs path = mkdirs_from [] path ++ (path ∷ [])

-- `live_results_dir` on Linux: results/live/linux
abbrev pub live_results_dir : List ℕ
live_results_dir =
    b'r' ∷ b'e' ∷ b's' ∷ b'u' ∷ b'l' ∷ b't' ∷ b's' ∷ slash ∷ b'l' ∷ b'i' ∷ b'v' ∷ b'e' ∷ slash
    ∷ b'l' ∷ b'i' ∷ b'n' ∷ b'u' ∷ b'x' ∷ []

-- `struct tm` of the system, as `gmtime_r` fills it.
pub record Tm : Type 0 where
  pub tm_year : ℕ
  pub tm_mon : ℕ
  pub tm_mday : ℕ
  pub tm_hour : ℕ
  pub tm_min : ℕ
  pub tm_sec : ℕ

abbrev pub digit : ℕ → ℕ
digit n = b'0' + n % 10

-- The last `w` decimal digits.
abbrev pub digits : ℕ → ℕ → List ℕ
digits zero n = []
digits (suc w) n = digits w (n / 10) ++ (digit n ∷ [])

-- All decimal digits, of a number with no more than the fuel.
unfoldable pub decimal : ℕ → ℕ → List ℕ
decimal zero n = []
decimal (suc fuel) n =
    let rest = decimal fuel (n / 10) in if ltb n 10 then digit n ∷ [] else rest ++ (digit n ∷ [])

-- `%0wd` of an `int` that is not below 0
unfoldable pub zero_padded : ℕ → ℕ → List ℕ
unfolding decimal
zero_padded w n = if ltb n (10 ^ w) then digits w n else decimal 10 n

unfoldable pub utc_timestamp : Tm → List ℕ
unfolding zero_padded
utc_timestamp t =
    zero_padded 4 (t.tm_year + 1900)
    ++ (zero_padded 2 (t.tm_mon + 1)
        ++ (zero_padded 2 t.tm_mday
            ++ (b'T'
                ∷ (zero_padded 2 t.tm_hour ++ (zero_padded 2 t.tm_min ++ zero_padded 2 t.tm_sec)))))

-- `dir + "/" + utc_timestamp() + ".txt"`
abbrev pub report_path : Tm → List ℕ
report_path t = live_results_dir ++ (slash ∷ (utc_timestamp t ++ (b'.' ∷ b't' ∷ b'x' ∷ b't' ∷ [])))
