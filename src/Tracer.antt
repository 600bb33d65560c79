-- ===== src/Tracer.antt =====
-- include/nts/instrument/tracer.h, src/instrument/tracer.cpp: the ring of latency traces.
-- `raw_ticks` is an argument.
pub mod Calls
pub mod Capacity
pub mod Journal
pub mod Newest
pub mod Noop
pub mod Ring
mod Tests
pub mod Window
use Prim.Native.Nat.{bit_and, bit_or}
use Prim.Native.String.{String}
use nanosecond_trading_stack.Common.{
  ℕ, ◌+◌, ◌-◌, ◌/◌, ◌%◌, ◌^◌, ◌==◌, Bool, true, false, not, ltb, leb, if◌then◌else◌, u64_mod, sub64,
}
use nanosecond_trading_stack.Oms.OrderMap.{update}

pub data Hop : Type 0 where
  recv_start recv_done book_updated strategy_done order_sent : Hop
  ack_received ack_processed fill_received fill_processed : Hop

-- `static_cast<size_t>(hop)`
abbrev pub hop_index : Hop → ℕ
hop_index recv_start = 0
hop_index recv_done = 1
hop_index book_updated = 2
hop_index strategy_done = 3
hop_index order_sent = 4
hop_index ack_received = 5
hop_index ack_processed = 6
hop_index fill_received = 7
hop_index fill_processed = 8

-- `COUNT` is the number of the hops, and none of them.
abbrev pub hop_name : Hop → String
hop_name recv_start = "RecvStart"
hop_name recv_done = "RecvDone"
hop_name book_updated = "BookUpdated"
hop_name strategy_done = "StrategyDone"
hop_name order_sent = "OrderSent"
hop_name ack_received = "AckReceived"
hop_name ack_processed = "AckProcessed"
hop_name fill_received = "FillReceived"
hop_name fill_processed = "FillProcessed"

-- `recorded_mask` is the set of the bits that are 1.
pub record TraceRecord : Type 0 where
  pub ticks : ℕ → ℕ
  pub recorded : ℕ → Bool

abbrev pub has : Hop → TraceRecord → Bool
has hop t = t.recorded (hop_index hop)

abbrev pub latency_ticks : Hop → Hop → TraceRecord → ℕ
latency_ticks from to t = sub64 (t.ticks (hop_index to)) (t.ticks (hop_index from))

pub record HopTracer : Type 0 where
  pub traces : ℕ → TraceRecord
  pub capacity : ℕ
  pub capacity_mask : ℕ
  pub total_count : ℕ
  pub enabled : Bool
  pub in_trace : Bool

-- `x |= x >> n`
unfoldable pub set_below : ℕ → ℕ → ℕ
set_below n x = bit_or x (x / 2 ^ n)

-- Below the highest bit of `v - 1`, all bits are set.
unfoldable pub round_up_pow2 : ℕ → ℕ
unfolding set_below
round_up_pow2 v =
    if v == 0
    then 1
    else (set_below 32
          (set_below 16 (set_below 8 (set_below 4 (set_below 2 (set_below 1 (v - 1))))))
        + 1)
      % u64_mod

-- The records of a new array are not written yet: they are a parameter.
abbrev pub new : (ℕ → TraceRecord) → ℕ → HopTracer
new uninitialized capacity = record {
  traces = uninitialized;
  capacity = round_up_pow2 capacity;
  capacity_mask = sub64 (round_up_pow2 capacity) 1;
  total_count = 0;
  enabled = true;
  in_trace = false;
}

abbrev pub write_pos : HopTracer → ℕ
write_pos t = bit_and t.total_count t.capacity_mask

abbrev pub cleared : TraceRecord → TraceRecord
cleared r = record r { recorded = λ _. false }

abbrev pub put : Hop → ℕ → TraceRecord → TraceRecord
put hop ticks r = record {
  ticks = update r.ticks (hop_index hop) ticks;
  recorded = update r.recorded (hop_index hop) true;
}

unfoldable pub start_trace : HopTracer → HopTracer
start_trace t = if not t.enabled then t else record t {
  in_trace = true;
  traces = update t.traces (write_pos t) (cleared (t.traces (write_pos t)));
}

unfoldable pub record_at : Hop → ℕ → HopTracer → HopTracer
record_at hop ticks t = if not t.in_trace then t else record t {
  traces = update t.traces (write_pos t) (put hop ticks (t.traces (write_pos t)));
}

-- Where a trace of a report goes: behind the open one.
abbrev pub report_pos : HopTracer → ℕ
report_pos t = bit_and ((t.total_count + (if t.in_trace then 1 else 0)) % u64_mod) t.capacity_mask

unfoldable pub record_order_ack : ℕ → ℕ → ℕ → HopTracer → HopTracer
record_order_ack order_sent_ticks ack_received_ticks ack_processed_ticks t =
    if not t.enabled then t else record t {
      traces = update t.traces (report_pos t) (
          put ack_processed ack_processed_ticks (
            put ack_received ack_received_ticks
              (put order_sent order_sent_ticks (cleared (t.traces (report_pos t))))));
      total_count = (t.total_count + 1) % u64_mod;
    }

unfoldable pub record_ack_fill : ℕ → ℕ → ℕ → HopTracer → HopTracer
record_ack_fill ack_received_ticks fill_received_ticks fill_processed_ticks t =
    if not t.enabled then t else record t {
      traces = update t.traces (report_pos t) (
          put fill_processed fill_processed_ticks (
            put fill_received fill_received_ticks
              (put ack_received ack_received_ticks (cleared (t.traces (report_pos t))))));
      total_count = (t.total_count + 1) % u64_mod;
    }

unfoldable pub end_trace : HopTracer → HopTracer
end_trace t =
    if not t.in_trace
    then t
    else record t { in_trace = false; total_count = (t.total_count + 1) % u64_mod }

unfoldable pub discard_trace : HopTracer → HopTracer
discard_trace t = record t { in_trace = false }

unfoldable pub enable : HopTracer → HopTracer
enable t = record t { enabled = true }

unfoldable pub disable : HopTracer → HopTracer
disable t = record t { enabled = false }

unfoldable pub reset : HopTracer → HopTracer
reset t = record t { total_count = 0; in_trace = false }

unfoldable pub count : HopTracer → ℕ
count t = if ltb t.total_count t.capacity then t.total_count else t.capacity

unfoldable pub wrapped : HopTracer → Bool
wrapped t = ltb t.capacity t.total_count

-- `trace(idx)`: index 0 is the oldest trace that is kept.
unfoldable pub trace : ℕ → HopTracer → TraceRecord
trace idx t =
    if leb t.total_count t.capacity
    then t.traces idx
    else t.traces
        (bit_and ((bit_and t.total_count t.capacity_mask + idx) % u64_mod) t.capacity_mask)
