-- ===== src/Tracer/Newest.antt =====
-- include/nts/instrument/tracer.h: the order in which the ring gives its traces.
use Prim.Native.Nat.{bit_and}
use nanosecond_trading_stack.Common.Bits.{bit_and_ones}
use nanosecond_trading_stack.Common.{ℕ, ◌+◌, ◌-◌, ◌%◌, ◌<◌, ◌≡◌, true, u64_mod, arith}
use nanosecond_trading_stack.Tracer.{HopTracer, write_pos, end_trace, count, trace}

-- `DEFAULT_CAPACITY`
abbrev pub default_capacity : ℕ
default_capacity = 65536

-- The trace that ends is the last one that the ring then gives, also after the ring has wrapped
-- around. The ring has its default capacity and mask, a trace is open, and the counter is below its greatest
-- value.
pub end_trace-newest :
    (t : HopTracer)
    → t.capacity ≡ default_capacity
    → t.capacity_mask ≡ default_capacity - 1
    → t.in_trace ≡ true
    → t.total_count + 1 < u64_mod
    → trace (count (end_trace t) - 1) (end_trace t) ≡ t.traces (write_pos t)
unfolding trace count end_trace
end_trace-newest t c m open' small =
    let place : (x : ℕ) → bit_and x t.capacity_mask ≡ x % default_capacity =
      λ x. rw m (bit_and_ones 16 x) in
    let total = (t.total_count + 1) % u64_mod in
    ground (
      arith,
      place t.total_count,
      place total,
      place ((bit_and total t.capacity_mask + (default_capacity - 1)) % u64_mod),
      c,
    )
