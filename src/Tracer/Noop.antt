-- ===== src/Tracer/Noop.antt =====
-- `NoopTracer` of include/nts/instrument/tracer.h, which stands for the tracer in a build without
-- tracing: no call changes it.
use nanosecond_trading_stack.Common.{ℕ, Bool, false}
use nanosecond_trading_stack.Tracer.Journal.{Call}

pub data NoopTracer : Type 0 where
  noop : NoopTracer

abbrev pub noop_call : Call → NoopTracer → NoopTracer
noop_call c t = t

abbrev pub noop_is_enabled : NoopTracer → Bool
noop_is_enabled t = false

abbrev pub noop_count : NoopTracer → ℕ
noop_count t = 0

abbrev pub noop_total_traces : NoopTracer → ℕ
noop_total_traces t = 0
