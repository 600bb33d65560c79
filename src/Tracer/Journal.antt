-- ===== src/Tracer/Journal.antt =====
-- What the ring of traces of include/nts/instrument/tracer.h stands for: all traces that ended, and
-- the one that is being written.
use nanosecond_trading_stack.Common.{
  ℕ, Bool, true, false, Option, none, some, List, [], ◌∷◌, if◌then◌else◌,
}
use nanosecond_trading_stack.Oms.OrderMap.{update}
use nanosecond_trading_stack.Tracer.{
  Hop, order_sent, ack_received, ack_processed, fill_received, fill_processed, hop_index,
  TraceRecord, HopTracer, start_trace, record_at, record_order_ack, record_ack_fill, end_trace,
  discard_trace, enable, disable, reset,
}

-- A trace without the stale words of its record: the ticks of the hops that it has.
abbrev pub Marks : Type 0
Marks = ℕ → Option ℕ

abbrev pub no_marks : Marks
no_marks = λ h. none

abbrev pub marks_of : TraceRecord → Marks
marks_of r = λ h. if r.recorded h then some (r.ticks h) else none

abbrev pub mark : Hop → ℕ → Marks → Marks
mark hop ticks m = update m (hop_index hop) (some ticks)

-- The traces that ended, the last one first; the one that is written; whether traces are taken.
pub record Journal : Type 0 where
  pub finished : List Marks
  pub current : Option Marks
  pub is_enabled : Bool

abbrev pub new_journal : Journal
new_journal = record { finished = []; current = none; is_enabled = true }

-- The calls of the tracer that change it.
pub data Call : Type 0 where
  start finish discard turn_on turn_off start_over : Call
  hop_at : Hop → ℕ → Call
  order_ack ack_fill : ℕ → ℕ → ℕ → Call

unfoldable pub call : Call → HopTracer → HopTracer
call Call.start t = start_trace t
call Call.finish t = end_trace t
call Call.discard t = discard_trace t
call Call.turn_on t = enable t
call Call.turn_off t = disable t
call Call.start_over t = reset t
call (Call.hop_at hop ticks) t = record_at hop ticks t
call (Call.order_ack a b c) t = record_order_ack a b c t
call (Call.ack_fill a b c) t = record_ack_fill a b c t

unfoldable pub calls : List Call → HopTracer → HopTracer
unfolding call
calls [] t = t
calls (c ∷ cs) t = calls cs (call c t)

abbrev pub mark_current : Hop → ℕ → Option Marks → Option Marks
mark_current hop ticks none = none
mark_current hop ticks (some m) = some (mark hop ticks m)

abbrev pub settle : Option Marks → List Marks → List Marks
settle none l = l
settle (some m) l = m ∷ l

-- A trace of a report ends at once where none is written; else it is written behind that one, which
-- ends instead.
abbrev pub behind : Marks → Option Marks → Option Marks
behind m none = none
behind m (some c) = some m

abbrev pub report_first : Marks → Option Marks → List Marks → List Marks
report_first m none l = m ∷ l
report_first m (some c) l = c ∷ l

abbrev pub note_report : Marks → Journal → Journal
note_report m j =
    if j.is_enabled
    then record j { finished = report_first m j.current j.finished; current = behind m j.current }
    else j

abbrev pub order_ack_marks : ℕ → ℕ → ℕ → Marks
order_ack_marks a b c = mark ack_processed c (mark ack_received b (mark order_sent a no_marks))

abbrev pub ack_fill_marks : ℕ → ℕ → ℕ → Marks
ack_fill_marks a b c = mark fill_processed c (mark fill_received b (mark ack_received a no_marks))

unfoldable pub note : Call → Journal → Journal
note Call.start j = if j.is_enabled then record j { current = some no_marks } else j
note Call.finish j = record j { finished = settle j.current j.finished; current = none }
note Call.discard j = record j { current = none }
note Call.turn_on j = record j { is_enabled = true }
note Call.turn_off j = record j { is_enabled = false }
note Call.start_over j = record j { finished = []; current = none }
note (Call.hop_at hop ticks) j = record j { current = mark_current hop ticks j.current }
note (Call.order_ack a b c) j = note_report (order_ack_marks a b c) j
note (Call.ack_fill a b c) j = note_report (ack_fill_marks a b c) j

unfoldable pub notes : List Call → Journal → Journal
unfolding note
notes [] j = j
notes (c ∷ cs) j = notes cs (note c j)
