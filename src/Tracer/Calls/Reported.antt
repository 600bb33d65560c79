-- ===== src/Tracer/Calls/Reported.antt =====
-- include/nts/instrument/tracer.h: the traces of reports, `record_order_ack` and `record_ack_fill`.
use nanosecond_trading_stack.Common.{
  ℕ, suc, ◌+◌, ◌%◌, ◌<◌, ◌≡◌, ◌∙◌, inl, inr, refl, ap, true, false, not, ◌∷◌, if◌then◌else◌, length,
  u64_mod, arith, Option-cases,
}
use nanosecond_trading_stack.Oms.OrderMap.{update}
use nanosecond_trading_stack.Tracer.Journal.{Marks, no_marks, marks_of, mark, note_report, Journal}
use nanosecond_trading_stack.Tracer.{Hop, TraceRecord, HopTracer, report_pos, put, cleared}
use nanosecond_trading_stack.Tracer.Ring.{
  Kept-write, Kept-push, IsJournal, guarded, written, marks_of-put,
}

-- The record of a report: three hops in an empty trace.
pub report_marks :
    (first second third : Hop) (a b c : ℕ) (r : TraceRecord)
    → marks_of (put third c (put second b (put first a (cleared r))))
      ≡ mark third c (mark second b (mark first a no_marks))
report_marks first second third a b c r =
    marks_of-put third c (put second b (put first a (cleared r)))
    ∙ ap (mark third c) (
        marks_of-put second b (put first a (cleared r))
        ∙ ap (mark second b) (marks_of-put first a (cleared r)))

module _ (t : HopTracer) (j : Journal) (v : IsJournal t j) where
  -- The place of a report's trace where none is written, and behind one that is.
  report_pos-shut :
      length j.finished + 1 < u64_mod
      → t.in_trace ≡ false
      → report_pos t ≡ length j.finished % t.capacity
  report_pos-shut small shut =
      let e : (t.total_count + 0) % u64_mod ≡ length j.finished = omega (arith, v.counted) in
      rw (shut, e) (v.place (length j.finished))

  report_pos-open :
      length j.finished + 1 < u64_mod
      → t.in_trace ≡ true
      → report_pos t ≡ suc (length j.finished) % t.capacity
  report_pos-open small is_open =
      let e : (t.total_count + 1) % u64_mod ≡ suc (length j.finished) = omega (arith, v.counted) in
      rw (is_open, e) (v.place (suc (length j.finished)))

  pub report-IsJournal :
      (r : TraceRecord) (m : Marks)
      → marks_of r ≡ m
      → length j.finished + 1 < u64_mod
      → IsJournal
          (if not t.enabled then t else record t {
            traces = update t.traces (report_pos t) r;
            total_count = (t.total_count + 1) % u64_mod;
          })
          (note_report m j)
  report-IsJournal r m e small = elim (Option-cases j.current) [
    | inl n ↦
        let shut : t.in_trace ≡ false = rw n at v.opened in
        guarded t.enabled j.is_enabled t _ j _ v.enabling v (
          rw (n, report_pos-shut small shut)
            (record {
              wide = v.wide;
              narrow = v.narrow;
              place = v.place;
              counted = omega (arith, v.counted);
              opened = shut;
              enabling = v.enabling;
              kept =
                  Kept-push t.capacity (update t.traces (length j.finished % t.capacity) r)
                    j.finished m (written t.traces (length j.finished % t.capacity) r m e m refl)
                    (Kept-write t.capacity t.traces j.finished r v.kept);
              current = λ m eq. absurd (cc eq);
            }))
    | inr (c, s) ↦
        let is_open : t.in_trace ≡ true = rw s at v.opened in
        guarded t.enabled j.is_enabled t _ j _ v.enabling v (
          rw (s, report_pos-open small is_open)
            (record {
              wide = v.wide;
              narrow = v.narrow;
              place = v.place;
              counted = omega (arith, v.counted);
              opened = is_open;
              enabling = v.enabling;
              kept =
                  Kept-write t.capacity t.traces (c ∷ j.finished) r
                    (Kept-push t.capacity t.traces j.finished c (v.current c s) v.kept);
              current = written t.traces _ r m e;
            }))
  ]
