-- ===== src/Tracer/Calls.antt =====
-- include/nts/instrument/tracer.h: every call of the tracer against its entry in the journal.
mod Reported
use nanosecond_trading_stack.Tracer.Calls.Reported.{report_marks, report-IsJournal}
use nanosecond_trading_stack.Common.{
  ℕ, suc, ◌+◌, ◌%◌, ◌≤◌, ◌<◌, ◌≡◌, ◌∙◌, inl, inr, refl, ap, true, false, not, Option, none, some,
  List, [], ◌∷◌, if◌then◌else◌, length, u64_mod, arith, Option-cases,
}
use nanosecond_trading_stack.Oms.OrderMap.{update}
use nanosecond_trading_stack.Tracer.Journal.{
  Marks, no_marks, marks_of, mark, note_report, report_first, order_ack_marks, ack_fill_marks,
  Journal, Call, call, calls, note, notes, settle,
}
use nanosecond_trading_stack.Tracer.{
  Hop, order_sent, ack_received, ack_processed, fill_received, fill_processed, TraceRecord,
  start_trace, record_at, record_order_ack, record_ack_fill, end_trace, discard_trace, enable,
  disable, reset, HopTracer, write_pos, report_pos, put, cleared,
}
use nanosecond_trading_stack.Tracer.Ring.{
  Kept-write, Kept-push, IsJournal, guarded, skipped, taken, written, marks_of-put,
}

module _ (t : HopTracer) (j : Journal) (v : IsJournal t j) where
  write_pos_lem : write_pos t ≡ length j.finished % t.capacity
  write_pos_lem = v.place t.total_count ∙ ap (λ n. n % t.capacity) v.counted

  start-IsJournal : IsJournal (call Call.start t) (note Call.start j)
  unfolding call note start_trace
  start-IsJournal = rw write_pos_lem (
      guarded t.enabled j.is_enabled t _ j _ v.enabling v (record {
        wide = v.wide;
        narrow = v.narrow;
        place = v.place;
        counted = v.counted;
        opened = refl;
        enabling = v.enabling;
        kept = Kept-write t.capacity t.traces j.finished _ v.kept;
        current =
            written t.traces (length j.finished % t.capacity)
              (cleared (t.traces (length j.finished % t.capacity))) no_marks refl;
      }))

  finish-IsJournal :
      length j.finished + 1 < u64_mod → IsJournal (call Call.finish t) (note Call.finish j)
  unfolding call note end_trace
  finish-IsJournal small = elim (Option-cases j.current) [
    | inl e ↦
        let shut : t.in_trace ≡ false = rw e at v.opened in
        skipped t.in_trace t _ _ shut (
          rw e (record {
            wide = v.wide;
            narrow = v.narrow;
            place = v.place;
            counted = v.counted;
            opened = shut;
            enabling = v.enabling;
            kept = v.kept;
            current = λ m eq. absurd (cc eq);
          }))
    | inr (m, e) ↦
        let is_open : t.in_trace ≡ true = rw e at v.opened in
        taken t.in_trace t _ _ is_open (
          rw e (record {
            wide = v.wide;
            narrow = v.narrow;
            place = v.place;
            counted = omega (arith, v.counted);
            opened = refl;
            enabling = v.enabling;
            kept = Kept-push t.capacity t.traces j.finished m (v.current m e) v.kept;
            current = λ m eq. absurd (cc eq);
          }))
  ]

  pub discard-IsJournal : IsJournal (call Call.discard t) (note Call.discard j)
  unfolding call note discard_trace
  discard-IsJournal = record {
    wide = v.wide;
    narrow = v.narrow;
    place = v.place;
    counted = v.counted;
    opened = refl;
    enabling = v.enabling;
    kept = v.kept;
    current = λ m eq. absurd (cc eq);
  }

  turn_on-IsJournal : IsJournal (call Call.turn_on t) (note Call.turn_on j)
  unfolding call note enable
  turn_on-IsJournal = record {
    wide = v.wide;
    narrow = v.narrow;
    place = v.place;
    counted = v.counted;
    opened = v.opened;
    enabling = refl;
    kept = v.kept;
    current = v.current;
  }

  turn_off-IsJournal : IsJournal (call Call.turn_off t) (note Call.turn_off j)
  unfolding call note disable
  turn_off-IsJournal = record {
    wide = v.wide;
    narrow = v.narrow;
    place = v.place;
    counted = v.counted;
    opened = v.opened;
    enabling = refl;
    kept = v.kept;
    current = v.current;
  }

  start_over-IsJournal : IsJournal (call Call.start_over t) (note Call.start_over j)
  unfolding call note reset
  start_over-IsJournal = record {
    wide = v.wide;
    narrow = v.narrow;
    place = v.place;
    counted = refl;
    opened = refl;
    enabling = v.enabling;
    kept = λ p lt near. absurd (omega arith);
    current = λ m eq. absurd (cc eq);
  }

  hop_at-IsJournal :
      (hop : Hop) (ticks : ℕ)
      → IsJournal (call (Call.hop_at hop ticks) t) (note (Call.hop_at hop ticks) j)
  unfolding call note record_at
  hop_at-IsJournal hop ticks = elim (Option-cases j.current) [
    | inl e ↦
        let shut : t.in_trace ≡ false = rw e at v.opened in
        skipped t.in_trace t _ _ shut (
          rw e (record {
            wide = v.wide;
            narrow = v.narrow;
            place = v.place;
            counted = v.counted;
            opened = shut;
            enabling = v.enabling;
            kept = v.kept;
            current = λ m eq. absurd (cc eq);
          }))
    | inr (m, e) ↦
        let is_open : t.in_trace ≡ true = rw e at v.opened in
        let there : marks_of (t.traces (length j.finished % t.capacity)) ≡ m = v.current m e in
        taken t.in_trace t _ _ is_open (
          rw (e, write_pos_lem)
            (record {
              wide = v.wide;
              narrow = v.narrow;
              place = v.place;
              counted = v.counted;
              opened = is_open;
              enabling = v.enabling;
              kept = Kept-write t.capacity t.traces j.finished _ v.kept;
              current =
                  written t.traces _ _ (mark hop ticks m)
                    (marks_of-put hop ticks _ ∙ ap (mark hop ticks) there);
            }))
  ]

  call-IsJournal : (c : Call) → length j.finished + 1 < u64_mod → IsJournal (call c t) (note c j)
  unfolding call note record_order_ack record_ack_fill
  call-IsJournal Call.start small = start-IsJournal
  call-IsJournal Call.finish small = finish-IsJournal small
  call-IsJournal Call.discard small = discard-IsJournal
  call-IsJournal Call.turn_on small = turn_on-IsJournal
  call-IsJournal Call.turn_off small = turn_off-IsJournal
  call-IsJournal Call.start_over small = start_over-IsJournal
  call-IsJournal (Call.hop_at hop ticks) small = hop_at-IsJournal hop ticks
  call-IsJournal (Call.order_ack a b c) small =
      report-IsJournal t j v
        (put ack_processed c
          (put ack_received b (put order_sent a (cleared (t.traces (report_pos t))))))
        (order_ack_marks a b c)
        (report_marks order_sent ack_received ack_processed a b c (t.traces (report_pos t))) small
  call-IsJournal (Call.ack_fill a b c) small =
      report-IsJournal t j v
        (put fill_processed c
          (put fill_received b (put ack_received a (cleared (t.traces (report_pos t))))))
        (ack_fill_marks a b c)
        (report_marks ack_received fill_received fill_processed a b c (t.traces (report_pos t)))
        small

settle-length : (o : Option Marks) (l : List Marks) → length (settle o l) ≤ length l + 1
settle-length none l = omega arith
settle-length (some m) l = omega arith

report_first-length :
    (m : Marks) (o : Option Marks) (l : List Marks) → length (report_first m o l) ≡ length l + 1
report_first-length m none l = omega arith
report_first-length m (some c) l = omega arith

report-length :
    (m : Marks) (j : Journal) → length (note_report m j).finished ≤ length j.finished + 1
report-length m j = ground (arith, report_first-length m j.current j.finished)

note-length : (c : Call) (j : Journal) → length (note c j).finished ≤ length j.finished + 1
unfolding note
note-length Call.start j = ground arith
note-length Call.finish j = settle-length j.current j.finished
note-length Call.discard j = omega arith
note-length Call.turn_on j = omega arith
note-length Call.turn_off j = omega arith
note-length Call.start_over j = omega arith
note-length (Call.hop_at hop ticks) j = omega arith
note-length (Call.order_ack a b c) j = report-length (order_ack_marks a b c) j
note-length (Call.ack_fill a b c) j = report-length (ack_fill_marks a b c) j

pub calls-IsJournal :
    (cs : List Call) (t : HopTracer) (j : Journal)
    → IsJournal t j
    → length j.finished + length cs < u64_mod
    → IsJournal (calls cs t) (notes cs j)
unfolding calls notes
calls-IsJournal [] t j v small = v
calls-IsJournal (c ∷ cs) t j v small =
    calls-IsJournal cs (call c t) (note c j) (call-IsJournal t j v c (omega arith))
      (omega (arith, note-length c j))
