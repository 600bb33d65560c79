-- ===== src/Tracer/Window.antt =====
-- include/nts/instrument/tracer.h, `count` and `trace`: which of all traces the ring gives.
use Prim.Native.Nat.{bit_and}
use native.Mathlib.Nat.{
  mod-eq_of_lt, mod-lt, mod_self, mod-add-mod, one-le-pow, pow-le-pow_right, add-mod_right,
}
use nanosecond_trading_stack.Common.Bits.{bit_and_ones}
use nanosecond_trading_stack.Common.{
  ℕ, ◌+◌, ◌-◌, ◌%◌, ◌^◌, ◌≤◌, ◌<◌, ◌≡◌, ◌∙◌, ◌⊎◌, inl, inr, refl, ap, sym, some, List, [], ◌∷◌, leb,
  length, get_or, u64_mod, arith, Bool-cases, dec_le, min, sub64,
}
use nanosecond_trading_stack.Tracer.Calls.{calls-IsJournal, discard-IsJournal}
use nanosecond_trading_stack.Tracer.Capacity.{round_up_pow2-least}
use nanosecond_trading_stack.Tracer.Journal.{
  Marks, no_marks, marks_of, Journal, new_journal, Call, call, calls, note, notes,
}
use nanosecond_trading_stack.Tracer.Ring.{IsJournal}
use nanosecond_trading_stack.Tracer.{
  start_trace, end_trace, discard_trace, enable, disable, reset, record_at, record_order_ack,
  record_ack_fill, TraceRecord, HopTracer, new, count, trace, round_up_pow2,
}

-- A power of two below 2 ^ 64 is at most 2 ^ 63.
two_pow_narrow : (k : ℕ) → 2 ^ k < 2 ^ 64 → 2 ^ k ≤ 2 ^ 63
two_pow_narrow k small = elim (dec_le k 63) [
  | yes le ↦ pow-le-pow_right (omega arith) le
  | no more ↦
      let le : 64 ≤ k = omega arith in
      let above : 2 ^ 64 ≤ 2 ^ k = pow-le-pow_right (omega arith) le in
      absurd (omega (arith, above))
]

new-IsJournal :
    (uninitialized : ℕ → TraceRecord) (v : ℕ)
    → 1 < v
    → v ≤ 2 ^ 63
    → IsJournal (new uninitialized v) new_journal
new-IsJournal uninitialized v wide small =
    let power = round_up_pow2-least v (omega arith) small in
    let narrow : 2 ^ power.0 ≤ 2 ^ 63 = two_pow_narrow power.0 (omega (arith, power.3)) in
    let mask : sub64 (2 ^ power.0) 1 ≡ 2 ^ power.0 - 1 =
      omega (arith, narrow, one-le-pow power.0 2) in
    record {
      wide = rw power.1 (omega (arith, power.2));
      narrow = rw power.1 narrow;
      place = λ x. rw (power.1, mask) (bit_and_ones power.0 x);
      counted = refl;
      opened = refl;
      enabling = refl;
      kept = λ p lt near. absurd (omega arith);
      current = λ m eq. absurd (cc eq);
    }

-- Where the ring has wrapped around, the trace `idx` of it is one of the last ones.
wrapped_place :
    (c total idx : ℕ) → c ≤ total → idx < c → (total % c + idx) % c ≡ (total - c + idx) % c
wrapped_place c total idx le lt =
    let e : total + idx ≡ (total - c + idx) + c = omega arith in
    mod-add-mod total c idx ∙ ap (λ n. n % c) e ∙ add-mod_right (total - c + idx) c

module _ (t : HopTracer) (j : Journal) (v : IsJournal t j) where
  count_lem : count t ≡ min (length j.finished) t.capacity
  unfolding count
  count_lem = ground (arith, v.counted)

  wrapped_index :
      (idx : ℕ)
      → idx < t.capacity
      → t.capacity < length j.finished
      → bit_and ((bit_and t.total_count t.capacity_mask + idx) % u64_mod) t.capacity_mask
        ≡ (length j.finished - t.capacity + idx) % t.capacity
  wrapped_index idx lt more =
      let c = t.capacity in
      let bound : t.total_count % c < c = mod-lt t.total_count (omega (arith, v.wide)) in
      let word : (t.total_count % c + idx) % u64_mod ≡ t.total_count % c + idx =
        mod-eq_of_lt (omega (arith, v.narrow, bound)) in
      rw (v.place t.total_count, v.place, word, v.counted)
        (wrapped_place c (length j.finished) idx (omega arith) lt)

  trace_lem :
      (idx : ℕ)
      → idx < count t
      → (0 < idx) ⊎ (length j.finished < t.capacity)
      → marks_of (trace idx t) ≡ get_or j.finished (count t - 1 - idx) no_marks
  unfolding trace
  trace_lem idx lt side = elim (Bool-cases (leb t.total_count t.capacity)) [
    | inl e ↦
        let all : length j.finished ≤ t.capacity = ground (arith, v.counted) in
        let near : length j.finished < idx + t.capacity = elim side [
          | inl h ↦ omega arith
          | inr h ↦ omega arith
        ] in
        let here : idx % t.capacity ≡ idx = mod-eq_of_lt (omega (arith, count_lem)) in
        let kept : marks_of (t.traces (idx % t.capacity))
            ≡ get_or j.finished (length j.finished - 1 - idx) no_marks =
          v.kept idx (omega (arith, count_lem)) near in
        let last : count t ≡ length j.finished = omega (arith, count_lem) in
        rw (e, last) (rw here at kept)
    | inr e ↦
        let more : t.capacity < length j.finished = ground (arith, v.counted) in
        let last : count t ≡ t.capacity = omega (arith, count_lem) in
        let p = length j.finished - t.capacity + idx in
        let here : bit_and ((bit_and t.total_count t.capacity_mask + idx) % u64_mod) t.capacity_mask
            ≡ p % t.capacity =
          wrapped_index idx (omega arith) (omega arith) in
        let from_end : t.capacity - 1 - idx ≡ length j.finished - 1 - p = omega arith in
        rw (e, here, last, from_end) (v.kept p (omega arith) (omega arith))
  ]

  -- In a full ring the oldest trace has the place of the next one.
  oldest_place :
      t.capacity ≤ length j.finished → trace 0 t ≡ t.traces (length j.finished % t.capacity)
  unfolding trace
  oldest_place full = elim (Bool-cases (leb t.total_count t.capacity)) [
    | inl e ↦
        let exact : length j.finished ≡ t.capacity = ground (arith, v.counted) in
        let here : length j.finished % t.capacity ≡ 0 = rw exact (mod_self t.capacity) in
        rw (e, here) refl
    | inr e ↦
        let c = t.capacity in
        let more : c < length j.finished = ground (arith, v.counted) in
        let here = wrapped_index 0 (omega (arith, v.wide)) more in
        let again : (length j.finished - c + 0) % c ≡ length j.finished % c =
          let split : length j.finished ≡ (length j.finished - c + 0) + c = omega arith in
          sym (ap (λ n. n % c) split ∙ add-mod_right (length j.finished - c + 0) c) in
        rw e (ap t.traces (here ∙ again))
  ]

call-capacity : (c : Call) (t : HopTracer) → (call c t).capacity ≡ t.capacity
unfolding call start_trace end_trace discard_trace enable disable reset record_at record_order_ack
    record_ack_fill
call-capacity Call.start t = ground arith
call-capacity Call.finish t = ground arith
call-capacity Call.discard t = refl
call-capacity Call.turn_on t = refl
call-capacity Call.turn_off t = refl
call-capacity Call.start_over t = refl
call-capacity (Call.hop_at hop ticks) t = ground arith
call-capacity (Call.order_ack a b c) t = ground arith
call-capacity (Call.ack_fill a b c) t = ground arith

calls-capacity : (cs : List Call) (t : HopTracer) → (calls cs t).capacity ≡ t.capacity
unfolding calls
calls-capacity [] t = refl
calls-capacity (c ∷ cs) t = calls-capacity cs (call c t) ∙ call-capacity c t

journal_of :
    (uninitialized : ℕ → TraceRecord) (capacity : ℕ) (cs : List Call)
    → 1 < capacity
    → capacity ≤ 2 ^ 63
    → length cs < u64_mod
    → IsJournal (calls cs (new uninitialized capacity)) (notes cs new_journal)
journal_of uninitialized capacity cs wide small few =
    calls-IsJournal cs (new uninitialized capacity) new_journal
      (new-IsJournal uninitialized capacity wide small) (omega arith)

trace-call-discard :
    (t : HopTracer) (j : Journal)
    → IsJournal t j
    → (m : Marks) → j.current ≡ some m
    → t.capacity ≤ length j.finished
    → marks_of (trace 0 (discard_trace t)) ≡ m
unfolding call note discard_trace
trace-call-discard t j v m e full =
    ap marks_of
      (oldest_place (call Call.discard t) (note Call.discard j) (discard-IsJournal t j v) full)
    ∙ v.current m e

-- Whatever the calls of a new tracer, of a capacity from 2 to 2 ^ 63: the ring gives as many of the
-- traces that ended as fit it, and gives the last ones in the order in which they ended. The first
-- one that it gives is among them as long as fewer ended than fit.
pub trace-finished :
    (uninitialized : ℕ → TraceRecord) (capacity : ℕ) (cs : List Call) (idx : ℕ)
    → 1 < capacity
    → capacity ≤ 2 ^ 63
    → length cs < u64_mod
    → idx < count (calls cs (new uninitialized capacity))
    → (0 < idx) ⊎ (length (notes cs new_journal).finished < round_up_pow2 capacity)
    → let t = calls cs (new uninitialized capacity) in
      let finished = (notes cs new_journal).finished in
      (count t ≡ min (length finished) (round_up_pow2 capacity))
      × (marks_of (trace idx t) ≡ get_or finished (count t - 1 - idx) no_marks)
trace-finished uninitialized capacity cs idx wide small few lt side =
    let t = calls cs (new uninitialized capacity) in
    let j = notes cs new_journal in
    let v = journal_of uninitialized capacity cs wide small few in
    let size : t.capacity ≡ round_up_pow2 capacity =
      calls-capacity cs (new uninitialized capacity) in
    let fits : (0 < idx) ⊎ (length j.finished < t.capacity) = rw size side in
    (count_lem t j v ∙ ap (min (length j.finished)) size, trace_lem t j v idx lt fits)

-- In a ring that is full, a trace that is discarded has taken the place of the oldest one: the ring
-- gives it as its first trace, though it never ended. The capacity is from 2 to 2 ^ 63.
pub trace-discarded :
    (uninitialized : ℕ → TraceRecord) (capacity : ℕ) (cs : List Call) (m : Marks)
    → 1 < capacity
    → capacity ≤ 2 ^ 63
    → length cs < u64_mod
    → (notes cs new_journal).current ≡ some m
    → round_up_pow2 capacity ≤ length (notes cs new_journal).finished
    → marks_of (trace 0 (discard_trace (calls cs (new uninitialized capacity)))) ≡ m
trace-discarded uninitialized capacity cs m wide small few taken' full =
    let t = calls cs (new uninitialized capacity) in
    let size : t.capacity ≡ round_up_pow2 capacity =
      calls-capacity cs (new uninitialized capacity) in
    trace-call-discard t (notes cs new_journal)
      (journal_of uninitialized capacity cs wide small few) m taken' (omega (arith, size))
