-- ===== src/TscSync/Tests.antt =====
-- A measurement with one sample, and what the theorems say of it.
use Prim.Native.String.{String}
use text.Mathlib.Text.{◌==◌}
use nanosecond_trading_stack.Common.{
  ℕ, if◌then◌else◌, ◌≡◌, refl, true, Option, some, List, [], ◌∷◌, arith,
}
use nanosecond_trading_stack.TscSync.Handshake.{
  System, Reach, begun, later, tick, ref_step, target_step, is_ready, read_start, no_more,
  store_request, see_ack, read_end, load_tsc, keep_best, store_stop, bump_request, store_ready,
  go_on, see_request, read_tsc, store_tsc, store_aux, store_ack,
}
use nanosecond_trading_stack.TscSync.Skew.{IsVerdict, measure_pair-bounds}
use nanosecond_trading_stack.TscSync.Progress.{Answers, awaiting-Answers}
use nanosecond_trading_stack.TscSync.Report.{Settings, all_pass}
use nanosecond_trading_stack.TscSync.Report as Report
use nanosecond_trading_stack.TscSync.{Config, pair_stats, tsc_delta, take_sample, leb_int64}

abbrev one_sample : Config
one_sample = record { reference_core = 0; samples = 1; warmup = 0; threshold_cycles = 10 }

record Run : Type 0 where
  last : System
  reach : Reach one_sample 7 last

-- The target is 7 cycles ahead; it reads its counter 20 cycles after the start, of 50.
abbrev measured : Run
measured = record {
  last = _;
  reach =
      later
        (later
          (later
            (later
              (later
                (later
                  (later
                    (later
                      (later
                        (later
                          (later
                            (later
                              (later
                                (later
                                  (later
                                    (later
                                      (later
                                        (later
                                          (later (begun 1000 (omega arith))
                                            (target_step store_ready))
                                          (ref_step (is_ready refl)))
                                        (ref_step (read_start 0 (omega arith))))
                                      (target_step (go_on refl)))
                                    (ref_step store_request))
                                  (target_step (see_request (λ e. absurd (omega (arith, e))))))
                                (tick 20 (omega arith)))
                              (target_step (read_tsc 3)))
                            (target_step store_tsc))
                          (target_step store_aux))
                        (target_step store_ack))
                      (ref_step (see_ack refl)))
                    (tick 30 (omega arith)))
                  (ref_step (read_end (omega arith))))
                (ref_step load_tsc))
              (ref_step keep_best))
            (ref_step (no_more (omega arith))))
          (ref_step store_stop))
        (ref_step bump_request);
}

measured_offset : (pair_stats one_sample 1 measured.last.best).best_offset_cycles ≡ 2
unfolding pair_stats take_sample tsc_delta
measured_offset = refl

measure_pair-bounds_example :
    let st = pair_stats one_sample 1 measured.last.best in
    (leb_int64 st.low_bound_cycles 7 ≡ true)
    × (leb_int64 7 st.high_bound_cycles ≡ true)
    × IsVerdict 7 one_sample st
measure_pair-bounds_example =
    measure_pair-bounds 7 one_sample 1 measured.last (omega arith, omega arith) (omega arith)
      (omega arith) (omega arith) measured.reach refl

abbrev number : String → Option ℕ
number _ = some 1

abbrev value_of : String → ℕ
value_of v = if v == "0" then 0 else if v == "10" then 10 else 1

abbrev command_line : List String
command_line =
    "--cores" ∷ "1" ∷ "--samples" ∷ "1" ∷ "--warmup" ∷ "0" ∷ "--threshold-cycles" ∷ "10" ∷ []

abbrev settings : Settings
settings = record { config = one_sample; cores = 1 ∷ [] }

abbrev skew : ℕ → ℕ
skew _ = 7

-- The reference core waits and the target has not seen the request.
abbrev asked : Run
asked = record {
  last = _;
  reach =
      later
        (later
          (later (later (begun 1000 (omega arith)) (target_step store_ready))
            (ref_step (is_ready refl)))
          (ref_step (read_start 0 (omega arith))))
        (ref_step store_request);
}

awaiting-Answers_example : Answers 1007 1 asked.last.mem asked.last.target
awaiting-Answers_example =
    awaiting-Answers 7 one_sample asked.last 0 0 1000 (omega arith) asked.reach refl
