-- ===== src/PerfCounter/Scope.antt =====
-- src/perf_counter.cpp: the counters of the program, and `PmuProfileScope`.
use Prim.Native.String.{String}
use nanosecond_trading_stack.Common.{
  ℕ, Bool, Option, none, some, List, [], ◌∷◌, ◌++◌, ◌==◌, if◌then◌else◌, add64,
}
use nanosecond_trading_stack.PerfCounter.{
  PerfEvent, cpu_cycles, instructions, cache_references, cache_misses, branches, branch_misses,
  page_faults, l1d_loads, l1d_load_misses, l1d_stores, llc_loads, llc_load_misses, llc_stores,
  llc_store_misses, PerfNumbers, Kernel, PerfCounter, Request, reset_count, enable_count,
  disable_count, init, control, read_value, Group, core, cache, l1d, llc, pmu_event_enabled,
}

pub record PmuProfileTotals : Type 0 where
  pub calls : ℕ
  pub counts : PerfEvent → ℕ  -- a field for each event

abbrev pub no_totals : PmuProfileTotals
no_totals = record { calls = 0; counts = λ _. 0 }

-- The position of an event among the fields.
abbrev pub event_index : PerfEvent → ℕ
event_index cpu_cycles = 0
event_index instructions = 1
event_index cache_references = 2
event_index cache_misses = 3
event_index branches = 4
event_index branch_misses = 5
event_index page_faults = 6
event_index l1d_loads = 7
event_index l1d_load_misses = 8
event_index l1d_stores = 9
event_index llc_loads = 10
event_index llc_load_misses = 11
event_index llc_stores = 12
event_index llc_store_misses = 13

abbrev pub same_event : PerfEvent → PerfEvent → Bool
same_event a b = event_index a == event_index b

-- The lines of a group, in the order of the code.
abbrev pub group_events : Group → List PerfEvent
group_events core = cpu_cycles ∷ instructions ∷ branches ∷ branch_misses ∷ page_faults ∷ []
group_events cache = cache_references ∷ cache_misses ∷ []
group_events l1d = l1d_loads ∷ l1d_load_misses ∷ l1d_stores ∷ []
group_events llc = llc_loads ∷ llc_load_misses ∷ llc_stores ∷ llc_store_misses ∷ []

abbrev pub if_enabled : Option String → Group → List PerfEvent
if_enabled env g = if pmu_event_enabled env g then group_events g else []

-- The four tests `if (pmu_event_enabled(...))` with the events below them.
unfoldable pub enabled_events : Option String → List PerfEvent
enabled_events env =
    if_enabled env core ++ (if_enabled env cache ++ (if_enabled env l1d ++ if_enabled env llc))

-- The kernel, and the `static` counters: one is there from its first use on.
pub record Pmu {ℓ} (K : Type ℓ) : Type ℓ where
  pub kernel_state : K
  pub counters : PerfEvent → Option PerfCounter

module _ {ℓ} {K : Type ℓ} (kernel : Kernel K) (n : PerfNumbers) where
  -- `pmu_cycles()` and the like.
  unfoldable pub pmu_counter : PerfEvent → Pmu K → PerfCounter × Pmu K
  pmu_counter e s = elim (s.counters e) [
    | some c ↦ (c, s)
    | none ↦
        let (c, k) = init kernel n e s.kernel_state in
        (
          c,
          record {
            kernel_state = k;
            counters = λ e'. if same_event e' e then some c else s.counters e';
          },
        )
  ]

  unfoldable pub control_events : Request → List PerfEvent → Pmu K → Pmu K
  unfolding pmu_counter
  control_events request [] s = s
  control_events request (e ∷ es) s =
      let (c, s') = pmu_counter e s in
      control_events request es
        (record s' { kernel_state = control kernel request c s'.kernel_state })

  unfoldable pub accumulate_events :
      List PerfEvent → PmuProfileTotals → Pmu K → PmuProfileTotals × Pmu K
  unfolding pmu_counter
  accumulate_events [] totals s = (totals, s)
  accumulate_events (e ∷ es) totals s =
      let (c, s') = pmu_counter e s in
      accumulate_events es
        (record totals {
          counts = λ e'.
              if same_event e' e
              then add64 (totals.counts e) (read_value kernel c s'.kernel_state)
              else totals.counts e';
        })
        s'

  -- `reset_enabled_pmu_counters` and `enable_enabled_pmu_counters`
  unfoldable pub begin_scope : Option String → Pmu K → Pmu K
  unfolding control_events enabled_events
  begin_scope env s =
      control_events enable_count (enabled_events env)
        (control_events reset_count (enabled_events env) s)

  -- `disable_enabled_pmu_counters` and `accumulate_enabled_pmu_counters`
  unfoldable pub end_scope : Option String → PmuProfileTotals → Pmu K → PmuProfileTotals × Pmu K
  unfolding accumulate_events control_events enabled_events
  end_scope env totals s =
      accumulate_events (enabled_events env) (record totals { calls = add64 totals.calls 1 })
        (control_events disable_count (enabled_events env) s)
