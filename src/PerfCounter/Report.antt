-- ===== src/PerfCounter/Report.antt =====
-- src/perf_counter.cpp: the lines of `print_pmu_profile_totals`, as values. How `fprintf` writes a
-- number is not modelled.
use Prim.Native.String.{String}
use nanosecond_trading_stack.Common.{
  ℕ, Bool, not, ◌&&◌, Option, none, some, List, [], ◌∷◌, ◌++◌, ◌==◌, if◌then◌else◌,
}
use nanosecond_trading_stack.Double.{Double}
use nanosecond_trading_stack.PerfCounter.Scope.{PmuProfileTotals}
use nanosecond_trading_stack.PerfCounter.{
  PerfEvent, cpu_cycles, instructions, cache_references, cache_misses, branches, branch_misses,
  page_faults, l1d_loads, l1d_load_misses, l1d_stores, llc_loads, llc_load_misses, llc_stores,
  llc_store_misses, core, cache, l1d, llc, pmu_event_enabled, pmu_group_is,
}

-- `perf_event_name`
abbrev pub perf_event_name : PerfEvent → String
perf_event_name cpu_cycles = "cycles"
perf_event_name instructions = "instructions"
perf_event_name cache_references = "cache-references"
perf_event_name cache_misses = "cache-misses"
perf_event_name branches = "branches"
perf_event_name branch_misses = "branch-misses"
perf_event_name page_faults = "page-faults"
perf_event_name l1d_loads = "L1-dcache-loads"
perf_event_name l1d_load_misses = "L1-dcache-load-misses"
perf_event_name l1d_stores = "L1-dcache-stores"
perf_event_name llc_loads = "LLC-loads"
perf_event_name llc_load_misses = "LLC-load-misses"
perf_event_name llc_stores = "LLC-stores"
perf_event_name llc_store_misses = "LLC-store-misses"

-- A comment: a number, and the text behind it.
pub record Comment {ℓ} (D : Type ℓ) : Type ℓ where
  pub number : D
  pub text : String

pub record CounterLine {ℓ} (D : Type ℓ) : Type ℓ where
  pub value : ℕ
  pub event : String
  pub comment : Option (Comment D)

module _ {ℓ} {D : Type ℓ} ⦃d : Double D⦄ where
  open d use {zero_d, mul, div, of_uint}

  unfoldable pub pmu_ratio : ℕ → ℕ → D
  pmu_ratio numerator denominator =
      if denominator == 0
      then zero_d
      else div (mul (of_uint 100) (of_uint numerator)) (of_uint denominator)

  unfoldable pub pmu_per_call : ℕ → ℕ → D
  pmu_per_call value calls = if calls == 0 then zero_d else div (of_uint value) (of_uint calls)

  abbrev pub plain : PerfEvent → PmuProfileTotals → CounterLine D
  plain e t = record { value = t.counts e; event = perf_event_name e; comment = none }

  abbrev pub commented : PerfEvent → D → String → PmuProfileTotals → CounterLine D
  commented e number text t = record {
    value = t.counts e;
    event = perf_event_name e;
    comment = some (record { number = number; text = text });
  }

  abbrev pub core_lines : PmuProfileTotals → List (CounterLine D)
  core_lines t =
      commented cpu_cycles (pmu_per_call (t.counts cpu_cycles) t.calls) "cycles per call" t
      ∷ commented instructions (pmu_per_call (t.counts instructions) (t.counts cpu_cycles))
          "insn per cycle" t
      ∷ plain branches t
      ∷ commented branch_misses (pmu_ratio (t.counts branch_misses) (t.counts branches))
          "% of all branches" t
      ∷ plain page_faults t
      ∷ []

  abbrev pub cache_lines : PmuProfileTotals → List (CounterLine D)
  cache_lines t =
      plain cache_references t
      ∷ commented cache_misses (pmu_ratio (t.counts cache_misses) (t.counts cache_references))
          "% of all cache refs" t
      ∷ []

  abbrev pub l1d_lines : PmuProfileTotals → List (CounterLine D)
  l1d_lines t =
      plain l1d_loads t
      ∷ commented l1d_load_misses (pmu_ratio (t.counts l1d_load_misses) (t.counts l1d_loads))
          "% of all L1D loads" t
      ∷ plain l1d_stores t
      ∷ []

  abbrev pub llc_lines : PmuProfileTotals → List (CounterLine D)
  llc_lines t =
      plain llc_loads t
      ∷ commented llc_load_misses (pmu_ratio (t.counts llc_load_misses) (t.counts llc_loads))
          "% of all LLC loads" t
      ∷ plain llc_stores t
      ∷ commented llc_store_misses (pmu_ratio (t.counts llc_store_misses) (t.counts llc_stores))
          "% of all LLC stores" t
      ∷ []

  unfoldable pub print_pmu_profile_totals : Option String → PmuProfileTotals → List (CounterLine D)
  print_pmu_profile_totals env t =
      record { value = t.calls; event = "calls"; comment = none }
        ∷ (if pmu_event_enabled env core then core_lines t else [])
      ++ ((if pmu_event_enabled env cache then cache_lines t else [])
          ++ ((if pmu_event_enabled env l1d then l1d_lines t else [])
              ++ (if pmu_event_enabled env llc then llc_lines t else [])))

-- Whether the warning about the name of the group is printed.
unfoldable pub is_unknown_group : Option String → Bool
is_unknown_group env =
    not (pmu_group_is env "core")
    && not (pmu_group_is env "cache")
    && not (pmu_group_is env "l1d")
    && not (pmu_group_is env "llc")
    && not (pmu_group_is env "all")
