-- ===== src/PerfCounter/Printed.antt =====
-- src/perf_counter.cpp: the counters in the report and those of the scopes.
use Prim.Native.String.{String}
use nanosecond_trading_stack.Common.{
  ℕ, ◌≡◌, refl, ap, ap₂, Bool, true, false, Option, List, [], ◌∷◌, ◌++◌, if◌then◌else◌, map, arith,
}
use nanosecond_trading_stack.Double.{Double}
use nanosecond_trading_stack.PerfCounter.Report.{
  CounterLine, perf_event_name, print_pmu_profile_totals, core_lines, cache_lines, l1d_lines,
  llc_lines, is_unknown_group,
}
use nanosecond_trading_stack.PerfCounter.Scope.{PmuProfileTotals, enabled_events, group_events}
use nanosecond_trading_stack.PerfCounter.{
  PerfEvent, Group, core, cache, l1d, llc, pmu_event_enabled,
}

map-append {ℓ κ} :
    {A : Type ℓ} {B : Type κ} (f : A → B) (xs ys : List A) → map f (xs ++ ys) ≡ map f xs ++ map f ys
map-append f [] ys = refl
map-append f (x ∷ xs) ys = ap (λ l. f x ∷ l) (map-append f xs ys)

abbrev pub counted : PmuProfileTotals → PerfEvent → String × ℕ
counted t e = (perf_event_name e, t.counts e)

-- Where the warning is printed, no counter is enabled.
is_unknown_group-none :
    (env : Option String) → is_unknown_group env ≡ true → enabled_events env ≡ []
unfolding is_unknown_group enabled_events
is_unknown_group-none env h = ground arith

abbrev pub shown {ℓ} : {D : Type ℓ} → CounterLine D → String × ℕ
shown l = (l.event, l.value)

module _ {ℓ} (D : Type ℓ) ⦃d : Double D⦄ where
  abbrev group_lines : Group → PmuProfileTotals → List (CounterLine D)
  group_lines core t = core_lines t
  group_lines cache t = cache_lines t
  group_lines l1d t = l1d_lines t
  group_lines llc t = llc_lines t

  shown-group :
      (g : Group) (b : Bool) (t : PmuProfileTotals)
      → map shown (if b then group_lines g t else [])
        ≡ map (counted t) (if b then group_events g else [])
  shown-group core true t = refl
  shown-group cache true t = refl
  shown-group l1d true t = refl
  shown-group llc true t = refl
  shown-group core false t = refl
  shown-group cache false t = refl
  shown-group l1d false t = refl
  shown-group llc false t = refl

  map-append₂ :
      (t : PmuProfileTotals) (xs ys : List (CounterLine D)) (us vs : List PerfEvent)
      → map shown xs ≡ map (counted t) us
      → map shown ys ≡ map (counted t) vs
      → map shown (xs ++ ys) ≡ map (counted t) (us ++ vs)
  map-append₂ t xs ys us vs h k =
      rw (map-append shown xs ys, map-append (counted t) us vs) (ap₂ (λ l r. l ++ r) h k)

  -- Behind the calls, the report shows just the events that the scopes count, in the order of the
  -- groups and each with its name and total.
  pub print_pmu_profile_totals-shown :
      (env : Option String) (t : PmuProfileTotals)
      → map shown (print_pmu_profile_totals {D = D} env t)
        ≡ ("calls", t.calls) ∷ map (counted t) (enabled_events env)
  unfolding print_pmu_profile_totals enabled_events
  print_pmu_profile_totals-shown env t =
      let part = λ (g : Group). shown-group g (pmu_event_enabled env g) t in
      ap (λ l. ("calls", t.calls) ∷ l)
        (map-append₂ t _ _ _ _ (part core)
          (map-append₂ t _ _ _ _ (part cache) (map-append₂ t _ _ _ _ (part l1d) (part llc))))
