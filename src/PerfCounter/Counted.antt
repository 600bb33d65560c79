-- ===== src/PerfCounter/Counted.antt =====
-- src/perf_counter.cpp: the totals behind a `PmuProfileScope`.
use Prim.Native.String.{String}
use nanosecond_trading_stack.Common.{
  ℕ, ◌≡◌, refl, sym, ap, ◌∙◌, Bool, true, false, not, ◌&&◌, ◌||◌, Option, none, some, List, [], ◌∷◌,
  ◌++◌, if◌then◌else◌, add64, Bool-cases, Option-cases, All, inl, inr, arith, ==_refl, ==→eq,
  get_or, subst,
}
use nanosecond_trading_stack.PerfCounter.Scope.{
  PmuProfileTotals, same_event, event_index, group_events, enabled_events, Pmu, pmu_counter,
  control_events, accumulate_events, end_scope,
}
use nanosecond_trading_stack.PerfCounter.{
  PerfEvent, cpu_cycles, instructions, cache_references, cache_misses, branches, branch_misses,
  page_faults, l1d_loads, l1d_load_misses, l1d_stores, llc_loads, llc_load_misses, llc_stores,
  llc_store_misses, PerfNumbers, Kernel, PerfCounter, Request, disable_count, init, read_value,
  core, cache, l1d, llc, pmu_event_enabled,
}

abbrev has_event : PerfEvent → List PerfEvent → Bool
has_event e [] = false
has_event e (x ∷ xs) = same_event e x || has_event e xs

abbrev distinct : List PerfEvent → Bool
distinct [] = true
distinct (x ∷ xs) = not (has_event x xs) && distinct xs

event_at : ℕ → PerfEvent
event_at i =
    get_or
      (cpu_cycles ∷ instructions ∷ cache_references ∷ cache_misses ∷ branches ∷ branch_misses
        ∷ page_faults ∷ l1d_loads ∷ l1d_load_misses ∷ l1d_stores ∷ llc_loads ∷ llc_load_misses
        ∷ llc_stores ∷ llc_store_misses ∷ [])
      i cpu_cycles

event_at-event_index : (e : PerfEvent) → event_at (event_index e) ≡ e
unfolding event_at
event_at-event_index cpu_cycles = refl
event_at-event_index instructions = refl
event_at-event_index cache_references = refl
event_at-event_index cache_misses = refl
event_at-event_index branches = refl
event_at-event_index branch_misses = refl
event_at-event_index page_faults = refl
event_at-event_index l1d_loads = refl
event_at-event_index l1d_load_misses = refl
event_at-event_index l1d_stores = refl
event_at-event_index llc_loads = refl
event_at-event_index llc_load_misses = refl
event_at-event_index llc_stores = refl
event_at-event_index llc_store_misses = refl

same_event→eq : (a b : PerfEvent) → same_event a b ≡ true → a ≡ b
same_event→eq a b h =
    sym (event_at-event_index a)
    ∙ (ap event_at (==→eq (event_index a) (event_index b) h) ∙ event_at-event_index b)

chosen : Bool → Bool → Bool → Bool → List PerfEvent
chosen a b c d =
    (if a then group_events core else [])
    ++ ((if b then group_events cache else [])
        ++ ((if c then group_events l1d else []) ++ (if d then group_events llc else [])))

chosen-distinct : (a b c d : Bool) → distinct (chosen a b c d) ≡ true
unfolding chosen
chosen-distinct true true true true = refl
chosen-distinct true true true false = refl
chosen-distinct true true false true = refl
chosen-distinct true true false false = refl
chosen-distinct true false true true = refl
chosen-distinct true false true false = refl
chosen-distinct true false false true = refl
chosen-distinct true false false false = refl
chosen-distinct false true true true = refl
chosen-distinct false true true false = refl
chosen-distinct false true false true = refl
chosen-distinct false true false false = refl
chosen-distinct false false true true = refl
chosen-distinct false false true false = refl
chosen-distinct false false false true = refl
chosen-distinct false false false false = refl

enabled_events-distinct : (env : Option String) → distinct (enabled_events env) ≡ true
unfolding enabled_events chosen
enabled_events-distinct env =
    chosen-distinct (pmu_event_enabled env core) (pmu_event_enabled env cache)
      (pmu_event_enabled env l1d) (pmu_event_enabled env llc)

module _ {ℓ} {K : Type ℓ} (kernel : Kernel K) (n : PerfNumbers) where
  -- The counters of the events are there.
  abbrev IsReady : List PerfEvent → Pmu K → Type 0
  IsReady es s = All (λ e. (c : PerfCounter) × (s.counters e ≡ some c)) es

  -- What a counter gives now.
  abbrev pub reading : PerfEvent → Pmu K → ℕ
  reading e s = elim (s.counters e) [ none ↦ 0 | some c ↦ read_value kernel c s.kernel_state ]

  pmu_counter-ready :
      (e : PerfEvent) (s : Pmu K) (c : PerfCounter)
      → s.counters e ≡ some c
      → pmu_counter kernel n e s ≡ (c, s)
  unfolding pmu_counter
  pmu_counter-ready e s c h = rw (h, pmu_counter) refl

  -- Counters that are there are read, and nothing else happens.
  accumulate_events-IsReady :
      (es : List PerfEvent) (totals : PmuProfileTotals) (s : Pmu K)
      → IsReady es s
      → (accumulate_events kernel n es totals s).1 ≡ s
  unfolding accumulate_events
  accumulate_events-IsReady [] totals s h = refl
  accumulate_events-IsReady (e ∷ es) totals s ((c, h), hs) =
      rw (pmu_counter-ready e s c h, accumulate_events) (accumulate_events-IsReady es _ s hs)

  accumulate_events-calls :
      (es : List PerfEvent) (totals : PmuProfileTotals) (s : Pmu K)
      → (accumulate_events kernel n es totals s).0.calls ≡ totals.calls
  unfolding accumulate_events
  accumulate_events-calls [] totals s = refl
  accumulate_events-calls (e ∷ es) totals s = accumulate_events-calls es _ _

  accumulate_events_others :
      (es : List PerfEvent) (e : PerfEvent) (totals : PmuProfileTotals) (s : Pmu K)
      → has_event e es ≡ false
      → (accumulate_events kernel n es totals s).0.counts e ≡ totals.counts e
  unfolding accumulate_events
  accumulate_events_others [] e totals s h = refl
  accumulate_events_others (x ∷ es) e totals s h =
      let other : same_event e x ≡ false = ground arith in
      let rest : has_event e es ≡ false = ground arith in
      accumulate_events_others es e _ _ rest ∙ rw other refl

  -- A counter that is there is added once.
  accumulate_events-counts :
      (es : List PerfEvent) (e : PerfEvent) (totals : PmuProfileTotals) (s : Pmu K)
      → IsReady es s
      → distinct es ≡ true
      → has_event e es ≡ true
      → (accumulate_events kernel n es totals s).0.counts e ≡ add64 (totals.counts e) (reading e s)
  unfolding accumulate_events
  accumulate_events-counts [] e totals s h once there = cc there
  accumulate_events-counts (x ∷ es) e totals s ((c, h), hs) once there =
      let gone : has_event x es ≡ false = ground arith in
      let once' : distinct es ≡ true = ground arith in
      elim (Bool-cases (same_event e x)) [
        | inl same ↦
            let e≡x = same_event→eq e x same in
            let at : reading x s ≡ read_value kernel c s.kernel_state = rw (h, reading) refl in
            subst
              (λ y.
                (accumulate_events kernel n (x ∷ es) totals s).0.counts y
                ≡ add64 (totals.counts y) (reading y s))
              (sym e≡x)
              (rw (pmu_counter-ready x s c h, accumulate_events)
                (accumulate_events_others es x _ s gone ∙ rw (==_refl (event_index x), at) refl))
        | inr other ↦
            rw (pmu_counter-ready x s c h, accumulate_events)
              (accumulate_events-counts es e _ s hs once' (ground arith) ∙ rw other refl)
      ]

  -- A counter that is there stays.
  abbrev Keeps : Pmu K → Pmu K → Type 0
  Keeps s s' = (e : PerfEvent) (c : PerfCounter) → s.counters e ≡ some c → s'.counters e ≡ some c

  pmu_counter-Keeps : (e : PerfEvent) (s : Pmu K) → Keeps s (pmu_counter kernel n e s).1
  unfolding pmu_counter
  pmu_counter-Keeps e s e' c h = elim (Option-cases (s.counters e)) [
    | inl new ↦ elim (Bool-cases (same_event e' e)) [
      | inl same ↦
          let clash : none ≡ some c =
            sym new ∙ (ap s.counters (sym (same_event→eq e' e same)) ∙ h) in
          cc clash
      | inr other ↦ rw (new, other, pmu_counter) h
    ]
    | inr (c', old) ↦ rw (old, pmu_counter) h
  ]

  pmu_counter-there :
      (e : PerfEvent) (s : Pmu K)
      → (c : PerfCounter) × ((pmu_counter kernel n e s).1.counters e ≡ some c)
  unfolding pmu_counter
  pmu_counter-there e s = elim (Option-cases (s.counters e)) [
    | inl new ↦
        ((init kernel n e s.kernel_state).0, rw (new, ==_refl (event_index e), pmu_counter) refl)
    | inr (c, old) ↦ (c, rw (old, pmu_counter) old)
  ]

  control_events-Keeps :
      (request : Request) (es : List PerfEvent) (s : Pmu K)
      → Keeps s (control_events kernel n request es s)
  unfolding control_events
  control_events-Keeps request [] s e c h = h
  control_events-Keeps request (x ∷ es) s e c h =
      control_events-Keeps request es _ e c (pmu_counter-Keeps x s e c h)

  control_events-IsReady :
      (request : Request) (es : List PerfEvent) (s : Pmu K)
      → IsReady es (control_events kernel n request es s)
  unfolding control_events
  control_events-IsReady request [] s = tt
  control_events-IsReady request (x ∷ es) s =
      let (c, there) = pmu_counter-there x s in
      ((c, control_events-Keeps request es _ x c there), control_events-IsReady request es _)

  -- The end of a scope counts the call and adds to each event of the enabled groups what its counter
  -- gives once all of them are off, modulo 2 ^ 64; the totals of the other events stay.
  end_scope-counts :
      (env : Option String) (totals : PmuProfileTotals) (s : Pmu K) (e : PerfEvent)
      → let (totals', s') = end_scope kernel n env totals s in
        (totals'.calls ≡ add64 totals.calls 1)
        × (totals'.counts e ≡ (
            if has_event e (enabled_events env)
            then add64 (totals.counts e) (reading e s')
            else totals.counts e))
        × (s' ≡ control_events kernel n disable_count (enabled_events env) s)
  unfolding end_scope
  end_scope-counts env totals s e =
      let es = enabled_events env in
      let off = control_events kernel n disable_count es s in
      let ready = control_events-IsReady disable_count es s in
      let counted = record totals { calls = add64 totals.calls 1 } in
      let still = accumulate_events-IsReady es counted off ready in
      (
        accumulate_events-calls es counted off,
        elim (Bool-cases (has_event e es)) [
          | inl there ↦
              rw (there, still)
                (accumulate_events-counts es e counted off ready (enabled_events-distinct env)
                  there)
          | inr gone ↦ rw gone (accumulate_events_others es e counted off gone)
        ],
        still,
      )
