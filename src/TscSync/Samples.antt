-- ===== src/TscSync/Samples.antt =====
-- The samples that the two threads of tools/tsc_sync_check.cpp take, in every state.
use nanosecond_trading_stack.Common.{
  ℕ, ◌+◌, ◌-◌, ◌/◌, ◌%◌, ◌<◌, ◌≤◌, ◌≡◌, ◌⊎◌, inl, inr, refl, u64_mod, ◌^◌, arith, Bool-cases, ltb,
  sub64, add64,
}
use nanosecond_trading_stack.TscSync.Handshake.{
  System, Step, Reach, tick, ref_step, target_step, begun, later, Shared, RefPc, TargetPc, RefMove,
  counter_limit, total_samples, await_ready, at_top, requesting, awaiting, reading_end, loading_tsc,
  loading_aux, stopping, bumping, joining, pinning, polling, loading, reading, storing_tsc,
  storing_aux, storing_ack, ended, wait_ready, is_ready, read_start, no_more, store_request,
  wait_ack, see_ack, warm_up, read_end, load_tsc, keep_best, store_stop, bump_request,
}
use nanosecond_trading_stack.TscSync.{Config, Sample, Best, u64_max, tsc_delta, take_sample}
use nanosecond_trading_stack.TscSync.Invariant.{
  IsRead, IsRead-mono, IsPhase, IsAsked, TargetMove-IsPhase, see_ack-IsCalm, store_request-IsAsked,
}

-- The round that `measure_pair` is in.
abbrev pub round_of : Config → RefPc → ℕ
round_of cfg await_ready = 0
round_of cfg (at_top i) = i
round_of cfg (requesting i _ _) = i
round_of cfg (awaiting i _ _) = i
round_of cfg (reading_end i _ _) = i
round_of cfg (loading_tsc i _ _ _) = i
round_of cfg (loading_aux i _ _ _ _) = i
round_of cfg stopping = total_samples cfg
round_of cfg bumping = total_samples cfg
round_of cfg joining = total_samples cfg

module _ (skew : ℕ) where
  -- A sample is what one round trip measured.
  abbrev pub IsMeasured : Sample → Type 0
  IsMeasured sample =
      (start : ℕ) × (x : ℕ) × (end : ℕ) × (start ≤ x)
      × (x ≤ end)
      × (end < counter_limit)
      × (sample.roundtrip_cycles ≡ end - start)
      × (sample.offset_cycles ≡ tsc_delta ((x + skew) % u64_mod) (start + (end - start) / 2))

  -- From the round after the warm-up on there is a sample.
  abbrev pub HasBest : Config → ℕ → Best → Type 0
  HasBest cfg i best =
      IsMeasured best.sample ⊎ ((best.sample.roundtrip_cycles ≡ u64_max) × (i ≤ cfg.warmup))

  take_sample-HasBest :
      (cfg : Config) (start aux end tsc target_aux i : ℕ) (best : Best)
      → end < counter_limit
      → IsRead skew start end tsc
      → HasBest cfg i best
      → HasBest cfg (i + 1) (take_sample start aux end tsc target_aux best)
  unfolding take_sample
  take_sample-HasBest cfg start aux end tsc target_aux i best small (x, a, b, e) h =
      let trip : sub64 end start ≡ end - start = omega arith in
      let middle : add64 start ((end - start) / 2) ≡ start + (end - start) / 2 = omega arith in
      elim (Bool-cases (ltb (sub64 end start) best.sample.roundtrip_cycles)) [
        | inl better ↦ rw better (inl (start, x, end, a, b, small, trip, rw (trip, middle, e) refl))
        | inr worse ↦ elim h [
          | inl m ↦ rw worse (inl m)
          | inr (none_yet, _) ↦ absurd (ground (arith, trip, none_yet))
        ]
      ]

  -- The invariant of the two threads.
  pub record Inv (cfg : Config) (s : System) : Type 0 where
    pub small : s.now < counter_limit
    pub phase : IsPhase skew s.now s.mem s.ref s.target
    pub has_best : HasBest cfg (round_of cfg s.ref) s.best

  tick-IsAsked :
      (i start now n : ℕ) (m : Shared) (p : TargetPc)
      → IsAsked skew i start now m p
      → IsAsked skew i start (now + n) m p
  tick-IsAsked i start now n m pinning (go, r, le, h) = (go, r, omega arith, h)
  tick-IsAsked i start now n m (polling seen) (go, r, le, inl h) = (go, r, omega arith, inl h)
  tick-IsAsked i start now n m (polling seen) (go, r, le, inr (e, a, x)) =
      (go, r, omega arith, inr (e, a, IsRead-mono skew start now (now + n) _ (omega arith) x))
  tick-IsAsked i start now n m (loading seen) (go, r, le, inl h) = (go, r, omega arith, inl h)
  tick-IsAsked i start now n m (loading seen) (go, r, le, inr (e, a, x)) =
      (go, r, omega arith, inr (e, a, IsRead-mono skew start now (now + n) _ (omega arith) x))
  tick-IsAsked i start now n m (reading seq) (go, r, le, h) = (go, r, omega arith, h)
  tick-IsAsked i start now n m (storing_tsc seq tsc aux) (go, r, le, (e, a, x)) =
      (go, r, omega arith, (e, a, IsRead-mono skew start now (now + n) _ (omega arith) x))
  tick-IsAsked i start now n m (storing_aux seq aux) (go, r, le, (e, a, x)) =
      (go, r, omega arith, (e, a, IsRead-mono skew start now (now + n) _ (omega arith) x))
  tick-IsAsked i start now n m (storing_ack seq) (go, r, le, (e, a, x)) =
      (go, r, omega arith, (e, a, IsRead-mono skew start now (now + n) _ (omega arith) x))
  tick-IsAsked i start now n m ended (go, r, le, h) = absurd h

  tick-IsPhase :
      (now n : ℕ) (m : Shared) (r : RefPc) (p : TargetPc)
      → IsPhase skew now m r p
      → IsPhase skew (now + n) m r p
  tick-IsPhase now n m await_ready p h = h
  tick-IsPhase now n m (at_top i) p h = h
  tick-IsPhase now n m (requesting i aux start) p (c, le) = (c, omega arith)
  tick-IsPhase now n m (awaiting i aux start) p h = tick-IsAsked i start now n m p h
  tick-IsPhase now n m (reading_end i aux start) p (c, x) =
      (c, IsRead-mono skew start now (now + n) _ (omega arith) x)
  tick-IsPhase now n m (loading_tsc i aux start end) p (c, le, x) = (c, omega arith, x)
  tick-IsPhase now n m (loading_aux i aux start end tsc) p (c, le, x) = (c, omega arith, x)
  tick-IsPhase now n m stopping p h = tt
  tick-IsPhase now n m bumping p h = tt
  tick-IsPhase now n m joining p h = tt

  RefMove-IsPhase :
      {cfg : Config} (now : ℕ) {m m' : Shared} {best best' : Best} {r r' : RefPc} (p : TargetPc)
      → RefMove cfg now m best r m' best' r'
      → IsPhase skew now m r p
      → IsPhase skew now m' r' p
  RefMove-IsPhase now p (wait_ready _) h = h
  RefMove-IsPhase now p (is_ready _) h = h
  RefMove-IsPhase now p (read_start aux lt) h = (h, omega arith)
  RefMove-IsPhase now p (no_more _) h = tt
  RefMove-IsPhase now {m} p (store_request {i} {aux} {start}) (c, le) =
      store_request-IsAsked skew i start now m p le c
  RefMove-IsPhase now p (wait_ack _) h = h
  RefMove-IsPhase now {m} p (see_ack {i} {aux} {start} at) h =
      see_ack-IsCalm skew i start now m p at h
  RefMove-IsPhase now p (warm_up _) (c, _) = c
  RefMove-IsPhase now p (read_end _) (c, x) = (c, omega arith, x)
  RefMove-IsPhase now p load_tsc h = h
  RefMove-IsPhase now p keep_best (c, _, _) = c
  RefMove-IsPhase now p store_stop h = tt
  RefMove-IsPhase now p bump_request h = tt

  RefMove-HasBest :
      {cfg : Config} (now : ℕ) {m m' : Shared} {best best' : Best} {r r' : RefPc} (p : TargetPc)
      → RefMove cfg now m best r m' best' r'
      → cfg.warmup + cfg.samples < 2 ^ 31
      → now < counter_limit
      → IsPhase skew now m r p
      → HasBest cfg (round_of cfg r) best
      → HasBest cfg (round_of cfg r') best'
  RefMove-HasBest now p (wait_ready _) fits small ph h = h
  RefMove-HasBest now p (is_ready _) fits small ph h = h
  RefMove-HasBest now p (read_start aux lt) fits small ph h = h
  RefMove-HasBest now p (no_more le) fits small ph (inl h) = inl h
  RefMove-HasBest now p (no_more le) fits small ph (inr (e, h)) = inr (e, omega arith)
  RefMove-HasBest now p store_request fits small ph h = h
  RefMove-HasBest now p (wait_ack _) fits small ph h = h
  RefMove-HasBest now p (see_ack _) fits small ph h = h
  RefMove-HasBest now p (warm_up lt) fits small ph (inl h) = inl h
  RefMove-HasBest now p (warm_up lt) fits small ph (inr (e, h)) = inr (e, omega arith)
  RefMove-HasBest now p (read_end _) fits small ph h = h
  RefMove-HasBest now p load_tsc fits small ph h = h
  RefMove-HasBest {cfg} now {m} {best} p (keep_best {i} {aux} {start} {end} {tsc}) fits small
        (_, le, x) h =
      take_sample-HasBest cfg start aux end tsc m.target_aux i best (omega arith) x h
  RefMove-HasBest now p store_stop fits small ph h = h
  RefMove-HasBest now p bump_request fits small ph h = h

  pub Reach-Inv :
      {cfg : Config} {s : System} → cfg.warmup + cfg.samples < 2 ^ 31 → Reach cfg skew s → Inv cfg s
  Reach-Inv fits (begun now small) = record {
    small = small;
    phase = (refl, refl, refl, refl);
    has_best = inr (refl, omega arith);
  }
  Reach-Inv {cfg} fits (later r st) = step st (Reach-Inv fits r)
    where
      step : {s t : System} → Step cfg skew s t → Inv cfg s → Inv cfg t
      step {s} (tick n lt) v = record {
        small = lt;
        phase = tick-IsPhase s.now n s.mem s.ref s.target v.phase;
        has_best = v.has_best;
      }
      step {s} (ref_step mv) v = record {
        small = v.small;
        phase = RefMove-IsPhase s.now s.target mv v.phase;
        has_best = RefMove-HasBest s.now s.target mv fits v.small v.phase v.has_best;
      }
      step {s} (target_step mv) v = record {
        small = v.small;
        phase = TargetMove-IsPhase skew s.now s.ref mv v.phase;
        has_best = v.has_best;
      }
