-- ===== src/TscSync/Invariant.antt =====
-- What holds in every state of the two threads of tools/tsc_sync_check.cpp.
use nanosecond_trading_stack.Common.{
  ℕ, ◌+◌, ◌%◌, ◌≤◌, ◌≡◌, ◌⊎◌, inl, inr, refl, sym, ◌∙◌, true, false, u64_mod, arith, subst,
}
use nanosecond_trading_stack.TscSync.Handshake.{
  Shared, RefPc, TargetPc, TargetMove, await_ready, at_top, requesting, awaiting, reading_end,
  loading_tsc, loading_aux, stopping, bumping, joining, pinning, polling, loading, reading,
  storing_tsc, storing_aux, storing_ack, ended, store_ready, see_stop, go_on, no_request,
  see_request, read_tsc, store_tsc, store_aux, store_ack,
}

module _ (skew : ℕ) where
  -- The counter of the target core was read between two moments of that of the reference core.
  abbrev pub IsRead : ℕ → ℕ → ℕ → Type 0
  IsRead start end tsc = (x : ℕ) × (start ≤ x) × (x ≤ end) × (tsc ≡ (x + skew) % u64_mod)

  pub IsRead-mono :
      (start end later tsc : ℕ) → end ≤ later → IsRead start end tsc → IsRead start later tsc
  IsRead-mono start end later tsc le (x, a, b, e) = (x, a, omega arith, e)

  -- The target has answered `i` requests and waits.
  abbrev pub IsIdle : ℕ → TargetPc → Type 0
  IsIdle i pinning = i ≡ 0
  IsIdle i (polling seen) = seen ≡ i
  IsIdle i (loading seen) = seen ≡ i
  IsIdle i (reading _) = ⊥
  IsIdle i (storing_tsc _ _ _) = ⊥
  IsIdle i (storing_aux _ _) = ⊥
  IsIdle i (storing_ack _) = ⊥
  IsIdle i ended = ⊥

  -- No request is open.
  abbrev pub IsCalm : ℕ → Shared → TargetPc → Type 0
  IsCalm i m p = (m.stop ≡ false) × (m.request ≡ i) × (m.ack ≡ i) × IsIdle i p

  -- Either the request `i + 1` is not seen yet, or it is answered.
  abbrev pub IsAnswered : ℕ → ℕ → ℕ → Shared → ℕ → Type 0
  IsAnswered i start now m seen =
      ((seen ≡ i) × (m.ack ≡ i))
      ⊎ ((seen ≡ i + 1) × (m.ack ≡ i + 1) × IsRead start now m.target_tsc)

  -- How far the target is with the request `i + 1`.
  abbrev pub IsBusy : ℕ → ℕ → ℕ → Shared → TargetPc → Type 0
  IsBusy i start now m pinning = (i ≡ 0) × (m.ack ≡ i)
  IsBusy i start now m (polling seen) = IsAnswered i start now m seen
  IsBusy i start now m (loading seen) = IsAnswered i start now m seen
  IsBusy i start now m (reading seq) = (seq ≡ i + 1) × (m.ack ≡ i)
  IsBusy i start now m (storing_tsc seq tsc aux) =
      (seq ≡ i + 1) × (m.ack ≡ i) × IsRead start now tsc
  IsBusy i start now m (storing_aux seq aux) =
      (seq ≡ i + 1) × (m.ack ≡ i) × IsRead start now m.target_tsc
  IsBusy i start now m (storing_ack seq) =
      (seq ≡ i + 1) × (m.ack ≡ i) × IsRead start now m.target_tsc
  IsBusy i start now m ended = ⊥

  abbrev pub IsAsked : ℕ → ℕ → ℕ → Shared → TargetPc → Type 0
  IsAsked i start now m p =
      (m.stop ≡ false) × (m.request ≡ i + 1) × (start ≤ now) × IsBusy i start now m p

  abbrev pub IsPhase : ℕ → Shared → RefPc → TargetPc → Type 0
  IsPhase now m await_ready p = IsCalm 0 m p
  IsPhase now m (at_top i) p = IsCalm i m p
  IsPhase now m (requesting i aux start) p = IsCalm i m p × (start ≤ now)
  IsPhase now m (awaiting i aux start) p = IsAsked i start now m p
  IsPhase now m (reading_end i aux start) p = IsCalm (i + 1) m p × IsRead start now m.target_tsc
  IsPhase now m (loading_tsc i aux start end) p =
      IsCalm (i + 1) m p × (end ≤ now) × IsRead start end m.target_tsc
  IsPhase now m (loading_aux i aux start end tsc) p =
      IsCalm (i + 1) m p × (end ≤ now) × IsRead start end tsc
  IsPhase now m stopping p = Unit
  IsPhase now m bumping p = Unit
  IsPhase now m joining p = Unit

  -- While no request is open, a step of the target opens none and leaves the counter it stored.
  TargetMove-IsCalm :
      (i : ℕ) {now : ℕ} {m m' : Shared} {p p' : TargetPc}
      → TargetMove now m p m' p'
      → IsCalm i m p
      → IsCalm i m' p' × (m'.target_tsc ≡ m.target_tsc)
  TargetMove-IsCalm i store_ready (go, r, a, e) = ((go, r, a, sym e), refl)
  TargetMove-IsCalm i (see_stop s) (go, r, a, e) = let clash : true ≡ false = sym s ∙ go in cc clash
  TargetMove-IsCalm i (go_on s) (go, r, a, e) = ((go, r, a, e), refl)
  TargetMove-IsCalm i (no_request s) (go, r, a, e) = ((go, r, a, e), refl)
  TargetMove-IsCalm i (see_request s) (go, r, a, e) = absurd (s (r ∙ sym e))
  TargetMove-IsCalm i (read_tsc aux) (go, r, a, e) = absurd e
  TargetMove-IsCalm i store_tsc (go, r, a, e) = absurd e
  TargetMove-IsCalm i store_aux (go, r, a, e) = absurd e
  TargetMove-IsCalm i store_ack (go, r, a, e) = absurd e

  -- While a request is open, a step of the target brings the answer on.
  TargetMove-IsAsked :
      (i start now : ℕ) {m m' : Shared} {p p' : TargetPc}
      → TargetMove ((now + skew) % u64_mod) m p m' p'
      → IsAsked i start now m p
      → IsAsked i start now m' p'
  TargetMove-IsAsked i start now store_ready (go, r, le, (e, a)) = (go, r, le, inl (sym e, a))
  TargetMove-IsAsked i start now (see_stop s) (go, _, _, _) =
      let clash : true ≡ false = sym s ∙ go in cc clash
  TargetMove-IsAsked i start now (go_on s) h = h
  TargetMove-IsAsked i start now (no_request s) h = h
  TargetMove-IsAsked i start now (see_request s) (go, r, le, inl (e, a)) = (go, r, le, (r, a))
  TargetMove-IsAsked i start now (see_request s) (go, r, le, inr (e, _, _)) = absurd (s (r ∙ sym e))
  TargetMove-IsAsked i start now (read_tsc aux) (go, r, le, (e, a)) =
      (go, r, le, (e, a, (now, le, omega arith, refl)))
  TargetMove-IsAsked i start now store_tsc (go, r, le, h) = (go, r, le, h)
  TargetMove-IsAsked i start now store_aux (go, r, le, h) = (go, r, le, h)
  TargetMove-IsAsked i start now store_ack (go, r, le, (e, a, x)) = (go, r, le, inr (e, e, x))

  pub TargetMove-IsPhase :
      (now : ℕ) (r : RefPc) {m m' : Shared} {p p' : TargetPc}
      → TargetMove ((now + skew) % u64_mod) m p m' p'
      → IsPhase now m r p
      → IsPhase now m' r p'
  TargetMove-IsPhase now await_ready mv h = (TargetMove-IsCalm 0 mv h).0
  TargetMove-IsPhase now (at_top i) mv h = (TargetMove-IsCalm i mv h).0
  TargetMove-IsPhase now (requesting i aux start) mv (c, le) = ((TargetMove-IsCalm i mv c).0, le)
  TargetMove-IsPhase now (awaiting i aux start) mv h = TargetMove-IsAsked i start now mv h
  TargetMove-IsPhase now (reading_end i aux start) mv (c, x) =
      let (c', same) = TargetMove-IsCalm (i + 1) mv c in (c', subst (IsRead start now) (sym same) x)
  TargetMove-IsPhase now (loading_tsc i aux start end) mv (c, le, x) =
      let (c', same) = TargetMove-IsCalm (i + 1) mv c in
      (c', le, subst (IsRead start end) (sym same) x)
  TargetMove-IsPhase now (loading_aux i aux start end tsc) mv (c, le, x) =
      ((TargetMove-IsCalm (i + 1) mv c).0, le, x)
  TargetMove-IsPhase now stopping mv h = tt
  TargetMove-IsPhase now bumping mv h = tt
  TargetMove-IsPhase now joining mv h = tt

  -- Where the acknowledgement of the open request is seen, the target waits, and its counter was
  -- read since the start.
  pub see_ack-IsCalm :
      (i start now : ℕ) (m : Shared) (p : TargetPc)
      → m.ack ≡ i + 1
      → IsAsked i start now m p
      → IsCalm (i + 1) m p × IsRead start now m.target_tsc
  see_ack-IsCalm i start now m pinning at (go, r, le, (_, a)) = absurd (omega (arith, at, a))
  see_ack-IsCalm i start now m (polling seen) at (go, r, le, inl (_, a)) =
      absurd (omega (arith, at, a))
  see_ack-IsCalm i start now m (polling seen) at (go, r, le, inr (e, a, x)) = ((go, r, a, e), x)
  see_ack-IsCalm i start now m (loading seen) at (go, r, le, inl (_, a)) =
      absurd (omega (arith, at, a))
  see_ack-IsCalm i start now m (loading seen) at (go, r, le, inr (e, a, x)) = ((go, r, a, e), x)
  see_ack-IsCalm i start now m (reading seq) at (go, r, le, (_, a)) = absurd (omega (arith, at, a))
  see_ack-IsCalm i start now m (storing_tsc seq tsc aux) at (go, r, le, (_, a, _)) =
      absurd (omega (arith, at, a))
  see_ack-IsCalm i start now m (storing_aux seq aux) at (go, r, le, (_, a, _)) =
      absurd (omega (arith, at, a))
  see_ack-IsCalm i start now m (storing_ack seq) at (go, r, le, (_, a, _)) =
      absurd (omega (arith, at, a))
  see_ack-IsCalm i start now m ended at (go, r, le, h) = absurd h

  -- A request is sent while the target waits.
  pub store_request-IsAsked :
      (i start now : ℕ) (m : Shared) (p : TargetPc)
      → start ≤ now
      → IsCalm i m p
      → IsAsked i start now (record m { request = i + 1 }) p
  store_request-IsAsked i start now m pinning le (go, r, a, e) = (go, refl, le, (e, a))
  store_request-IsAsked i start now m (polling seen) le (go, r, a, e) = (go, refl, le, inl (e, a))
  store_request-IsAsked i start now m (loading seen) le (go, r, a, e) = (go, refl, le, inl (e, a))
  store_request-IsAsked i start now m (reading _) le (go, r, a, e) = absurd e
  store_request-IsAsked i start now m (storing_tsc _ _ _) le (go, r, a, e) = absurd e
  store_request-IsAsked i start now m (storing_aux _ _) le (go, r, a, e) = absurd e
  store_request-IsAsked i start now m (storing_ack _) le (go, r, a, e) = absurd e
  store_request-IsAsked i start now m ended le (go, r, a, e) = absurd e
