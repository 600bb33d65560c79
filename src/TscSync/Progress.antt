-- ===== src/TscSync/Progress.antt =====
-- tools/tsc_sync_check.cpp: the steps of `target_loop` while `measure_pair` waits.
use nanosecond_trading_stack.Common.{
  ℕ, ◌+◌, ◌%◌, ◌^◌, ◌<◌, ◌≡◌, refl, true, false, inl, inr, subst, u64_mod, arith,
}
use nanosecond_trading_stack.TscSync.Handshake.{
  System, Reach, Shared, TargetPc, TargetMove, awaiting, pinning, polling, loading, reading,
  storing_tsc, storing_aux, storing_ack, ended, store_ready, go_on, see_request, read_tsc,
  store_tsc, store_aux, store_ack,
}
use nanosecond_trading_stack.TscSync.Invariant.{IsAsked}
use nanosecond_trading_stack.TscSync.Samples.{Reach-Inv}
use nanosecond_trading_stack.TscSync.{Config}

-- Steps of the target alone, with its counter at `now`.
pub data TargetRun (now : ℕ) : Shared → TargetPc → Shared → TargetPc → Type 0 where
  stays : {m : Shared} {p : TargetPc} → TargetRun now m p m p
  moves :
      {m m' m'' : Shared} {p p' p'' : TargetPc}
      → TargetMove now m p m' p'
      → TargetRun now m' p' m'' p''
      → TargetRun now m p m'' p''

-- The target alone brings the acknowledgement `seq` about.
abbrev pub Answers : ℕ → ℕ → Shared → TargetPc → Type 0
Answers now seq m p = (m' : Shared) × (p' : TargetPc) × TargetRun now m p m' p' × (m'.ack ≡ seq)

move-Answers :
    {now seq : ℕ} {m m' : Shared} {p p' : TargetPc}
    → TargetMove now m p m' p'
    → Answers now seq m' p'
    → Answers now seq m p
move-Answers mv (m, p, run, at) = (m, p, moves mv run, at)

storing_ack-Answers : (now seq : ℕ) (m : Shared) → Answers now seq m (storing_ack seq)
storing_ack-Answers now seq m = move-Answers store_ack (_, _, stays, refl)

storing_aux-Answers : (now seq aux : ℕ) (m : Shared) → Answers now seq m (storing_aux seq aux)
storing_aux-Answers now seq aux m = move-Answers store_aux (storing_ack-Answers now seq _)

storing_tsc-Answers :
    (now seq tsc aux : ℕ) (m : Shared) → Answers now seq m (storing_tsc seq tsc aux)
storing_tsc-Answers now seq tsc aux m = move-Answers store_tsc (storing_aux-Answers now seq aux _)

reading-Answers : (now seq : ℕ) (m : Shared) → Answers now seq m (reading seq)
reading-Answers now seq m = move-Answers (read_tsc 0) (storing_tsc-Answers now seq now 0 m)

loading-Answers :
    (now seen : ℕ) (m : Shared) → m.request ≡ seen + 1 → Answers now m.request m (loading seen)
loading-Answers now seen m h =
    move-Answers (see_request (λ e. absurd (omega (arith, h, e)))) (reading-Answers now m.request m)

polling-Answers :
    (now seen : ℕ) (m : Shared)
    → m.stop ≡ false
    → m.request ≡ seen + 1
    → Answers now m.request m (polling seen)
polling-Answers now seen m go h = move-Answers (go_on go) (loading-Answers now seen m h)

IsAsked-Answers :
    (skew i start now later : ℕ) (m : Shared) (p : TargetPc)
    → IsAsked skew i start now m p
    → Answers later (i + 1) m p
IsAsked-Answers skew i start now later m pinning (go, r, _, (e, _)) = move-Answers store_ready (
    subst (λ q. Answers later q (record m { ready = true }) (polling 0)) r
      (polling-Answers later 0 (record m { ready = true }) go (omega (arith, r, e))))
IsAsked-Answers skew i start now later m (polling seen) (go, r, _, inl (e, _)) =
    subst (λ q. Answers later q m (polling seen)) r
      (polling-Answers later seen m go (omega (arith, r, e)))
IsAsked-Answers skew i start now later m (polling seen) (go, r, _, inr (_, a, _)) = (m, _, stays, a)
IsAsked-Answers skew i start now later m (loading seen) (go, r, _, inl (e, _)) =
    subst (λ q. Answers later q m (loading seen)) r
      (loading-Answers later seen m (omega (arith, r, e)))
IsAsked-Answers skew i start now later m (loading seen) (go, r, _, inr (_, a, _)) = (m, _, stays, a)
IsAsked-Answers skew i start now later m (reading seq) (go, r, _, (e, _)) =
    subst (λ q. Answers later q m (reading seq)) e (reading-Answers later seq m)
IsAsked-Answers skew i start now later m (storing_tsc seq tsc aux) (go, r, _, (e, _, _)) =
    subst (λ q. Answers later q m (storing_tsc seq tsc aux)) e
      (storing_tsc-Answers later seq tsc aux m)
IsAsked-Answers skew i start now later m (storing_aux seq aux) (go, r, _, (e, _, _)) =
    subst (λ q. Answers later q m (storing_aux seq aux)) e (storing_aux-Answers later seq aux m)
IsAsked-Answers skew i start now later m (storing_ack seq) (go, r, _, (e, _, _)) =
    subst (λ q. Answers later q m (storing_ack seq)) e (storing_ack-Answers later seq m)
IsAsked-Answers skew i start now later m ended (go, r, _, h) = absurd h

-- In every reachable state in which `measure_pair` waits for an acknowledgement, the steps that the
-- target takes alone bring it about, wherever the target stands.
pub awaiting-Answers :
    (skew : ℕ) (cfg : Config) (s : System) (i aux start : ℕ)
    → cfg.warmup + cfg.samples < 2 ^ 31
    → Reach cfg skew s
    → s.ref ≡ awaiting i aux start
    → Answers ((s.now + skew) % u64_mod) (i + 1) s.mem s.target
awaiting-Answers skew cfg s i aux start fits r h =
    IsAsked-Answers skew i start s.now _ s.mem s.target (rw h at (Reach-Inv skew fits r).phase)
