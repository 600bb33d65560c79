-- ===== src/TscSync/Verdict.antt =====
-- What the exit code of tools/tsc_sync_check.cpp says.
use Prim.Native.String.{String}
use nanosecond_trading_stack.Common.{
  ℕ, ◌+◌, ◌*◌, ◌≤◌, ◌^◌, ◌<◌, ◌≡◌, ◌⊎◌, inl, inr, refl, true, List, All,
}
use nanosecond_trading_stack.TscSync.Report.{Parsed, ok, err, help, Error}
use nanosecond_trading_stack.TscSync.Handshake.{System, Reach, joining}
use nanosecond_trading_stack.TscSync.{Config, pair_stats, abs64}

-- A configuration that passes the tests of `parse_args`; its counts are those of an `int`.
pub record IsChecked (n : ℕ) (c : Config) : Type 0 where
  pub known : c.reference_core < n
  pub some_samples : 0 < c.samples
  pub samples_small : c.samples < 2 ^ 31
  pub warmup_small : c.warmup < 2 ^ 31
  pub threshold_small : c.threshold_cycles < 2 ^ 31

Parsed-cases {ℓ} :
    {A : Type ℓ} (p : Parsed A)
    → ((a : A) × (p ≡ ok a)) ⊎ (((e : Error) × (p ≡ err e)) ⊎ (p ≡ help))
Parsed-cases (ok a) = inl (a, refl)
Parsed-cases (err e) = inr (inl (e, refl))
Parsed-cases help = inr (inr refl)

-- The counter of a core is no further from that of the reference core than the threshold and twice
-- the uncertainty of some measurement of it, which ended with a good verdict.
abbrev IsNear : Config → (ℕ → ℕ) → ℕ → Type 0
IsNear cfg skew core =
    (s : System) × Reach cfg (skew core) s
    × (s.ref ≡ joining)
    × (let st = pair_stats cfg core s.best in
        (st.pass ≡ true) × (abs64 (skew core) ≤ cfg.threshold_cycles + 2 * st.uncertainty_cycles))

abbrev pub AllNear : Config → (ℕ → ℕ) → List ℕ → Type 0
AllNear cfg skew = All (λ core. (core ≡ cfg.reference_core) ⊎ IsNear cfg skew core)
