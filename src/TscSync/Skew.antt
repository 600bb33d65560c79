-- ===== src/TscSync/Skew.antt =====
-- What the measurement of tools/tsc_sync_check.cpp says of the two counters.
use nanosecond_trading_stack.Common.{
  ℕ, ◌+◌, ◌*◌, ◌-◌, ◌/◌, ◌%◌, ◌^◌, ◌<◌, ◌≤◌, ◌≡◌, ◌⊎◌, true, false, inl, inr, u64_mod, arith, add64,
  sub64, leb, leb→le, ltb, ltb→lt, Bool-cases, ◌∙◌,
}
use nanosecond_trading_stack.TscSync.Handshake.{System, Reach, joining, total_samples}
use nanosecond_trading_stack.TscSync.Samples.{IsMeasured, Reach-Inv}
use nanosecond_trading_stack.TscSync.{
  Config, PairStats, Best, tsc_delta, pair_stats, leb_int64, abs64,
}

-- Both branches give the difference as a pattern.
tsc_delta_lem : (lhs rhs : ℕ) → lhs < u64_mod → rhs < u64_mod → tsc_delta lhs rhs ≡ sub64 lhs rhs
unfolding tsc_delta
tsc_delta_lem lhs rhs a b = ground arith

-- A skew of less than 2 ^ 62 cycles, as a pattern.
abbrev pub IsSmall : ℕ → Type 0
IsSmall skew = (skew < u64_mod) × ((skew + 2 ^ 62) % u64_mod < 2 ^ 63)

-- The arithmetic: `h` is half the round trip, `u` what is left of it, `o` the offset.
low_bound-le :
    (k start x h u o : ℕ)
    → IsSmall k
    → start ≤ x
    → x ≤ start + h + u
    → h ≤ u
    → start + h + u < 2 ^ 62
    → o ≡ ((x + k) % u64_mod + u64_mod - (start + h)) % u64_mod
    → add64 (sub64 o u) (2 ^ 63) ≤ add64 k (2 ^ 63)
low_bound-le k start x h u o (r, s) a b c d e = omega arith

high_bound-le :
    (k start x h u o : ℕ)
    → IsSmall k
    → start ≤ x
    → x ≤ start + h + u
    → h ≤ u
    → u ≤ h + 1
    → start + h + u < 2 ^ 62
    → o ≡ ((x + k) % u64_mod + u64_mod - (start + h)) % u64_mod
    → add64 k (2 ^ 63) ≤ add64 (add64 o u) (2 ^ 63)
high_bound-le k start x h u o (r, s) a b c c' d e = omega arith

-- How far the offset is from the skew, as absolute values.
not_below : (a : ℕ) → ltb a (2 ^ 63) ≡ false → 2 ^ 63 ≤ a
not_below a h = ground arith

abs64-near :
    (k start x h u o : ℕ)
    → IsSmall k
    → start ≤ x
    → x ≤ start + h + u
    → h ≤ u
    → u ≤ h + 1
    → start + h + u < 2 ^ 62
    → o ≡ ((x + k) % u64_mod + u64_mod - (start + h)) % u64_mod
    → (abs64 o ≤ abs64 k + u) × (abs64 k ≤ abs64 o + u)
abs64-near k start x h u o (r, s) a b c c' d e = elim (Bool-cases (ltb k (2 ^ 63))) [
  | inl pk ↦ elim (Bool-cases (ltb o (2 ^ 63))) [
    | inl po ↦
        rw (pk, po)
          (
            omega (arith, ltb→lt k (2 ^ 63) pk, ltb→lt o (2 ^ 63) po),
            omega (arith, ltb→lt k (2 ^ 63) pk, ltb→lt o (2 ^ 63) po),
          )
    | inr po ↦
        rw (pk, po)
          (
            omega (arith, ltb→lt k (2 ^ 63) pk, not_below o po),
            omega (arith, ltb→lt k (2 ^ 63) pk, not_below o po),
          )
  ]
  | inr pk ↦ elim (Bool-cases (ltb o (2 ^ 63))) [
    | inl po ↦
        rw (pk, po)
          (
            omega (arith, not_below k pk, ltb→lt o (2 ^ 63) po),
            omega (arith, not_below k pk, ltb→lt o (2 ^ 63) po),
          )
    | inr po ↦
        rw (pk, po)
          (
            omega (arith, not_below k pk, not_below o po),
            omega (arith, not_below k pk, not_below o po),
          )
  ]
]

abs64-small : (k : ℕ) → IsSmall k → abs64 k ≤ 2 ^ 62
abs64-small k (r, s) = elim (Bool-cases (ltb k (2 ^ 63))) [
  | inl pk ↦ rw pk (omega (arith, ltb→lt k (2 ^ 63) pk))
  | inr pk ↦ rw pk (omega (arith, not_below k pk))
]

le→leb : (a b : ℕ) → a ≤ b → leb a b ≡ true
le→leb a b h = ground arith

leb→gt : (a b : ℕ) → leb a b ≡ false → b < a
leb→gt a b h = ground arith

-- The verdict is good, and the skew at most the threshold and twice the uncertainty; or it is not, and
-- the skew above the threshold.
abbrev pub IsVerdict : ℕ → Config → PairStats → Type 0
IsVerdict skew cfg st =
    ((st.pass ≡ true) × (abs64 skew ≤ cfg.threshold_cycles + 2 * st.uncertainty_cycles))
    ⊎ ((st.pass ≡ false) × (cfg.threshold_cycles < abs64 skew))

-- What one sample shows of the skew.
measured-bounds :
    (skew : ℕ) (cfg : Config) (core : ℕ) (best : Best)
    → IsSmall skew
    → cfg.threshold_cycles < 2 ^ 31
    → IsMeasured skew best.sample
    → let st = pair_stats cfg core best in
      (leb_int64 st.low_bound_cycles skew ≡ true)
      × (leb_int64 skew st.high_bound_cycles ≡ true)
      × IsVerdict skew cfg st
unfolding pair_stats
measured-bounds skew cfg core best small few (start, x, end, a, b, c, trip, off) =
    let h = (end - start) / 2 in
    let u = add64 best.sample.roundtrip_cycles 1 / 2 in
    let o = best.sample.offset_cycles in
    let at : o ≡ ((x + skew) % u64_mod + u64_mod - (start + h)) % u64_mod =
      off ∙ tsc_delta_lem _ _ (omega arith) (omega arith) in
    let (near, far) =
      abs64-near skew start x h u o small a (omega arith) (omega arith) (omega arith) (omega arith)
        at in
    (
      le→leb _ _
          (low_bound-le skew start x h u o small a (omega arith) (omega arith) (omega arith) at),
      le→leb _ _ (
          high_bound-le skew start x h u o small a (omega arith) (omega arith) (omega arith)
            (omega arith) at),
      elim (Bool-cases (leb_int64 (abs64 o) (add64 cfg.threshold_cycles u))) [
        | inl good ↦ inl (good, omega (arith, near, far, abs64-small skew small, leb→le _ _ good))
        | inr bad ↦ inr (bad, omega (arith, near, far, abs64-small skew small, leb→gt _ _ bad))
      ],
    )

-- For every interleaving of the two threads, if there is at least one sample after the warm-up and
-- the skew is less than 2 ^ 62: when the measurement ends, the skew of the counters is between its
-- two bounds, and either the verdict is good and the skew at most the threshold and twice the
-- uncertainty, or the verdict is not good and the skew above the threshold.
pub measure_pair-bounds :
    (skew : ℕ) (cfg : Config) (core : ℕ) (s : System)
    → IsSmall skew
    → 0 < cfg.samples
    → cfg.warmup + cfg.samples < 2 ^ 31
    → cfg.threshold_cycles < 2 ^ 31
    → Reach cfg skew s
    → s.ref ≡ joining
    → let st = pair_stats cfg core s.best in
      (leb_int64 st.low_bound_cycles skew ≡ true)
      × (leb_int64 skew st.high_bound_cycles ≡ true)
      × IsVerdict skew cfg st
measure_pair-bounds skew cfg core s small some fits few r end =
    elim (rw end at (Reach-Inv skew fits r).has_best) [
      | inl m ↦ measured-bounds skew cfg core s.best small few m
      | inr (_, no_more) ↦ let le : total_samples cfg ≤ cfg.warmup = no_more in absurd (grind arith)
    ]
