-- ===== src/Common/Pigeonhole.antt =====
-- The pigeonhole principle on numbers, and the search of a bounded range.
use Prim.Native.Nat.{ℕ, zero, suc, ◌≤◌, ◌<◌, ◌+◌}
use mathlib.Core.Path.{◌≡◌, sym, ◌∙◌}
use mathlib.Core.Logic.{◌⊎◌, inl, inr, ◌≢◌}
use mathlib.Core.Bool.{Bool, true, false}
use native.Mathlib.Omega.{arith}
use nanosecond_trading_stack.Common.Tests.{◌==◌, if◌then◌else◌, Bool-cases, ==→eq, ==→ne}

-- The values below `n` are below `m`, and no two of them are the same.
pub record Injects (f : ℕ → ℕ) (n m : ℕ) : Type 0 where
  pub below : (i : ℕ) → i < n → f i < m
  pub apart : (i j : ℕ) → i < n → j < n → f i ≡ f j → i ≡ j

-- `f` with the value `m` replaced by `v`.
abbrev without : (ℕ → ℕ) → ℕ → ℕ → ℕ → ℕ
without f m v i = if f i == m then v else f i

without-Injects :
    (f : ℕ → ℕ) (n m : ℕ) → Injects f (suc n) (suc m) → Injects (without f m (f n)) n m
without-Injects f n m h = record {
  below = λ i hi. elim (Bool-cases (f i == m)) [
    | inl e ↦
        let ne : f n ≢ m = λ z.
          absurd (
            omega (arith, h.apart i n (omega arith) (omega arith) (==→eq (f i) m e ∙ sym z), hi)) in
        rw e (omega (arith, h.below n (omega arith), ne))
    | inr e ↦ rw e (omega (arith, h.below i (omega arith), ==→ne (f i) m e))
  ];
  apart = λ i j hi hj e.
      let a = h.apart i j (omega arith) (omega arith) in
      let b = h.apart n j (omega arith) (omega arith) in
      let c = h.apart i n (omega arith) (omega arith) in ground (arith, a, b, c);
}

pub Injects-le : (n m : ℕ) (f : ℕ → ℕ) → Injects f n m → n ≤ m
Injects-le zero m f h = omega arith
Injects-le (suc n) zero f h = absurd (omega (arith, h.below n (omega arith)))
Injects-le (suc n) (suc m) f h =
    omega (arith, Injects-le n m (without f m (f n)) (without-Injects f n m h))

-- Somewhere below `n` the test fails, or it holds everywhere there.
pub find_false :
    (n : ℕ) (p : ℕ → Bool) → ((i : ℕ) × (i < n) × (p i ≡ false)) ⊎ ((i : ℕ) → i < n → p i ≡ true)
find_false zero p = inr (λ i h. absurd (omega arith))
find_false (suc n) p = elim (find_false n p) [
  | inl (i, h, e) ↦ inl (i, omega arith, e)
  | inr all ↦ elim (Bool-cases (p n)) [
    | inr e ↦ inl (n, omega arith, e)
    | inl e ↦ inr (λ i h. elim (Bool-cases (i == n)) [
      | inl same ↦ rw (==→eq i n same) e
      | inr other ↦ all i (omega (arith, ==→ne i n other))
    ])
  ]
]

-- One more value, which is none of the others.
pub Injects-suc :
    (f : ℕ → ℕ) (n m x : ℕ)
    → Injects f n m
    → x < m
    → ((i : ℕ) → i < n → f i ≢ x)
    → Injects (λ i. if i == n then x else f i) (n + 1) m
Injects-suc f n m x h hx new = record {
  below = λ i hi. let a : i < n → f i < m = h.below i in ground (arith, a);
  apart = λ i j hi hj e. elim (Bool-cases (i == n)) [
    | inl a ↦ elim (Bool-cases (j == n)) [
      | inl b ↦ omega (arith, ==→eq i n a, ==→eq j n b)
      | inr b ↦ absurd (new j (omega (arith, ==→ne j n b)) (sym (rw (a, b) at e)))
    ]
    | inr a ↦ elim (Bool-cases (j == n)) [
      | inl b ↦ absurd (new i (omega (arith, ==→ne i n a)) (rw (a, b) at e))
      | inr b ↦
          h.apart i j (omega (arith, ==→ne i n a)) (omega (arith, ==→ne j n b)) (rw (a, b) at e)
    ]
  ];
}

-- One value less.
pub Injects-pred : (f : ℕ → ℕ) (k n m : ℕ) → Injects f n m → k ≤ n → Injects f k m
Injects-pred f k n m h le = record {
  below = λ i hi. h.below i (omega arith);
  apart = λ i j hi hj. h.apart i j (omega arith) (omega arith);
}

-- A greater bound.
pub Injects-mono : (f : ℕ → ℕ) (n m k : ℕ) → Injects f n m → m ≤ k → Injects f n k
Injects-mono f n m k h le = record { below = λ i hi. omega (arith, h.below i hi); apart = h.apart }
