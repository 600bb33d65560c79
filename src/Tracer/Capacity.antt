-- ===== src/Tracer/Capacity.antt =====
-- src/instrument/tracer.cpp, `round_up_pow2`: the capacity of the ring.
use Prim.Native.Nat.{bit_or}
use native.Mathlib.Nat.{pow-suc, div-one, mul_comm, zero-add, suc-add, div-div-eq-div-mul}
use nanosecond_trading_stack.Common.Bits.{
  zero-bit_or, bit_or-zero, bit_or-half, bit_or_assoc, bit_or_ones,
}
use nanosecond_trading_stack.Common.{
  ℕ, zero, suc, ◌+◌, ◌-◌, ◌*◌, ◌/◌, ◌^◌, ◌≤◌, ◌<◌, ◌≡◌, ◌∙◌, refl, sym, ap, max, arith,
}
use nanosecond_trading_stack.Tracer.{set_below, round_up_pow2}

-- All of `x`, `x >> 1`, …, the first `n` of them, in one word.
smear : ℕ → ℕ → ℕ
smear zero x = 0
smear (suc n) x = bit_or x (smear n (x / 2))

smear_zero : (n : ℕ) → smear n 0 ≡ 0
unfolding smear
smear_zero zero = refl
smear_zero (suc n) = zero-bit_or (smear n 0) ∙ smear_zero n

-- `x` has `k` binary digits, and smeared it is all ones below them.
record IsFilled (n x k : ℕ) : Type 0 where
  ones : smear n x ≡ 2 ^ k - 1
  above : x < 2 ^ k
  below : 2 ^ k ≤ max 1 (2 * x)

fill_digit : (n x k : ℕ) → IsFilled n (suc x / 2) k → IsFilled (suc n) (suc x) (suc k)
unfolding smear
fill_digit n x k f = record {
  ones =
      rw (IsFilled.ones f)
        (bit_or_ones k (suc x) (omega (arith, f.below)) (omega (arith, f.above, pow-suc 2 k)));
  above = omega (arith, f.above, pow-suc 2 k);
  below = omega (arith, f.below, pow-suc 2 k);
}

smear_fills : (n x : ℕ) → x < 2 ^ n → (k : ℕ) × IsFilled n x k
smear_fills n zero small =
    (0, record { ones = smear_zero n; above = omega arith; below = omega arith })
smear_fills zero (suc x) small = absurd (omega arith)
smear_fills (suc n) (suc x) small =
    let half = smear_fills n (suc x / 2) (omega (arith, pow-suc 2 n)) in
    (suc half.0, fill_digit n x half.0 half.1)

smear_half : (n x : ℕ) → smear n x / 2 ≡ smear n (x / 2)
unfolding smear
smear_half zero x = refl
smear_half (suc n) x = bit_or-half x (smear n (x / 2)) ∙ ap (bit_or (x / 2)) (smear_half n (x / 2))

shift_suc : (k x : ℕ) → x / 2 ^ suc k ≡ x / 2 / 2 ^ k
shift_suc k x = rw (pow-suc 2 k, mul_comm (2 ^ k) 2) (sym (div-div-eq-div-mul x 2 (2 ^ k)))

smear_shift : (k n x : ℕ) → smear n x / 2 ^ k ≡ smear n (x / 2 ^ k)
smear_shift zero n x = rw (div-one (smear n x), div-one x) refl
smear_shift (suc k) n x =
    rw (shift_suc k (smear n x), shift_suc k x, smear_half n x) (smear_shift k n (x / 2))

smear_join : (n m x : ℕ) → bit_or (smear n x) (smear m (x / 2 ^ n)) ≡ smear (n + m) x
unfolding smear
smear_join zero m x = rw (zero-bit_or (smear m (x / 1)), div-one x, zero-add m) refl
smear_join (suc n) m x =
    rw (suc-add n m, shift_suc n x, bit_or_assoc x (smear n (x / 2)) (smear m (x / 2 / 2 ^ n)))
      (ap (bit_or x) (smear_join n m (x / 2)))

set_below-smear : (n x y : ℕ) → y ≡ smear n x → set_below n y ≡ smear (n + n) x
unfolding set_below
set_below-smear n x y e = rw e (ap (bit_or (smear n x)) (smear_shift n n x) ∙ smear_join n n x)

set_all :
    (x : ℕ)
    → set_below 32 (set_below 16 (set_below 8 (set_below 4 (set_below 2 (set_below 1 x)))))
      ≡ smear 64 x
unfolding smear
set_all x = set_below-smear 32 x _ (
    set_below-smear 16 x _ (
      set_below-smear 8 x _ (
        set_below-smear 4 x _
          (set_below-smear 2 x _ (set_below-smear 1 x x (sym (bit_or-zero x)))))))

round_up_pow2-filled : (w k : ℕ) → w < 2 ^ 63 → IsFilled 64 w k → round_up_pow2 (suc w) ≡ 2 ^ k
unfolding round_up_pow2
round_up_pow2-filled w k small f = ground (arith, set_all w, f.ones, f.above, f.below)

-- For a number of at least 1 and at most 2 ^ 63, `round_up_pow2` gives a power of two that is not
-- below it, and below twice the number: so it is the least one.
pub round_up_pow2-least :
    (v : ℕ)
    → 0 < v
    → v ≤ 2 ^ 63
    → (k : ℕ) × (round_up_pow2 v ≡ 2 ^ k) × (v ≤ 2 ^ k) × (2 ^ k < 2 * v)
round_up_pow2-least zero pos small = absurd (omega arith)
round_up_pow2-least (suc w) pos small =
    let filled = smear_fills 64 w (omega arith) in
    let f = filled.1 in
    (
      filled.0,
      round_up_pow2-filled w filled.0 (omega arith) f,
      omega (arith, f.above),
      omega (arith, f.below),
    )
