-- ===== src/Common/Bits.antt =====
-- The bitwise `|` and `&` of machine words as arithmetic, for the code that masks and fills bits.
use Prim.Native.Nat.{
  ℕ, zero, suc, ◌+◌, ◌-◌, ◌*◌, ◌/◌, ◌%◌, ◌^◌, ◌≤◌, ◌<◌, min, max, bit_and, bit_or, digits,
  bit_and-bitwise, bit_or-bitwise,
}
use mathlib.Core.Path.{◌≡◌, refl, ap}
use native.Mathlib.Nat.{pow-suc, one-le-pow}
use native.Mathlib.Omega.{arith}

-- Induction from the half of a number to the number, which is how its binary digits are read.
by_halves {ℓ} : (P : ℕ → Type ℓ) → P 0 → ((n : ℕ) → P (suc n / 2) → P (suc n)) → (n : ℕ) → P n
by_halves P base step n = below n n (omega arith)
  where
    below : (m n : ℕ) → n ≤ m → P n
    below m zero h = base
    below zero (suc n) h = absurd (omega arith)
    below (suc m) (suc n) h = step n (below m (suc n / 2) (omega arith))

-- The digits of a number come out whatever spare fuel there is.
module _ (z : ℕ → ℕ) (f : ℕ → ℕ → ℕ) where
  digits_spare : (m n a b : ℕ) → a ≤ n → n ≤ m → digits z f m a b ≡ digits z f n a b
  digits_spare zero zero a b p q = refl
  digits_spare zero (suc n) a b p q = absurd (omega arith)
  digits_spare (suc m) zero zero b p q = refl
  digits_spare (suc m) zero (suc a) b p q = absurd (omega arith)
  digits_spare (suc m) (suc n) zero b p q = refl
  digits_spare (suc m) (suc n) (suc a) b p q =
      ap (λ (t : ℕ). t * 2 + f (suc a % 2) (b % 2))
        (digits_spare m n (suc a / 2) (b / 2) (omega arith) (omega arith))

-- The lowest digit of `a | b` and the rest.
pub bit_or_digit : (a b : ℕ) → bit_or a b ≡ bit_or (a / 2) (b / 2) * 2 + max (a % 2) (b % 2)
bit_or_digit zero b = omega (arith, bit_or-bitwise 0 b, bit_or-bitwise 0 (b / 2))
bit_or_digit (suc a) b = omega (
  arith,
  bit_or-bitwise (suc a) b,
  bit_or-bitwise (suc a / 2) (b / 2),
  digits_spare (λ y. y) max a (suc a / 2) (suc a / 2) (b / 2) (omega arith) (omega arith),
)

bit_and_digit : (a b : ℕ) → bit_and a b ≡ bit_and (a / 2) (b / 2) * 2 + min (a % 2) (b % 2)
bit_and_digit zero b = omega (arith, bit_and-bitwise 0 b, bit_and-bitwise 0 (b / 2))
bit_and_digit (suc a) b = omega (
  arith,
  bit_and-bitwise (suc a) b,
  bit_and-bitwise (suc a / 2) (b / 2),
  digits_spare (λ y. 0) min a (suc a / 2) (suc a / 2) (b / 2) (omega arith) (omega arith),
)

pub zero-bit_or : (b : ℕ) → bit_or 0 b ≡ b
zero-bit_or b = bit_or-bitwise 0 b

pub bit_or-zero : (a : ℕ) → bit_or a 0 ≡ a
bit_or-zero =
    by_halves (λ a. bit_or a 0 ≡ a) (zero-bit_or 0)
      (λ n half. omega (arith, bit_or_digit (suc n) 0, half))

-- A shift by one passes through `|`.
pub bit_or-half : (a b : ℕ) → bit_or a b / 2 ≡ bit_or (a / 2) (b / 2)
bit_or-half a b = omega (arith, bit_or_digit a b)

bit_or-parity : (a b : ℕ) → bit_or a b % 2 ≡ max (a % 2) (b % 2)
bit_or-parity a b = omega (arith, bit_or_digit a b)

pub bit_or_assoc : (a b c : ℕ) → bit_or (bit_or a b) c ≡ bit_or a (bit_or b c)
bit_or_assoc =
    by_halves (λ a. (b c : ℕ) → bit_or (bit_or a b) c ≡ bit_or a (bit_or b c))
      (λ b c. rw (zero-bit_or b, zero-bit_or (bit_or b c)) refl)
      (λ n ih b c.
        let rest : bit_or (bit_or (suc n) b / 2) (c / 2) ≡ bit_or (suc n / 2) (bit_or b c / 2) =
          rw (bit_or-half (suc n) b, bit_or-half b c) (ih (b / 2) (c / 2)) in
        omega (
          arith,
          rest,
          bit_or_digit (bit_or (suc n) b) c,
          bit_or_digit (suc n) (bit_or b c),
          bit_or-parity (suc n) b,
          bit_or-parity b c,
        ))

half_ones : (k : ℕ) → (2 ^ suc k - 1) / 2 ≡ 2 ^ k - 1
half_ones k = omega (arith, one-le-pow k 2, pow-suc 2 k)

-- With a mask of ones below its highest bit, a number is filled up.
pub bit_or_ones : (k a : ℕ) → 2 ^ k ≤ a → a < 2 ^ suc k → bit_or a (2 ^ k - 1) ≡ 2 ^ suc k - 1
bit_or_ones zero a le lt = omega (arith, bit_or-zero a)
bit_or_ones (suc k) a le lt = omega (
  arith,
  one-le-pow k 2,
  pow-suc 2 k,
  pow-suc 2 (suc k),
  ap (λ (t : ℕ). bit_or (a / 2) t) (half_ones k),
  bit_or_ones k (a / 2) (omega (arith, pow-suc 2 k)) (omega (arith, pow-suc 2 (suc k))),
  bit_or_digit a (2 ^ suc k - 1),
)

mul-pow-suc : (q k : ℕ) → q * 2 ^ suc k ≡ 2 * (q * 2 ^ k)
mul-pow-suc q k = omega (arith, ap (λ (t : ℕ). q * t) (pow-suc 2 k))

zero-bit_and : (b : ℕ) → bit_and 0 b ≡ 0
zero-bit_and b = bit_and-bitwise 0 b

bit_and-zero : (a : ℕ) → bit_and a 0 ≡ 0
bit_and-zero =
    by_halves (λ a. bit_and a 0 ≡ 0) (zero-bit_and 0)
      (λ n half. omega (arith, bit_and_digit (suc n) 0, half))

low_bits : (k q r : ℕ) → r < 2 ^ k → bit_and (q * 2 ^ k + r) (2 ^ k - 1) ≡ r
low_bits zero q r small = omega (arith, bit_and-zero (q * 2 ^ zero + r))
low_bits (suc k) q r small =
    let halves : bit_and (q * 2 ^ k + r / 2) (2 ^ k - 1) ≡ r / 2 =
      low_bits k q (r / 2) (omega (arith, pow-suc 2 k)) in
    let e : (q * 2 ^ suc k + r) / 2 ≡ q * 2 ^ k + r / 2 = omega (arith, mul-pow-suc q k) in
    let d : bit_and ((q * 2 ^ suc k + r) / 2) ((2 ^ suc k - 1) / 2) ≡ r / 2 =
      rw (e, half_ones k) halves in
    omega (
      arith,
      d,
      bit_and_digit (q * 2 ^ suc k + r) (2 ^ suc k - 1),
      mul-pow-suc q k,
      pow-suc 2 k,
      one-le-pow k 2,
    )

-- A mask of `k` ones takes the remainder by `2 ^ k`.
pub bit_and_ones : (k a : ℕ) → bit_and a (2 ^ k - 1) ≡ a % 2 ^ k
bit_and_ones k a = grind (arith, one-le-pow k 2, low_bits k (a / 2 ^ k) (a % 2 ^ k))

-- `(q << k) | r` is a sum where `r` has no more than `k` bits.
pub bit_or_low : (k q r : ℕ) → r < 2 ^ k → bit_or (q * 2 ^ k) r ≡ q * 2 ^ k + r
bit_or_low zero q r small =
    let none_left : r ≡ 0 = omega arith in rw none_left (omega (arith, bit_or-zero (q * 2 ^ zero)))
bit_or_low (suc k) q r small =
    let half : q * 2 ^ suc k / 2 ≡ q * 2 ^ k = omega (arith, mul-pow-suc q k) in
    let rest : bit_or (q * 2 ^ suc k / 2) (r / 2) ≡ q * 2 ^ k + r / 2 =
      rw half (bit_or_low k q (r / 2) (omega (arith, pow-suc 2 k))) in
    omega (arith, rest, bit_or_digit (q * 2 ^ suc k) r, mul-pow-suc q k)
