-- ===== src/Sampler/Bounds.antt =====
-- src/instrument/tick_sampler.cpp: the bound on the samples, and the order of the statistics.
use nanosecond_trading_stack.Common.{
  ℕ, zero, suc, ◌-◌, ◌*◌, ◌/◌, ◌≤◌, ◌<◌, ◌≡◌, refl, false, List, [], ◌∷◌, ltb, leb, is_nil, length,
  length-append, get_or, All, All-mono, leb→le, arith, Bool-cases, inl, inr,
}
use nanosecond_trading_stack.Sampler.{
  TickSampler, max_samples, add, insert, sort, compute_tick_stats,
}

-- A sampler that holds no more samples than the bound does not after another sample either.
pub add-bound :
    (ticks : ℕ) (s : TickSampler)
    → length s.samples ≤ max_samples
    → length (add ticks s).samples ≤ max_samples
unfolding add
add-bound ticks s h = elim (Bool-cases (ltb (length s.samples) max_samples)) [
  | inl e ↦ rw e (ground (arith, length-append s.samples (ticks ∷ [])))
  | inr e ↦ rw e h
]

length-insert : (x : ℕ) (ys : List ℕ) → length (insert x ys) ≡ suc (length ys)
unfolding insert
length-insert x [] = refl
length-insert x (y ∷ ys) = ground (arith, length-insert x ys)

pub length-sort : (xs : List ℕ) → length (sort xs) ≡ length xs
unfolding sort
length-sort [] = refl
length-sort (x ∷ xs) = omega (arith, length-insert x (sort xs), length-sort xs)

pub is_nil-length : (xs : List ℕ) → is_nil xs ≡ false → 0 < length xs
is_nil-length [] h = absurd (cc h)
is_nil-length (x ∷ xs) h = omega arith

-- The elements ascend.
abbrev pub IsSorted : List ℕ → Type 0
IsSorted [] = Unit
IsSorted (x ∷ xs) = All (λ y. x ≤ y) xs × IsSorted xs

insert-All : (b x : ℕ) (ys : List ℕ) → b ≤ x → All (λ y. b ≤ y) ys → All (λ y. b ≤ y) (insert x ys)
unfolding insert
insert-All b x [] h hs = (h, tt)
insert-All b x (y ∷ ys) h hs = elim (Bool-cases (leb x y)) [
  | inl e ↦ rw e (h, hs)
  | inr e ↦ rw e (hs.0, insert-All b x ys h hs.1)
]

insert-IsSorted : (x : ℕ) (ys : List ℕ) → IsSorted ys → IsSorted (insert x ys)
unfolding insert
insert-IsSorted x [] h = (tt, tt)
insert-IsSorted x (y ∷ ys) h = elim (Bool-cases (leb x y)) [
  | inl e ↦
      let below : x ≤ y = leb→le x y e in
      rw e ((below, All-mono (λ z. y ≤ z) (λ z. x ≤ z) ys (λ z k. omega arith) h.0), h)
  | inr e ↦ rw e (insert-All y x ys (ground arith) h.0, insert-IsSorted x ys h.1)
]

pub sort-IsSorted : (xs : List ℕ) → IsSorted (sort xs)
unfolding sort
sort-IsSorted [] = tt
sort-IsSorted (x ∷ xs) = insert-IsSorted x (sort xs) (sort-IsSorted xs)

All-get : (b : ℕ) (xs : List ℕ) (i : ℕ) → All (λ y. b ≤ y) xs → i < length xs → b ≤ get_or xs i 0
All-get b [] i h lt = absurd (omega arith)
All-get b (x ∷ xs) zero h lt = h.0
All-get b (x ∷ xs) (suc i) h lt = All-get b xs i h.1 (omega arith)

pub get_mono :
    (xs : List ℕ) (i j : ℕ) → IsSorted xs → i ≤ j → j < length xs → get_or xs i 0 ≤ get_or xs j 0
get_mono [] i j h le lt = absurd (omega arith)
get_mono (x ∷ xs) zero zero h le lt = omega arith
get_mono (x ∷ xs) zero (suc j) h le lt = All-get x xs j h.0 (omega arith)
get_mono (x ∷ xs) (suc i) zero h le lt = absurd (omega arith)
get_mono (x ∷ xs) (suc i) (suc j) h le lt = get_mono xs i j h.1 (omega arith) (omega arith)

-- The statistics of any samples are in order: least, median, 99th percentile, greatest.
pub compute_tick_stats-ordered :
    (s : TickSampler)
    → let st = compute_tick_stats s in
      (st.min_ticks ≤ st.p50_ticks)
      × (st.p50_ticks ≤ st.p99_ticks)
      × (st.p99_ticks ≤ st.max_ticks)
      × (st.samples ≡ length s.samples)
unfolding compute_tick_stats
compute_tick_stats-ordered s = elim (Bool-cases (is_nil s.samples)) [
  | inl e ↦ rw e (omega arith, omega arith, omega arith, refl)
  | inr e ↦
      let xs = s.samples in
      let n = length-sort xs in
      let some_there : 0 < length xs = is_nil-length xs e in
      let at : (i j : ℕ)
          → i ≤ j
          → j < length (sort xs)
          → get_or (sort xs) i 0 ≤ get_or (sort xs) j 0 =
        λ i j. get_mono (sort xs) i j (sort-IsSorted xs) in
      rw e (
        at 0 ((length xs - 1) / 2) (omega arith) (omega arith),
        at ((length xs - 1) / 2) ((length xs - 1) * 99 / 100) (omega arith) (omega arith),
        at ((length xs - 1) * 99 / 100) (length xs - 1) (omega arith) (omega arith),
        refl,
      )
]
