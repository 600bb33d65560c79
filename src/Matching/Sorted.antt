-- ===== src/Matching/Sorted.antt =====
-- The order of the keys of a `std::map`, and what its lookups and writes do under that order.
use mathlib.Core.List.{reverse-cons, append-nil}
use nanosecond_trading_stack.Common.{
  ℕ, ◌<◌, ◌≡◌, refl, List, [], ◌∷◌, ◌++◌, reverse, none, some, arith, All, All-append,
}
use nanosecond_trading_stack.Common.Assoc.{lookup, replace, erase}

module _ {ℓ} {V : Type ℓ} where
  -- Each key stands in `R` to every key behind it.
  abbrev pub Sorted : (ℕ → ℕ → Type 0) → List (ℕ × V) → Type 0
  Sorted R [] = Unit {0}
  Sorted R ((p, v) ∷ m) = All (λ (e : ℕ × V). R p e.0) m × Sorted R m

  abbrev pub Ascending : List (ℕ × V) → Type 0
  Ascending = Sorted (λ a b. a < b)

  abbrev pub Descending : List (ℕ × V) → Type 0
  Descending = Sorted (λ a b. b < a)

  pub lookup-of_lt : (k : ℕ) (m : List (ℕ × V)) → All (λ (e : ℕ × V). k < e.0) m → lookup k m ≡ none
  unfolding lookup
  lookup-of_lt k [] h = refl
  lookup-of_lt k ((j, v) ∷ m) h = ground (arith, lookup-of_lt k m)

  pub lookup-of_gt : (k : ℕ) (m : List (ℕ × V)) → All (λ (e : ℕ × V). e.0 < k) m → lookup k m ≡ none
  unfolding lookup
  lookup-of_gt k [] h = refl
  lookup-of_gt k ((j, v) ∷ m) h = ground (arith, lookup-of_gt k m)

  pub erase-of_lookup : (k : ℕ) (m : List (ℕ × V)) → lookup k m ≡ none → erase k m ≡ m
  unfolding lookup erase
  erase-of_lookup k [] h = refl
  erase-of_lookup k ((j, v) ∷ m) h = ground (arith, erase-of_lookup k m)

  module _ (k : ℕ) (v : V) where
    pub lookup-last :
        (m : List (ℕ × V)) → lookup k m ≡ none → lookup k (m ++ ((k, v) ∷ [])) ≡ some v
    unfolding lookup
    lookup-last [] h = ground arith
    lookup-last ((j, w) ∷ m) h = ground (arith, lookup-last m)

    pub replace-last :
        (m : List (ℕ × V)) (w : V)
        → lookup k m ≡ none
        → replace k v (m ++ ((k, w) ∷ [])) ≡ m ++ ((k, v) ∷ [])
    unfolding lookup replace
    replace-last [] w h = ground arith
    replace-last ((j, u) ∷ m) w h = ground (arith, replace-last m w)

    pub erase-last : (m : List (ℕ × V)) → lookup k m ≡ none → erase k (m ++ ((k, v) ∷ [])) ≡ m
    unfolding lookup erase
    erase-last [] h = ground arith
    erase-last ((j, u) ∷ m) h = ground (arith, erase-last m)

  pub All-reverse : (P : ℕ × V → Type 0) (m : List (ℕ × V)) → All P m → All P (reverse m)
  All-reverse P [] h = tt
  All-reverse P (e ∷ m) h =
      rw (reverse-cons e m) (All-append P (reverse m) (e ∷ []) (All-reverse P m h.1) (h.0, tt))

  Sorted-last :
      (R : ℕ → ℕ → Type 0) (m : List (ℕ × V)) (e : ℕ × V)
      → Sorted R m
      → All (λ (d : ℕ × V). R d.0 e.0) m
      → Sorted R (m ++ (e ∷ []))
  Sorted-last R [] e s h = (tt, tt)
  Sorted-last R (d ∷ m) e s h =
      (All-append (λ x. R d.0 x.0) m (e ∷ []) s.0 (h.0, tt), Sorted-last R m e s.1 h.1)

  pub Sorted-reverse :
      (R : ℕ → ℕ → Type 0) (m : List (ℕ × V)) → Sorted R m → Sorted (λ a b. R b a) (reverse m)
  Sorted-reverse R [] s = tt
  Sorted-reverse R (e ∷ m) s = rw (reverse-cons e m) (
      Sorted-last (λ a b. R b a) (reverse m) e (Sorted-reverse R m s.1)
        (All-reverse (λ d. R e.0 d.0) m s.0))

  lookup-append :
      (k : ℕ) (m r : List (ℕ × V))
      → lookup k (m ++ r) ≡ elim (lookup k m) [ none ↦ lookup k r | some v ↦ some v ]
  unfolding lookup
  lookup-append k [] r = refl
  lookup-append k ((j, w) ∷ m) r = ground (arith, lookup-append k m r)

  replace-append :
      (k : ℕ) (v : V) (m r : List (ℕ × V))
      → replace k v (m ++ r)
        ≡ elim (lookup k m) [ none ↦ m ++ replace k v r | some _ ↦ replace k v m ++ r ]
  unfolding lookup replace
  replace-append k v [] r = refl
  replace-append k v ((j, w) ∷ m) r = ground (arith, replace-append k v m r)

  erase-append : (k : ℕ) (m r : List (ℕ × V)) → erase k (m ++ r) ≡ erase k m ++ erase k r
  unfolding erase
  erase-append k [] r = refl
  erase-append k ((j, w) ∷ m) r = ground (arith, erase-append k m r)

  erase-reverse_cons :
      (k : ℕ) (e : ℕ × V) (m : List (ℕ × V))
      → reverse (erase k m) ++ erase k (e ∷ []) ≡ reverse (erase k (e ∷ m))
  unfolding erase
  erase-reverse_cons k e m =
      ground (arith, reverse-cons e (erase k m), append-nil (reverse (erase k m)))

  pub erase-reverse : (k : ℕ) (m : List (ℕ × V)) → erase k (reverse m) ≡ reverse (erase k m)
  erase-reverse k [] = unfold erase in refl
  erase-reverse k (e ∷ m) =
      rw (reverse-cons e m, erase-append k (reverse m) (e ∷ []), erase-reverse k m)
        (erase-reverse_cons k e m)

  pub lookup-reverse : (k : ℕ) (m : List (ℕ × V)) → Ascending m → lookup k (reverse m) ≡ lookup k m
  unfolding lookup
  lookup-reverse k [] a = refl
  lookup-reverse k ((j, w) ∷ m) a = ground (
    arith,
    reverse-cons (j, w) m,
    lookup-reverse k m,
    lookup-of_lt j m,
    lookup-append k (reverse m) ((j, w) ∷ []),
  )

  replace-of_lookup : (k : ℕ) (v : V) (m : List (ℕ × V)) → lookup k m ≡ none → replace k v m ≡ m
  unfolding lookup replace
  replace-of_lookup k v [] h = refl
  replace-of_lookup k v ((j, w) ∷ m) h = ground (arith, replace-of_lookup k v m)

  pub replace-reverse :
      (k : ℕ) (v : V) (m : List (ℕ × V))
      → Ascending m
      → replace k v (reverse m) ≡ reverse (replace k v m)
  unfolding replace
  replace-reverse k v [] a = refl
  replace-reverse k v ((j, w) ∷ m) a = ground (
    arith,
    reverse-cons (j, w) m,
    reverse-cons (j, v) m,
    reverse-cons (j, w) (replace k v m),
    replace-reverse k v m,
    lookup-of_lt j m,
    lookup-reverse k m,
    replace-append k v (reverse m) ((j, w) ∷ []),
    replace-of_lookup k v m,
  )
