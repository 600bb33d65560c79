-- ===== src/Matching/Validity/Rewritten.antt =====
-- The levels of a book after the queue of one price has become another, or has gone.
use nanosecond_trading_stack.Common.{
  ℕ, ◌<◌, ◌≡◌, ap, ◌≢◌, inl, inr, [], ◌∷◌, none, some, All, arith, ◌==◌, if◌then◌else◌, Bool-cases,
  is_nil,
}
use nanosecond_trading_stack.Common.Assoc.{lookup, replace, erase, lookup-erase, lookup-replace}
use nanosecond_trading_stack.Matching.Sorted.{Ascending}
use nanosecond_trading_stack.Matching.Types.{OrderQueue, Levels}
use nanosecond_trading_stack.Matching.Validity.{Fifo, LevelsOk}

-- The levels after the queue of one price has become `q`.
abbrev pub rewritten : ℕ → OrderQueue → Levels → Levels
rewritten p q ls = if is_nil q then erase p ls else replace p q ls

module _ (p : ℕ) where
  erase-All :
      (P : ℕ → Type 0) (ls : Levels)
      → All (λ (l : ℕ × OrderQueue). P l.0) ls
      → All (λ (l : ℕ × OrderQueue). P l.0) (erase p ls)
  unfolding erase
  erase-All P [] h = tt
  erase-All P ((j, q) ∷ ls) h = ground (arith, erase-All P ls)

  erase-Ascending : (ls : Levels) → Ascending ls → Ascending (erase p ls)
  unfolding erase
  erase-Ascending [] h = tt
  erase-Ascending ((j, q) ∷ ls) h = ground (arith, erase-Ascending ls, erase-All (λ k. j < k) ls)

  erase-LevelsOk : (next : ℕ) (ls : Levels) → LevelsOk next ls → LevelsOk next (erase p ls)
  unfolding erase
  erase-LevelsOk next [] h = tt
  erase-LevelsOk next ((j, q) ∷ ls) h = ground (arith, erase-LevelsOk next ls)

  module _ (new : OrderQueue) where
    replace-All :
        (P : ℕ → Type 0) (ls : Levels)
        → All (λ (l : ℕ × OrderQueue). P l.0) ls
        → All (λ (l : ℕ × OrderQueue). P l.0) (replace p new ls)
    unfolding replace
    replace-All P [] h = tt
    replace-All P ((j, q) ∷ ls) h = ground (arith, replace-All P ls)

    replace-Ascending : (ls : Levels) → Ascending ls → Ascending (replace p new ls)
    unfolding replace
    replace-Ascending [] h = tt
    replace-Ascending ((j, q) ∷ ls) h =
        ground (arith, replace-Ascending ls, replace-All (λ k. j < k) ls)

    replace-LevelsOk :
        (next : ℕ) (ls : Levels)
        → new ≢ []
        → Fifo next new
        → LevelsOk next ls
        → LevelsOk next (replace p new ls)
    unfolding replace
    replace-LevelsOk next [] ne f h = tt
    replace-LevelsOk next ((j, q) ∷ ls) ne f h = ground (arith, replace-LevelsOk next ls)

    pub rewritten-Ascending : (ls : Levels) → Ascending ls → Ascending (rewritten p new ls)
    rewritten-Ascending ls h = ground (arith, erase-Ascending ls h, replace-Ascending ls h)

    pub rewritten-LevelsOk :
        (next : ℕ) (ls : Levels)
        → Fifo next new
        → LevelsOk next ls
        → LevelsOk next (rewritten p new ls)
    rewritten-LevelsOk next ls f h = elim (Bool-cases (is_nil new)) [
      | inl e ↦ rw e (erase-LevelsOk next ls h)
      | inr e ↦ rw e (replace-LevelsOk next ls (λ (z : new ≡ []). cc (ap is_nil z)) f h)
    ]

    -- Lookups afterwards; at the price itself only the orders of the new queue are there.
    pub lookup-rewritten :
        (k : ℕ) (ls : Levels) (old : OrderQueue)
        → lookup p ls ≡ some old
        → lookup k (rewritten p new ls)
          ≡ (if p == k then (if is_nil new then none else some new) else lookup k ls)
    lookup-rewritten k ls old h = ground (arith, lookup-erase p k ls, lookup-replace p k new old ls)
