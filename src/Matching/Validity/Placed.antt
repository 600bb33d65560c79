-- ===== src/Matching/Validity/Placed.antt =====
-- Placing an order at the end of its level's queue, and taking one out of a queue.
use nanosecond_trading_stack.Common.{
  ℕ, ◌+◌, ◌<◌, ◌≡◌, refl, ◌≢◌, inl, inr, [], ◌∷◌, ◌++◌, Option, none, some, All, All-append, arith,
  ◌==◌, if◌then◌else◌, ltb, Bool-cases, ==→eq, ==_refl,
}
use nanosecond_trading_stack.Common.Assoc.{lookup}
use nanosecond_trading_stack.Matching.Levels.{push_back, erase_node}
use nanosecond_trading_stack.Matching.Sorted.{Ascending, lookup-of_lt}
use nanosecond_trading_stack.Matching.Types.{RestingOrder, OrderQueue, Levels}
use nanosecond_trading_stack.Matching.Validity.{Fifo, LevelsOk, HasNode, AtLevel}

Fifo-addr : (next : ℕ) (q : OrderQueue) → Fifo next q → All (λ (n : RestingOrder). n.addr < next) q
Fifo-addr next [] f = tt
Fifo-addr next (n ∷ q) f = (f.1, Fifo-addr next q f.3)

Fifo-suc : (next : ℕ) (q : OrderQueue) → Fifo next q → Fifo (next + 1) q
Fifo-suc next [] f = tt
Fifo-suc next (n ∷ q) f = (f.0, omega arith, f.2, Fifo-suc next q f.3)

pub LevelsOk-suc : (next : ℕ) (ls : Levels) → LevelsOk next ls → LevelsOk (next + 1) ls
LevelsOk-suc next [] h = tt
LevelsOk-suc next ((p, q) ∷ ls) h = (h.0, Fifo-suc next q h.1, LevelsOk-suc next ls h.2)

Fifo-append :
    (n : RestingOrder) (q : OrderQueue)
    → 0 < n.qty
    → Fifo n.addr q
    → Fifo (n.addr + 1) (q ++ (n ∷ []))
Fifo-append n [] h f = (h, omega arith, tt, tt)
Fifo-append n (m ∷ q) h f = (
  f.0,
  omega arith,
  All-append (λ (x : RestingOrder). m.addr < x.addr) q (n ∷ []) f.2 (f.1, tt),
  Fifo-append n q h f.3,
)

append-ne-nil : (q : OrderQueue) (n : RestingOrder) → q ++ (n ∷ []) ≢ []
append-ne-nil [] n e = cc
append-ne-nil (m ∷ q) n e = cc

-- The queue of a price after `push_back`, from the one before.
abbrev pub pushed : RestingOrder → Option OrderQueue → OrderQueue
pushed n none = n ∷ []
pushed n (some q) = q ++ (n ∷ [])

module _ (p : ℕ) (n : RestingOrder) where
  pub push_back-LevelsOk :
      (ls : Levels) → 0 < n.qty → LevelsOk n.addr ls → LevelsOk (n.addr + 1) (push_back ltb p n ls)
  unfolding push_back
  push_back-LevelsOk [] h a = ground arith
  push_back-LevelsOk ((j, q) ∷ ls) h a = ground (
    arith,
    push_back-LevelsOk ls,
    LevelsOk-suc n.addr ls,
    Fifo-suc n.addr q,
    Fifo-append n q,
    append-ne-nil q n,
  )

  push_back-All :
      (P : ℕ → Type 0) (ls : Levels)
      → P p
      → All (λ (l : ℕ × OrderQueue). P l.0) ls
      → All (λ (l : ℕ × OrderQueue). P l.0) (push_back ltb p n ls)
  unfolding push_back
  push_back-All P [] h a = (h, tt)
  push_back-All P ((j, q) ∷ ls) h a = ground (arith, push_back-All P ls)

  All-trans :
      (j : ℕ) (ls : Levels)
      → p < j
      → All (λ (l : ℕ × OrderQueue). j < l.0) ls
      → All (λ (l : ℕ × OrderQueue). p < l.0) ls
  All-trans j [] h a = tt
  All-trans j (l ∷ ls) h a = (omega arith, All-trans j ls h a.1)

  pub push_back-Ascending : (ls : Levels) → Ascending ls → Ascending (push_back ltb p n ls)
  unfolding push_back
  push_back-Ascending [] a = (tt, tt)
  push_back-Ascending ((j, q) ∷ ls) a =
      ground (arith, push_back-Ascending ls, push_back-All (λ k. j < k) ls, All-trans j ls)

  pub lookup-push_back :
      (k : ℕ) (ls : Levels)
      → Ascending ls
      → lookup k (push_back ltb p n ls)
        ≡ (if p == k then some (pushed n (lookup p ls)) else lookup k ls)
  unfolding lookup push_back
  lookup-push_back k [] a = ground arith
  lookup-push_back k ((j, q) ∷ ls) a =
      ground (arith, lookup-push_back k ls, All-trans j ls, lookup-of_lt p ls)

HasNode-append :
    (a id : ℕ) (q : OrderQueue) (n : RestingOrder) → HasNode a id q → HasNode a id (q ++ (n ∷ []))
HasNode-append a id (m ∷ q) n (inl e) = inl e
HasNode-append a id (m ∷ q) n (inr h) = inr (HasNode-append a id q n h)
HasNode-append a id [] n h = absurd h

HasNode-last : (q : OrderQueue) (n : RestingOrder) → HasNode n.addr n.id (q ++ (n ∷ []))
HasNode-last [] n = inl (refl, refl)
HasNode-last (m ∷ q) n = inr (HasNode-last q n)

HasNode-pushed :
    (a id : ℕ) (o : Option OrderQueue) (n : RestingOrder)
    → AtLevel a id o
    → HasNode a id (pushed n o)
HasNode-pushed a id none n h = absurd h
HasNode-pushed a id (some q) n h = HasNode-append a id q n h

HasNode-pushed_new : (o : Option OrderQueue) (n : RestingOrder) → HasNode n.addr n.id (pushed n o)
HasNode-pushed_new none n = inl (refl, refl)
HasNode-pushed_new (some q) n = HasNode-last q n

module _ (p : ℕ) (n : RestingOrder) (ls : Levels) (sorted : Ascending ls) where
  pub push_back-AtLevel :
      (a id k : ℕ) → AtLevel a id (lookup k ls) → AtLevel a id (lookup k (push_back ltb p n ls))
  push_back-AtLevel a id k h = rw (lookup-push_back p n k ls sorted) (elim (Bool-cases (p == k)) [
    | inl e ↦ rw e (HasNode-pushed a id (lookup p ls) n (rw (==→eq p k e) h))
    | inr e ↦ rw e h
  ])

  pub push_back-AtLevel_new : AtLevel n.addr n.id (lookup p (push_back ltb p n ls))
  push_back-AtLevel_new =
      rw (lookup-push_back p n p ls sorted, ==_refl p) (HasNode-pushed_new (lookup p ls) n)

HasNode-addr :
    (x a id : ℕ) (q : OrderQueue)
    → All (λ (m : RestingOrder). x < m.addr) q
    → HasNode a id q
    → x < a
HasNode-addr x a id (n ∷ q) h (inl e) = omega arith
HasNode-addr x a id (n ∷ q) h (inr m) = HasNode-addr x a id q h.1 m
HasNode-addr x a id [] h m = absurd m

-- The queue without the first node at the address.
unfoldable pub removed : ℕ → OrderQueue → OrderQueue
removed a [] = []
removed a (n ∷ q) = if n.addr == a then q else n ∷ removed a q

module _ (a id : ℕ) where
  -- An iterator into the queue can be erased.
  pub erase_node-removed : (q : OrderQueue) → HasNode a id q → erase_node a q ≡ some (removed a q)
  unfolding erase_node removed
  erase_node-removed [] h = absurd h
  erase_node-removed (n ∷ q) h = ground (arith, erase_node-removed q)

  -- What stands in the queue for another order stays there.
  pub removed-HasNode :
      (next : ℕ) (q : OrderQueue) (b k : ℕ)
      → Fifo next q
      → HasNode a id q
      → k ≢ id
      → HasNode b k q
      → HasNode b k (removed a q)
  unfolding removed
  removed-HasNode next [] b k f h ne m = m
  removed-HasNode next (n ∷ q) b k f h ne m = ground (
    arith,
    removed-HasNode next q b k,
    HasNode-addr n.addr a id q f.2,
    HasNode-addr n.addr b k q f.2,
  )

removed-All :
    (a : ℕ) (P : ℕ → Type 0) (q : OrderQueue)
    → All (λ (n : RestingOrder). P n.addr) q
    → All (λ (n : RestingOrder). P n.addr) (removed a q)
unfolding removed
removed-All a P [] h = tt
removed-All a P (n ∷ q) h = ground (arith, removed-All a P q)

pub removed-Fifo : (a next : ℕ) (q : OrderQueue) → Fifo next q → Fifo next (removed a q)
unfolding removed
removed-Fifo a next [] f = tt
removed-Fifo a next (n ∷ q) f =
    ground (arith, removed-Fifo a next q, removed-All a (λ x. n.addr < x) q)
