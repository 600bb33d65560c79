-- ===== src/Matching/Validity/Queues.antt =====
-- The queues of a book by side and price, before and after a cancellation.
use nanosecond_trading_stack.Common.{
  ℕ, ◌<◌, ◌≡◌, refl, ap, sym, Bool, true, false, ◌&&◌, [], ◌∷◌, Option, none, some, All, arith,
  ◌==◌, if◌then◌else◌, Bool-cases, inl, inr, ==→eq, is_nil,
}
use nanosecond_trading_stack.Common.Assoc.{lookup}
use nanosecond_trading_stack.Matching.Book.{OrderBook, levels_of}
use nanosecond_trading_stack.Matching.Types.{
  Side, buy, sell, RestingOrder, OrderQueue, OrderLocation, Levels,
}
use nanosecond_trading_stack.Matching.Validity.Placed.{removed}
use nanosecond_trading_stack.Matching.Validity.Rewritten.{rewritten, lookup-rewritten}
use nanosecond_trading_stack.Matching.Validity.{Fifo}

abbrev pub queue_of : Option OrderQueue → OrderQueue
queue_of none = []
queue_of (some q) = q

-- The orders that wait at a price, in their order; none where the price has no level.
abbrev pub queue_at : Side → ℕ → OrderBook → OrderQueue
queue_at side p b = queue_of (lookup p (levels_of side b))

abbrev pub same_side : Side → Side → Bool
same_side buy buy = true
same_side buy sell = false
same_side sell buy = false
same_side sell sell = true

-- The queue without the nodes at one address.
abbrev pub without : ℕ → OrderQueue → OrderQueue
without a [] = []
without a (n ∷ q) = let rest = without a q in if n.addr == a then rest else n ∷ rest

-- What is left of the queue of a side and a price once the order at a location is gone.
abbrev pub left_of : Option OrderLocation → Side → ℕ → OrderQueue → OrderQueue
left_of none side p q = q
left_of (some loc) side p q =
    if same_side loc.side side && (loc.price == p) then without loc.iter q else q

without-above :
    (a : ℕ) (q : OrderQueue) → All (λ (m : RestingOrder). a < m.addr) q → without a q ≡ q
without-above a [] h = refl
without-above a (n ∷ q) h = ground (arith, without-above a q)

-- Addresses do not come twice in a queue.
pub removed-without : (a next : ℕ) (q : OrderQueue) → Fifo next q → removed a q ≡ without a q
unfolding removed
removed-without a next [] f = refl
removed-without a next (n ∷ q) (_, _, above, f) = elim (Bool-cases (n.addr == a)) [
  | inl e ↦ rw e (sym (without-above a q (rw (==→eq n.addr a e) at above)))
  | inr e ↦ rw e (ap (λ r. n ∷ r) (removed-without a next q f))
]

pub queue_of-rewritten :
    (p k : ℕ) (new old : OrderQueue) (ls : Levels)
    → lookup p ls ≡ some old
    → queue_of (lookup k (rewritten p new ls)) ≡ (if p == k then new else queue_of (lookup k ls))
queue_of-rewritten p k new old ls h =
    rw (lookup-rewritten p new k ls old h)
      (elim (Bool-cases (p == k)) [ inl e ↦ rw e (at_price new) | inr e ↦ rw e refl ])
  where
    at_price : (q : OrderQueue) → queue_of (if is_nil q then none else some q) ≡ q
    at_price [] = refl
    at_price (n ∷ q) = refl
