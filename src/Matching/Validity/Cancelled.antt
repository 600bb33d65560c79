-- ===== src/Matching/Validity/Cancelled.antt =====
-- `cancel` on a valid book.
use nanosecond_trading_stack.Matching.Validity.Rewritten.{
  rewritten, rewritten-Ascending, rewritten-LevelsOk, lookup-rewritten,
}
use nanosecond_trading_stack.Common.{
  List, ℕ, ◌≡◌, refl, ◌≢◌, inl, inr, Bool, true, false, [], ◌∷◌, Option, none, some, arith, ◌==◌,
  if◌then◌else◌, Bool-cases, ==→eq, Option-cases, is_nil,
}
use nanosecond_trading_stack.Common.Assoc.{lookup, erase, lookup-erase}
use nanosecond_trading_stack.Matching.Book.{OrderBook, levels_of, set_levels, cancel}
use nanosecond_trading_stack.Matching.Sorted.{Ascending}
use nanosecond_trading_stack.Matching.Types.{Side, buy, sell, OrderQueue, OrderLocation, Levels}
use nanosecond_trading_stack.Matching.Validity.Placed.{
  removed, erase_node-removed, removed-HasNode, removed-Fifo,
}
use nanosecond_trading_stack.Matching.Validity.Queues.{
  queue_at, queue_of, without, left_of, removed-without, queue_of-rewritten,
}
use nanosecond_trading_stack.Matching.Validity.{Fifo, LevelsOk, HasNode, AtLevel, IsValid}

abbrev FifoAt : ℕ → Option OrderQueue → Type 0
FifoAt next none = Unit {0}
FifoAt next (some q) = Fifo next q

lookup-FifoAt : (next p : ℕ) (ls : Levels) → LevelsOk next ls → FifoAt next (lookup p ls)
unfolding lookup
lookup-FifoAt next p [] h = tt
lookup-FifoAt next p ((j, r) ∷ ls) h = elim (Bool-cases (j == p)) [
  | inl t ↦ rw t h.1
  | inr t ↦ rw t (lookup-FifoAt next p ls h.2)
]

AtLevel-cases :
    (a id : ℕ) (o : Option OrderQueue)
    → AtLevel a id o
    → (q : OrderQueue) × (o ≡ some q) × HasNode a id q
AtLevel-cases a id none h = absurd h
AtLevel-cases a id (some q) h = (q, refl, h)

HasNode-AtLevel :
    (a id : ℕ) (q : OrderQueue) → HasNode a id q → AtLevel a id (if is_nil q then none else some q)
HasNode-AtLevel a id [] h = h
HasNode-AtLevel a id (n ∷ q) h = h

levels-Ascending : {b : OrderBook} (side : Side) → IsValid b → Ascending (levels_of side b)
levels-Ascending buy v = v.bids_sorted
levels-Ascending sell v = v.asks_sorted

levels-LevelsOk :
    {b : OrderBook} (side : Side) → IsValid b → LevelsOk b.next_addr (levels_of side b)
levels-LevelsOk buy v = v.bids_ok
levels-LevelsOk sell v = v.asks_ok

module _ (id : ℕ) (b : OrderBook) (v : IsValid b) (price iter : ℕ) (q : OrderQueue) where
  abbrev shorter : OrderQueue
  shorter = removed iter q

  -- The book after the node at `iter` of the queue `q` has been erased.
  abbrev pub cancelled : Side → OrderBook
  cancelled side =
      set_levels side (rewritten price shorter (levels_of side b))
        (record b { locations = erase id b.locations })

  module _ (side : Side) (found : lookup price (levels_of side b) ≡ some q)
      (here : HasNode iter id q) where
    sorted : Ascending (rewritten price shorter (levels_of side b))
    sorted = rewritten-Ascending price shorter (levels_of side b) (levels-Ascending side v)

    fifo : Fifo b.next_addr q
    fifo = rw found at (lookup-FifoAt b.next_addr price (levels_of side b) (levels-LevelsOk side v))

    queues : LevelsOk b.next_addr (rewritten price shorter (levels_of side b))
    queues =
        rewritten-LevelsOk price shorter b.next_addr (levels_of side b)
          (removed-Fifo iter b.next_addr q fifo) (levels-LevelsOk side v)

    still_there :
        (k a at : ℕ)
        → k ≢ id
        → AtLevel a k (lookup at (levels_of side b))
        → AtLevel a k (lookup at (rewritten price shorter (levels_of side b)))
    still_there k a at ne h =
        rw (lookup-rewritten price shorter at (levels_of side b) q found)
          (elim (Bool-cases (price == at)) [
            | inl e ↦
                let old : AtLevel a k (some q) = rw found at (rw (← ==→eq price at e) at h) in
                rw e (
                  HasNode-AtLevel a k shorter
                    (removed-HasNode iter id b.next_addr q a k fifo here ne old))
            | inr e ↦ rw e h
          ])

    table :
        (k : ℕ) (loc : OrderLocation)
        → lookup k (erase id b.locations) ≡ some loc
        → (k ≢ id) × (lookup k b.locations ≡ some loc)
    table k loc h =
        let e : (if id == k then none else lookup k b.locations) ≡ some loc =
          rw lookup-erase at h in
        ground arith

  same_queue :
      (ls : Levels) (next k : ℕ)
      → LevelsOk next ls
      → lookup price ls ≡ some q
      → queue_of (lookup k (rewritten price shorter ls))
        ≡ (if price == k then without iter (queue_of (lookup k ls)) else queue_of (lookup k ls))
  same_queue ls next k ok found =
      let fifo : Fifo next q = rw found at (lookup-FifoAt next price ls ok) in
      rw (queue_of-rewritten price k shorter q ls found) (elim (Bool-cases (price == k)) [
        | inl e ↦ rw (e, ← ==→eq price k e, found) (removed-without iter next q fifo)
        | inr e ↦ rw e refl
      ])

  -- Only the queue at the price is another one.
  queue_at-cancelled :
      (side at : Side) (k : ℕ)
      → lookup price (levels_of side b) ≡ some q
      → queue_at at k (cancelled side)
        ≡ left_of (some (record { side = side; price = price; iter = iter })) at k (queue_at at k b)
  queue_at-cancelled buy sell k found = refl
  queue_at-cancelled sell buy k found = refl
  queue_at-cancelled buy buy k found = same_queue b.bids b.next_addr k v.bids_ok found
  queue_at-cancelled sell sell k found = same_queue b.asks b.next_addr k v.asks_ok found

  locations-cancelled : (side : Side) → (cancelled side).locations ≡ erase id b.locations
  locations-cancelled buy = refl
  locations-cancelled sell = refl

  cancelled-IsValid :
      (side : Side)
      → lookup price (levels_of side b) ≡ some q
      → HasNode iter id q
      → IsValid (cancelled side)
  cancelled-IsValid buy found here = record {
    bids_sorted = sorted buy found here;
    asks_sorted = v.asks_sorted;
    bids_ok = queues buy found here;
    asks_ok = v.asks_ok;
    located = λ k loc e.
        let (ne, old) = table buy found here k loc e in
        at_side loc.side k loc ne (v.located k loc old);
  }
    where
      at_side :
          (at : Side) (k : ℕ) (loc : OrderLocation)
          → k ≢ id
          → AtLevel loc.iter k (lookup loc.price (levels_of at b))
          → AtLevel loc.iter k (lookup loc.price (levels_of at (cancelled buy)))
      at_side buy k loc ne h = still_there buy found here k loc.iter loc.price ne h
      at_side sell k loc ne h = h
  cancelled-IsValid sell found here = record {
    bids_sorted = v.bids_sorted;
    asks_sorted = sorted sell found here;
    bids_ok = v.bids_ok;
    asks_ok = queues sell found here;
    located = λ k loc e.
        let (ne, old) = table sell found here k loc e in
        at_side loc.side k loc ne (v.located k loc old);
  }
    where
      at_side :
          (at : Side) (k : ℕ) (loc : OrderLocation)
          → k ≢ id
          → AtLevel loc.iter k (lookup loc.price (levels_of at b))
          → AtLevel loc.iter k (lookup loc.price (levels_of at (cancelled sell)))
      at_side sell k loc ne h = still_there sell found here k loc.iter loc.price ne h
      at_side buy k loc ne h = h

abbrev pub is_known : Option OrderLocation → Bool
is_known none = false
is_known (some _) = true

-- On a valid book the location of an order leads to its node, which `cancel` erases.
pub cancel_found :
    (id : ℕ) (b : OrderBook) (v : IsValid b) (loc : OrderLocation)
    → lookup id b.locations ≡ some loc
    → (q : OrderQueue) × (lookup loc.price (levels_of loc.side b) ≡ some q)
      × HasNode loc.iter id q
      × (cancel id b ≡ some (true, cancelled id b v loc.price loc.iter q loc.side))
unfolding cancel
cancel_found id b v loc e =
    let (q, found, here) = AtLevel-cases loc.iter id _ (v.located id loc e) in
    (
      q,
      found,
      here,
      rw (e, cancel) (rw (found, cancel) (rw (erase_node-removed loc.iter id q here, cancel))),
    )

absent_stays :
    (id : ℕ) (m : List (ℕ × OrderLocation))
    → lookup id m ≡ none
    → (k : ℕ) → lookup k m ≡ (if id == k then none else lookup k m)
absent_stays id m h k = elim (Bool-cases (id == k)) [
  | inl e ↦ rw e (rw (==→eq id k e) at h)
  | inr e ↦ rw e refl
]

-- On a valid book `cancel` meets no dead iterator. It returns whether the id was in the table,
-- takes it out of the table, leaves the rest of the table, and keeps the invariant. Its node is gone
-- from the queue where it was, with the other nodes in their order, and every other queue stays.
pub cancel_total :
    (order_id : ℕ) (b : OrderBook)
    → IsValid b
    → (r : Bool × OrderBook) × (cancel order_id b ≡ some r)
      × (r.0 ≡ is_known (lookup order_id b.locations))
      × ((k : ℕ) → lookup k r.1.locations ≡ (if order_id == k then none else lookup k b.locations))
      × IsValid r.1
      × ((side : Side) (p : ℕ)
          → queue_at side p r.1 ≡ left_of (lookup order_id b.locations) side p (queue_at side p b))
cancel_total id b v = elim (Option-cases (lookup id b.locations)) [
  | inl e ↦ (
    (false, b),
    unfold cancel in rw (e, cancel),
    rw e,
    absent_stays id b.locations e,
    v,
    λ side p. rw e refl,
  )
  | inr (loc, e) ↦
      let (q, found, here, run) = cancel_found id b v loc e in
      let table = locations-cancelled id b v loc.price loc.iter q loc.side in
      (
        (true, cancelled id b v loc.price loc.iter q loc.side),
        run,
        rw e,
        (λ k. rw table (lookup-erase id k b.locations)),
        cancelled-IsValid id b v loc.price loc.iter q loc.side found here,
        (λ side p. rw e (queue_at-cancelled id b v loc.price loc.iter q loc.side side p found)),
      )
]
