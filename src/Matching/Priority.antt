-- ===== src/Matching/Priority.antt =====
-- Price-time priority: what an order trades, read off one list of the resting orders.
use mathlib.Core.List.{append_assoc, append-nil}
use nanosecond_trading_stack.Common.{
  ℕ, ◌+◌, ◌-◌, ◌≡◌, refl, sym, min, Bool, true, false, List, [], ◌∷◌, ◌++◌, arith, ◌==◌,
  if◌then◌else◌,
}
use nanosecond_trading_stack.Matching.Engine.{match_levels}
use nanosecond_trading_stack.Matching.Levels.{Flow, trade, forget, fill_queue}
use nanosecond_trading_stack.Matching.Loops.{fill_queue_done}
use nanosecond_trading_stack.Matching.Types.{Side, Fill, RestingOrder, OrderQueue, Levels}
use nanosecond_trading_stack.Matching.Validity.{LevelsOk}

abbrev pub Waiting : Type 0
Waiting = List (ℕ × RestingOrder)

abbrev pub at_price : ℕ → OrderQueue → Waiting
at_price p [] = []
at_price p (n ∷ q) = (p, n) ∷ at_price p q

-- The resting orders of some levels, in the order of the levels and of their queues.
abbrev pub priority : Levels → Waiting
priority [] = []
priority ((p, q) ∷ ls) = at_price p q ++ priority ls

abbrev pub filled : List Fill → ℕ
filled [] = 0
filled (f ∷ fs) = f.qty + filled fs

abbrev pub held : Waiting → ℕ
held [] = 0
held ((p, n) ∷ w) = n.qty + held w

module _ (side : Side) (stop : ℕ → Bool) (taker_id : ℕ) where
  -- The trades of a quantity `r` with the waiting orders one after the other, until it is used up
  -- or a price is not acceptable.
  unfoldable pub consume : ℕ → Waiting → List Fill
  consume r [] = []
  consume r ((p, n) ∷ w) =
      let qty = min r n.qty in
      let more = consume (r - qty) w in
      let fill : Fill = record {
        maker_id = n.id;
        taker_id = taker_id;
        price = p;
        qty = qty;
        side = side;
      } in
      if r == 0 then [] else if stop p then [] else fill ∷ more

  -- The orders that still wait afterwards.
  unfoldable pub leftover : ℕ → Waiting → Waiting
  leftover r [] = []
  leftover r ((p, n) ∷ w) =
      let qty = min r n.qty in
      let more = leftover (r - qty) w in
      if r == 0
      then (p, n) ∷ w
      else if stop p
      then (p, n) ∷ w
      else if n.qty - qty == 0
      then more
      else (p, record n { qty = n.qty - qty }) ∷ w

  consume-done : (w : Waiting) → consume 0 w ≡ []
  unfolding consume
  consume-done [] = refl
  consume-done ((p, n) ∷ w) = refl

  leftover-done : (w : Waiting) → leftover 0 w ≡ w
  unfolding leftover
  leftover-done [] = refl
  leftover-done ((p, n) ∷ w) = refl

  consume-stopped :
      (p : ℕ) (n : RestingOrder) (w : Waiting) (r : ℕ) → stop p ≡ true → consume r ((p, n) ∷ w) ≡ []
  unfolding consume
  consume-stopped p n w r h = ground arith

  leftover-stopped :
      (p : ℕ) (n : RestingOrder) (w : Waiting) (r : ℕ)
      → stop p ≡ true
      → leftover r ((p, n) ∷ w) ≡ (p, n) ∷ w
  unfolding leftover
  leftover-stopped p n w r h = ground arith

  abbrev fill_of : ℕ → RestingOrder → ℕ → Fill
  fill_of p n r = record {
    maker_id = n.id;
    taker_id = taker_id;
    price = p;
    qty = min r n.qty;
    side = side;
  }

  -- One level, with the levels behind it.
  fill_queue-consume :
      (p : ℕ) (q : OrderQueue) (s : Flow) (w : Waiting)
      → stop p ≡ false
      → let f = fill_queue side p taker_id q s in
        s.fills ++ consume s.remaining (at_price p q ++ w)
        ≡ f.1.fills ++ consume f.1.remaining (at_price p f.0 ++ w)
  unfolding fill_queue consume
  fill_queue-consume p [] s w h = refl
  fill_queue-consume p (n ∷ q) s w h =
      let t = trade side p taker_id n s in
      let more = at_price p q ++ w in
      ground (
        arith,
        fill_queue-consume p q (forget n.id t) w h,
        append_assoc s.fills (fill_of p n s.remaining ∷ []) (consume t.remaining more),
        consume-done more,
        append-nil t.fills,
      )

  fill_queue-leftover :
      (p : ℕ) (q : OrderQueue) (s : Flow) (w : Waiting)
      → stop p ≡ false
      → let f = fill_queue side p taker_id q s in
        leftover s.remaining (at_price p q ++ w) ≡ leftover f.1.remaining (at_price p f.0 ++ w)
  unfolding fill_queue leftover
  fill_queue-leftover p [] s w h = refl
  fill_queue-leftover p (n ∷ q) s w h =
      let t = trade side p taker_id n s in
      ground (arith, fill_queue-leftover p q (forget n.id t) w h)

  -- The loop over the levels trades as the one list says.
  pub match_levels-consume :
      (next : ℕ) (ls : Levels) (s : Flow)
      → LevelsOk next ls
      → (match_levels side stop taker_id ls s).1.fills
        ≡ s.fills ++ consume s.remaining (priority ls)
  unfolding match_levels
  match_levels-consume next [] s h = unfold consume in sym (append-nil s.fills)
  match_levels-consume next ((p, []) ∷ ls) s h = absurd (h.0 refl)
  match_levels-consume next ((p, n ∷ q) ∷ ls) s h =
      let f = fill_queue side p taker_id (n ∷ q) s in
      let w = priority ls in
      ground (
        arith,
        match_levels-consume next ls f.1,
        fill_queue-consume p (n ∷ q) s w,
        fill_queue_done side p taker_id (n ∷ q) s,
        consume-done (at_price p f.0 ++ w),
        consume-done (at_price p (n ∷ q) ++ w),
        consume-stopped p n (at_price p q ++ w) s.remaining,
        append-nil s.fills,
        append-nil f.1.fills,
      )

  -- And leaves the orders that the one list says.
  pub match_levels-leftover :
      (next : ℕ) (ls : Levels) (s : Flow)
      → LevelsOk next ls
      → priority (match_levels side stop taker_id ls s).0 ≡ leftover s.remaining (priority ls)
  unfolding match_levels
  match_levels-leftover next [] s h = unfold leftover in refl
  match_levels-leftover next ((p, []) ∷ ls) s h = absurd (h.0 refl)
  match_levels-leftover next ((p, n ∷ q) ∷ ls) s h =
      let f = fill_queue side p taker_id (n ∷ q) s in
      let w = priority ls in
      ground (
        arith,
        match_levels-leftover next ls f.1,
        fill_queue-leftover p (n ∷ q) s w,
        fill_queue_done side p taker_id (n ∷ q) s,
        leftover-done (at_price p f.0 ++ w),
        leftover-done (at_price p (n ∷ q) ++ w),
        leftover-stopped p n (at_price p q ++ w) s.remaining,
      )
