-- ===== src/Tracer/Ring.antt =====
-- include/nts/instrument/tracer.h: the ring against the journal of all traces.
use Prim.Native.Nat.{bit_and}
use mathlib.Core.Path.{fun_ext}
use native.Mathlib.Nat.{mul-le-mul_right, div-add-mod, mul_comm}
use nanosecond_trading_stack.Common.{
  ℕ, suc, ◌+◌, ◌-◌, ◌*◌, ◌/◌, ◌%◌, ◌^◌, ◌≤◌, ◌<◌, ◌≡◌, ◌≢◌, ◌∙◌, refl, sym, Bool, true, false, not,
  Option, none, some, List, ◌∷◌, if◌then◌else◌, length, get_or, arith, dec_le,
}
use nanosecond_trading_stack.Oms.OrderMap.{update}
use nanosecond_trading_stack.Tracer.Journal.{Marks, no_marks, marks_of, mark, Journal}
use nanosecond_trading_stack.Tracer.{Hop, hop_index, TraceRecord, HopTracer, put}

-- Two counts less than a ring apart have different places in it.
places-differ : (c p q : ℕ) → p < q → q < p + c → p % c ≢ q % c
places-differ c p q lt near e = elim (dec_le (q / c) (p / c)) [
  | yes le ↦ absurd (
      omega (
        arith,
        mul-le-mul_right c le,
        div-add-mod p c,
        div-add-mod q c,
        mul_comm c (p / c),
        mul_comm c (q / c),
      ))
  | no more ↦
      let step : (p / c + 1) * c ≤ q / c * c = mul-le-mul_right c (omega arith) in
      absurd (
        omega
          (arith, step, div-add-mod p c, div-add-mod q c, mul_comm c (p / c), mul_comm c (q / c)))
]

update_self : {A : Type 0} (f : ℕ → A) (i : ℕ) (x : A) → update f i x i ≡ x
update_self f i x = ground arith

pub written :
    (traces : ℕ → TraceRecord) (i : ℕ) (r : TraceRecord) (m : Marks)
    → marks_of r ≡ m
    → (n : Marks) → ◌≡◌ {A = Option Marks} (some m) (some n)
    → marks_of (update traces i r i) ≡ n
written traces i r m e n eq = let e' : m ≡ n = cc (eq) in rw (update_self traces i r) (e ∙ e')

-- The trace number `p`, counted from 0, is behind the traces that came after it.
get-push :
    (m : Marks) (l : List Marks) (n p : ℕ)
    → p < n
    → get_or (m ∷ l) (suc n - 1 - p) no_marks ≡ get_or l (n - 1 - p) no_marks
get-push m l n p lt = let e : suc n - 1 - p ≡ suc (n - 1 - p) = omega arith in rw e refl

mark_update :
    (f : ℕ → Bool) (g : ℕ → ℕ) (i x h : ℕ)
    → (if update f i true h then some (update g i x h) else none)
      ≡ update (λ h. if f h then some (g h) else none) i (some x) h
mark_update f g i x h = ground arith

pub marks_of-put :
    (hop : Hop) (ticks : ℕ) (r : TraceRecord)
    → marks_of (put hop ticks r) ≡ mark hop ticks (marks_of r)
marks_of-put hop ticks r = fun_ext (λ h. mark_update r.recorded r.ticks (hop_index hop) ticks h)

module _ (c : ℕ) where
  -- The ring holds the traces that ended, but for the one whose place is next.
  abbrev pub Kept : (ℕ → TraceRecord) → List Marks → Type 0
  Kept traces l =
      (p : ℕ)
      → p < length l
      → length l < p + c
      → marks_of (traces (p % c)) ≡ get_or l (length l - 1 - p) no_marks

  pub Kept-write :
      (traces : ℕ → TraceRecord) (l : List Marks) (r : TraceRecord)
      → Kept traces l
      → Kept (update traces (length l % c) r) l
  Kept-write traces l r kept p lt near =
      ground (arith, kept p lt near, places-differ c p (length l) lt near)

  pub Kept-push :
      (traces : ℕ → TraceRecord) (l : List Marks) (m : Marks)
      → marks_of (traces (length l % c)) ≡ m
      → Kept traces l
      → Kept traces (m ∷ l)
  Kept-push traces l m e kept p lt near = elim (dec_le (length l) p) [
    | yes le ↦
        let here : p ≡ length l = omega arith in
        let first : suc (length l) - 1 - length l ≡ 0 = omega arith in rw (here, first) e
    | no more ↦ kept p (omega arith) (omega arith) ∙ sym (get-push m l (length l) p (omega arith))
  ]

abbrev pub is_some : Option Marks → Bool
is_some none = false
is_some (some m) = true

-- `j` is the journal of the calls that have led to `t`.
pub record IsJournal (t : HopTracer) (j : Journal) : Type 0 where
  pub wide : 1 < t.capacity
  pub narrow : t.capacity ≤ 2 ^ 63
  pub place : (x : ℕ) → bit_and x t.capacity_mask ≡ x % t.capacity
  pub counted : t.total_count ≡ length j.finished
  pub opened : t.in_trace ≡ is_some j.current
  pub enabling : t.enabled ≡ j.is_enabled
  pub kept : Kept t.capacity t.traces j.finished
  pub current :
      (m : Marks) → j.current ≡ some m → marks_of (t.traces (length j.finished % t.capacity)) ≡ m

-- The guard of a call and the guard of its entry in the journal decide alike.
pub guarded :
    (a b : Bool) (t u : HopTracer) (j k : Journal)
    → a ≡ b
    → IsJournal t j
    → IsJournal u k
    → IsJournal (if not a then t else u) (if b then k else j)
guarded true true t u j k e v w = w
guarded false false t u j k e v w = v
guarded true false t u j k e v w = absurd (cc e)
guarded false true t u j k e v w = absurd (cc e)

pub skipped :
    (a : Bool) (t u : HopTracer) (j : Journal)
    → a ≡ false
    → IsJournal t j
    → IsJournal (if not a then t else u) j
skipped true t u j e v = absurd (cc e)
skipped false t u j e v = v

pub taken :
    (a : Bool) (t u : HopTracer) (j : Journal)
    → a ≡ true
    → IsJournal u j
    → IsJournal (if not a then t else u) j
taken true t u j e v = v
taken false t u j e v = absurd (cc e)
