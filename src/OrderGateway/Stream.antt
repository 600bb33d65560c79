-- ===== src/OrderGateway/Stream.antt =====
-- src/order_gateway.cpp: the loop that sends a message.
use nanosecond_trading_stack.Common.{
  ℕ, zero, suc, ◌≡◌, refl, sym, ap, is_nil, ◌∙◌, List, [], ◌∷◌, ◌++◌, length, ◌==◌, take, drop,
  arith, Bool-cases, inl, inr,
}
use nanosecond_trading_stack.OrderGateway.{Sent, took, again, send_failed, send_all}

pub take-drop {ℓ} : {A : Type ℓ} (n : ℕ) (xs : List A) → take n xs ++ drop n xs ≡ xs
take-drop zero xs = refl
take-drop (suc n) [] = refl
take-drop (suc n) (x ∷ xs) = ap (λ ys. x ∷ ys) (take-drop n xs)

pub append_assoc {ℓ} : {A : Type ℓ} (xs ys zs : List A) → (xs ++ ys) ++ zs ≡ xs ++ (ys ++ zs)
append_assoc [] ys zs = refl
append_assoc (x ∷ xs) ys zs = ap (λ l. x ∷ l) (append_assoc xs ys zs)

nil_length {ℓ} : {A : Type ℓ} (xs : List A) → (length xs == 0) ≡ is_nil xs
nil_length [] = refl
nil_length (x ∷ xs) = ground arith

-- What goes out is a beginning of the message, and the loop ends well just where nothing of the
-- message is left behind it.
pub send_all-Prefix :
    (message : List ℕ) (results : List Sent)
    → (left : List ℕ) × ((send_all message results).0 ++ left ≡ message)
      × ((send_all message results).1 ≡ is_nil left)
unfolding send_all
send_all-Prefix message [] = (message, refl, nil_length message)
send_all-Prefix message (again ∷ results) = elim (Bool-cases (length message == 0)) [
  | inl e ↦ rw e (message, refl, sym e ∙ nil_length message)
  | inr e ↦ rw e (send_all-Prefix message results)
]
send_all-Prefix message (send_failed ∷ results) = elim (Bool-cases (length message == 0)) [
  | inl e ↦ rw e (message, refl, sym e ∙ nil_length message)
  | inr e ↦ rw e (message, refl, sym e ∙ nil_length message)
]
send_all-Prefix message (took n ∷ results) = elim (Bool-cases (length message == 0)) [
  | inl e ↦ rw e (message, refl, sym e ∙ nil_length message)
  | inr e ↦
      let (left, whole, last) = send_all-Prefix (drop n message) results in
      rw e (
        left,
        append_assoc (take n message) _ left
            ∙ (ap (λ ys. take n message ++ ys) whole ∙ take-drop n message),
        last,
      )
]
