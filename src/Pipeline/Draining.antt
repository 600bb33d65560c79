-- ===== src/Pipeline/Draining.antt =====
-- The loop of src/main.cpp that handles the execution reports of a round.
use nanosecond_trading_stack.Common.{
  ℕ, zero, suc, ◌+◌, ◌-◌, ◌≡◌, ◌<◌, ◌≤◌, refl, some, List, [], ◌∷◌, ◌++◌, leb, length,
  length-append, drop, arith, Bool-cases, Option-cases, inl, inr,
}
use nanosecond_trading_stack.Double.{Double}
use nanosecond_trading_stack.Oms.{ExecutionReport}
use nanosecond_trading_stack.OrderGateway.{
  OrderGateway, Received, bytes, end_of_stream, interrupted, would_block, recv_failed, fill_buffer,
  poll_execution, close, buf_size, size_of_exec_report,
}
use nanosecond_trading_stack.Pipeline.Loop.{total_bytes, drain, process_execution}
use nanosecond_trading_stack.Pipeline.{State}

-- The bytes in the buffer and those that are still to come.
abbrev available : OrderGateway → List Received → ℕ
available g input = length g.read_buf + total_bytes input

fill_buffer-available :
    (input : List Received) (g : OrderGateway)
    → let (_, g', left) = fill_buffer input g in available g' left ≤ available g input
unfolding fill_buffer close
fill_buffer-available [] g = omega arith
fill_buffer-available (bytes bs ∷ input) g = elim (Bool-cases (leb buf_size (length g.read_buf))) [
  | inl e ↦ rw e (omega arith)
  | inr e ↦ rw e (
      omega (
        arith,
        length-append g.read_buf bs,
        fill_buffer-available input (record g { read_buf = g.read_buf ++ bs }),
      ))
]
fill_buffer-available (interrupted ∷ input) g =
    elim (Bool-cases (leb buf_size (length g.read_buf))) [
      | inl e ↦ rw e (omega arith)
      | inr e ↦ rw e (omega (arith, fill_buffer-available input g))
    ]
fill_buffer-available (end_of_stream ∷ input) g =
    elim (Bool-cases (leb buf_size (length g.read_buf))) [
      | inl e ↦ rw e (omega arith)
      | inr e ↦ rw e (omega arith)
    ]
fill_buffer-available (would_block ∷ input) g =
    elim (Bool-cases (leb buf_size (length g.read_buf))) [
      | inl e ↦ rw e (omega arith)
      | inr e ↦ rw e (omega arith)
    ]
fill_buffer-available (recv_failed ∷ input) g =
    elim (Bool-cases (leb buf_size (length g.read_buf))) [
      | inl e ↦ rw e (omega arith)
      | inr e ↦ rw e (omega arith)
    ]

length-drop : (n : ℕ) (xs : List ℕ) → length (drop n xs) ≡ length xs - n
length-drop zero xs = omega arith
length-drop (suc n) [] = omega arith
length-drop (suc n) (x ∷ xs) = omega (arith, length-drop n xs)

module _ {ℓ} {D : Type ℓ} ⦃d : Double D⦄ (decode : List ℕ → ExecutionReport D) where
  -- A poll that gives a report leaves fewer bytes.
  poll_execution-shrinks :
      (input : List Received) (g : OrderGateway) (e : ExecutionReport D)
      → let (exec, g', left) = poll_execution decode input g in
        exec ≡ some e → available g' left < available g input
  unfolding poll_execution
  poll_execution-shrinks input g e h = ground (
    arith,
    fill_buffer-available input g,
    length-drop size_of_exec_report (fill_buffer input g).1.read_buf,
  )

  process_execution-gateway :
      (e : ExecutionReport D) (ticks : ℕ × ℕ) (s : State D)
      → (process_execution e ticks s).gateway ≡ s.gateway
  unfolding process_execution
  process_execution-gateway e ticks s = ground arith

  -- The loop that handles the reports ends by its own test: with more fuel than the bytes that are
  -- there, it does not matter how much fuel it has.
  pub drain-Ends :
      (fuel more : ℕ) (ticks : ℕ → ℕ × ℕ) (input : List Received) (n : ℕ) (s : State D)
      → available s.gateway input < fuel
      → available s.gateway input < more
      → drain fuel decode ticks input n s ≡ drain more decode ticks input n s
  unfolding drain
  drain-Ends zero more ticks input n s h k = absurd (omega arith)
  drain-Ends (suc fuel) zero ticks input n s h k = absurd (omega arith)
  drain-Ends (suc fuel) (suc more) ticks input n s h k =
      elim (Option-cases (poll_execution decode input s.gateway).0) [
        | inl e ↦ rw (e, drain) refl
        | inr (x, e) ↦
            let (exec, g, left) = poll_execution decode input s.gateway in
            let less = poll_execution-shrinks input s.gateway x e in
            let same = process_execution-gateway x (ticks n) (record s { gateway = g }) in
            let less' : available (process_execution x (ticks n) (record s { gateway = g })).gateway
                  left
                < available s.gateway input =
              rw same less in
            rw (e, drain)
              (drain-Ends fuel more ticks left (n + 1)
                (process_execution x (ticks n) (record s { gateway = g })) (omega arith)
                (omega arith))
      ]
