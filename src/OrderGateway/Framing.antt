-- ===== src/OrderGateway/Framing.antt =====
-- src/order_gateway.cpp: the reports that `poll_execution` finds in the stream of bytes.
use nanosecond_trading_stack.Common.{
  ℕ, zero, suc, ◌+◌, ◌<◌, ◌≤◌, ◌≡◌, refl, sym, ap, ◌∙◌, subst, true, false, some, none, Option, ◌⊎◌,
  List, [], ◌∷◌, ◌++◌, take, drop, length, arith, ltb, leb, Bool-cases, inl, inr, u64_mod,
  length-append, ltb→lt,
}
use nanosecond_trading_stack.Oms.{ExecutionReport}
use nanosecond_trading_stack.OrderGateway.Stream.{append_assoc}
use nanosecond_trading_stack.OrderGateway.Delivered.{opened}
use nanosecond_trading_stack.OrderGateway.Wire.{read_report}
use nanosecond_trading_stack.OrderGateway.RoundTrip.{
  IsReport, report_bytes, read_report-report_bytes,
}
use nanosecond_trading_stack.OrderGateway.{
  OrderGateway, Received, bytes, Reading, end_of_stream, interrupted, would_block, recv_failed,
  fill_buffer, go_on, stop, close, poll_execution, buf_size, size_of_exec_report,
}

-- The bytes that the results of `recv` bring, up to the end of the stream.
abbrev pub arriving : List Received → List ℕ
arriving [] = []
arriving (bytes bs ∷ input) = bs ++ arriving input
arriving (interrupted ∷ input) = arriving input
arriving (would_block ∷ input) = arriving input
arriving (end_of_stream ∷ input) = []
arriving (recv_failed ∷ input) = []

-- The stream as `poll_execution` still has it before it.
abbrev pub stream : OrderGateway → List Received → List ℕ
stream g input = g.read_buf ++ arriving input

take-append {ℓ} :
    {A : Type ℓ} (n : ℕ) (xs ys : List A) → n ≤ length xs → take n (xs ++ ys) ≡ take n xs
take-append zero xs ys h = refl
take-append (suc n) [] ys h = absurd (omega arith)
take-append (suc n) (x ∷ xs) ys h = ap (λ l. x ∷ l) (take-append n xs ys (omega arith))

drop-append {ℓ} :
    {A : Type ℓ} (n : ℕ) (xs ys : List A) → n ≤ length xs → drop n (xs ++ ys) ≡ drop n xs ++ ys
drop-append zero xs ys h = refl
drop-append (suc n) [] ys h = absurd (omega arith)
drop-append (suc n) (x ∷ xs) ys h = drop-append n xs ys (omega arith)

-- Filling the buffer moves bytes of the stream, and leaves the stream as it was.
fill_buffer-stream :
    (input : List Received) (g : OrderGateway)
    → let (ended, g', left) = fill_buffer input g in
      ended ≡ go_on → (g'.is_open ≡ g.is_open) × (stream g' left ≡ stream g input)
unfolding fill_buffer
fill_buffer-stream [] g h = (refl, refl)
fill_buffer-stream (bytes bs ∷ input) g h = elim (Bool-cases (leb buf_size (length g.read_buf))) [
  | inl e ↦ rw e (refl, refl)
  | inr e ↦
      let (opened, same) =
        fill_buffer-stream input (record g { read_buf = g.read_buf ++ bs }) (rw e at h) in
      rw e (opened, same ∙ append_assoc g.read_buf bs (arriving input))
]
fill_buffer-stream (interrupted ∷ input) g h =
    elim (Bool-cases (leb buf_size (length g.read_buf))) [
      | inl e ↦ rw e (refl, refl)
      | inr e ↦ rw e (fill_buffer-stream input g (rw e at h))
    ]
fill_buffer-stream (end_of_stream ∷ input) g h =
    elim (Bool-cases (leb buf_size (length g.read_buf))) [
      | inl e ↦ rw e (refl, refl)
      | inr e ↦ let no : stop ≡ go_on = rw e at h in cc no
    ]
fill_buffer-stream (would_block ∷ input) g h =
    elim (Bool-cases (leb buf_size (length g.read_buf))) [
      | inl e ↦ rw e (refl, refl)
      | inr e ↦ rw e (refl, refl)
    ]
fill_buffer-stream (recv_failed ∷ input) g h =
    elim (Bool-cases (leb buf_size (length g.read_buf))) [
      | inl e ↦ rw e (refl, refl)
      | inr e ↦ let no : stop ≡ go_on = rw e at h in cc no
    ]

-- Where the loop stops, the gateway is closed.
fill_buffer-stop :
    (input : List Received) (g : OrderGateway)
    → (fill_buffer input g).0 ≡ stop
    → (fill_buffer input g).1 ≡ close g
unfolding fill_buffer close
fill_buffer-stop [] g h = cc h
fill_buffer-stop (bytes bs ∷ input) g h = elim (Bool-cases (leb buf_size (length g.read_buf))) [
  | inl e ↦ let no : go_on ≡ stop = rw e at h in cc no
  | inr e ↦ rw e (fill_buffer-stop input (record g { read_buf = g.read_buf ++ bs }) (rw e at h))
]
fill_buffer-stop (interrupted ∷ input) g h = elim (Bool-cases (leb buf_size (length g.read_buf))) [
  | inl e ↦ let no : go_on ≡ stop = rw e at h in cc no
  | inr e ↦ rw e (fill_buffer-stop input g (rw e at h))
]
fill_buffer-stop (end_of_stream ∷ input) g h = ground arith
fill_buffer-stop (would_block ∷ input) g h = ground arith
fill_buffer-stop (recv_failed ∷ input) g h = ground arith

fill_buffer-ends :
    (buf bs : List ℕ) (input : List Received)
    → length buf + length bs < buf_size
    → fill_buffer (bytes bs ∷ end_of_stream ∷ input) (opened buf)
      ≡ (stop, close (opened buf), input)
unfolding fill_buffer close
fill_buffer-ends buf bs input small =
    let first : leb buf_size (length buf) ≡ false = ground arith in
    let second : leb buf_size (length (buf ++ bs)) ≡ false = ground (arith, length-append buf bs) in
    rw first (rw second refl)

Reading-cases : (r : Reading) → (r ≡ go_on) ⊎ (r ≡ stop)
Reading-cases go_on = inl refl
Reading-cases stop = inr refl

module _ {ℓ} {D : Type ℓ} (decode : List ℕ → ExecutionReport D) where
  -- What a poll does to a stream. One that gives a report takes its 40 bytes off; one that gives
  -- none leaves the stream as it is, and less than a report in the buffer.
  abbrev pub IsPolled : List ℕ → Option (ExecutionReport D) × OrderGateway × List Received → Type ℓ
  IsPolled s (exec, g, left) =
      ((exec ≡ none) × (stream g left ≡ s) × (length g.read_buf < size_of_exec_report))
      ⊎ ((exec ≡ some (decode (take size_of_exec_report s)))
          × (stream g left ≡ drop size_of_exec_report s)
          × (size_of_exec_report ≤ length s))

  poll_execution-stop :
      (input : List Received) (buf : List ℕ)
      → (fill_buffer input (opened buf)).0 ≡ stop
      → poll_execution decode input (opened buf)
        ≡ (none, (fill_buffer input (opened buf)).1, (fill_buffer input (opened buf)).2)
  unfolding poll_execution
  poll_execution-stop input buf e = rw (e, poll_execution) refl

  poll_execution-short :
      (input : List Received) (buf : List ℕ)
      → (fill_buffer input (opened buf)).0 ≡ go_on
      → ltb (length (fill_buffer input (opened buf)).1.read_buf) size_of_exec_report ≡ true
      → poll_execution decode input (opened buf)
        ≡ (none, (fill_buffer input (opened buf)).1, (fill_buffer input (opened buf)).2)
  unfolding poll_execution
  poll_execution-short input buf e short = rw (e, short, poll_execution) refl

  poll_execution-long :
      (input : List Received) (buf : List ℕ)
      → (fill_buffer input (opened buf)).0 ≡ go_on
      → ltb (length (fill_buffer input (opened buf)).1.read_buf) size_of_exec_report ≡ false
      → let (_, g, left) = fill_buffer input (opened buf) in
        poll_execution decode input (opened buf) ≡ (
          some (decode (take size_of_exec_report g.read_buf)),
          record g { read_buf = drop size_of_exec_report g.read_buf },
          left,
        )
  unfolding poll_execution
  poll_execution-long input buf e long = rw (e, long, poll_execution) refl

  -- However the results of `recv` cut the stream, a poll of an open gateway that leaves it open
  -- gives the first report of the stream, or finds less than a report in the buffer.
  pub poll_execution-IsPolled :
      (input : List Received) (buf : List ℕ)
      → let r = poll_execution decode input (opened buf) in
        r.1.is_open ≡ true → IsPolled (stream (opened buf) input) r
  unfolding close
  poll_execution-IsPolled input buf still =
      let (ended, g, left) = fill_buffer input (opened buf) in
      elim (Reading-cases (fill_buffer input (opened buf)).0) [
        | inr e ↦
            let shut : false ≡ true =
              rw (poll_execution-stop input buf e, fill_buffer-stop input (opened buf) e) at
                still in
            cc shut
        | inl e ↦
            let (_, same) = fill_buffer-stream input (opened buf) e in
            elim (Bool-cases
              (ltb (length (fill_buffer input (opened buf)).1.read_buf) size_of_exec_report)) [
                | inl short ↦
                    subst (IsPolled (stream (opened buf) input))
                      (sym (poll_execution-short input buf e short))
                      (inl (refl, same, ltb→lt _ _ short))
                | inr long ↦
                    let enough : size_of_exec_report
                        ≤ length (fill_buffer input (opened buf)).1.read_buf =
                      ground arith in
                    subst (IsPolled (stream (opened buf) input))
                      (sym (poll_execution-long input buf e long))
                      (inr (
                        ap (λ bs. some (decode bs))
                            (sym (take-append size_of_exec_report g.read_buf (arriving left) enough)
                              ∙ ap (take size_of_exec_report) same),
                        sym (drop-append size_of_exec_report g.read_buf (arriving left) enough)
                            ∙ ap (drop size_of_exec_report) same,
                        omega (arith, length-append g.read_buf (arriving left), ap length same),
                      ))
              ]
      ]

  -- Reports that have arrived whole are lost where the stream ends behind them: the poll that finds
  -- its end gives none, and empties the buffer.
  pub poll_execution-ends :
      (buf bs : List ℕ) (input : List Received)
      → length buf + length bs < buf_size
      → poll_execution decode (bytes bs ∷ end_of_stream ∷ input) (opened buf)
        ≡ (none, close (opened buf), input)
  poll_execution-ends buf bs input small =
      let at = fill_buffer-ends buf bs input small in
      poll_execution-stop (bytes bs ∷ end_of_stream ∷ input) buf (ap (λ r. r.0) at)
      ∙ ap (λ (r : Reading × OrderGateway × List Received). (none, r.1, r.2)) at

take_report {ℓ} :
    {D : Type ℓ} (to_bits : D → ℕ) (side pad1 pad2 : ℕ) (r : ExecutionReport D) (rest : List ℕ)
    → (take size_of_exec_report (report_bytes to_bits side pad1 pad2 r ++ rest)
        ≡ report_bytes to_bits side pad1 pad2 r)
      × (drop size_of_exec_report (report_bytes to_bits side pad1 pad2 r ++ rest) ≡ rest)
take_report to_bits side pad1 pad2 r rest = (refl, refl)

-- Where the stream begins with a report that the exchange has written, a poll that gives a report
-- gives this one, and what follows it in the stream is left.
pub poll_execution-report_bytes {ℓ} :
    {D : Type ℓ} (to_bits : D → ℕ) (of_bits : ℕ → D) (side pad1 pad2 : ℕ) (r e : ExecutionReport D)
    (input : List Received) (buf rest : List ℕ)
    → ((x : D) → to_bits x < u64_mod)
    → ((x : D) → of_bits (to_bits x) ≡ x)
    → IsReport r
    → stream (opened buf) input ≡ report_bytes to_bits side pad1 pad2 r ++ rest
    → let (exec, g, left) = poll_execution (read_report of_bits) input (opened buf) in
      g.is_open ≡ true → exec ≡ some e → (e ≡ r) × (stream g left ≡ rest)
poll_execution-report_bytes to_bits of_bits side pad1 pad2 r e input buf rest small back v first
      still got =
    elim (poll_execution-IsPolled (read_report of_bits) input buf still) [
      | inl (nothing, _, _) ↦ let clash : none ≡ some e = sym nothing ∙ got in cc clash
      | inr (at, after, _) ↦
          let (whole, behind) = take_report to_bits side pad1 pad2 r rest in
          let read : e
              ≡ read_report of_bits (take size_of_exec_report (stream (opened buf) input)) =
            (let same = sym got ∙ at in cc same) in
          (
            read
                ∙ ap (λ s. read_report of_bits (take size_of_exec_report s)) first
                ∙ read_report-report_bytes to_bits of_bits side pad1 pad2 r small back v,
            after ∙ ap (drop size_of_exec_report) first ∙ behind,
          )
    ]
