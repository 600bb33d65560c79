-- ===== src/MarketData/Polling.antt =====
-- `poll` of src/market_data.cpp against the messages that it may read.
use nanosecond_trading_stack.Common.{
  ℕ, Bool, true, false, Option, none, some, List, [], ◌∷◌, if◌then◌else◌, ◌==◌,
}
use nanosecond_trading_stack.MarketData.{
  MdMsg, quote, reference, other, Recv, datagram, would_block, failed, size_of_quote,
  size_of_reference,
}

module _ {ℓ} {D : Type ℓ} where
  -- A datagram of just the bytes of its type.
  abbrev is_whole : ℕ → MdMsg D → Bool
  is_whole n m = elim m.header.type [
    | quote ↦ n == size_of_quote
    | reference ↦ n == size_of_reference
    | other _ ↦ false
  ]

  -- The messages among the results before the first error.
  unfoldable pub messages : List (Recv D) → List (MdMsg D)
  messages [] = []
  messages (would_block ∷ input) = []
  messages (failed ∷ input) = []
  messages (datagram n m ∷ input) =
      let rest = messages input in if is_whole n m then m ∷ rest else rest

  -- Whether the first error is another one than that there is nothing to read.
  abbrev pub breaks_off : List (Recv D) → Bool
  breaks_off [] = false
  breaks_off (would_block ∷ input) = false
  breaks_off (failed ∷ input) = true
  breaks_off (datagram n m ∷ input) = breaks_off input

  -- The last of the messages, or what was there before.
  abbrev pub last_of : MdMsg D → List (MdMsg D) → MdMsg D
  last_of m [] = m
  last_of m (m' ∷ ms) = last_of m' ms

  abbrev pub is_some_message : List (MdMsg D) → Bool
  is_some_message [] = false
  is_some_message (_ ∷ _) = true

  -- What `msg` holds afterwards, with the message got so far.
  abbrev result_of : MdMsg D → Option (MdMsg D) → List (Recv D) → Bool × MdMsg D
  result_of msg none input = (
    is_some_message (messages input),
    if breaks_off input then msg else last_of msg (messages input),
  )
  result_of msg (some m) input =
      (true, if breaks_off input then msg else last_of m (messages input))
