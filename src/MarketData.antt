-- ===== src/MarketData.antt =====
-- include/nts/market_data.h and src/market_data.cpp: the receiver of market data. What the socket
-- gives is a parameter: the results of `recvfrom` in their order, and of the calls that open it.
pub mod Counted
pub mod Polling
use nanosecond_trading_stack.Common.{
  ℕ, ◌+◌, ◌-◌, ◌%◌, Bool, true, false, ◌&&◌, ◌||◌, not, Option, none, some, List, [], ◌∷◌, ltb,
  ◌==◌, if◌then◌else◌, u32_mod, u64_mod, sub32,
}

-- `MdMsgType`, with the values that it has no name for.
pub data MdMsgType : Type 0 where
  quote reference : MdMsgType
  other : ℕ → MdMsgType

pub record MdHeader : Type 0 where
  pub timestamp_ns : ℕ
  pub exchange_tick : ℕ
  pub instrument_id : ℕ
  pub sequence_num : ℕ
  pub type : MdMsgType

-- The union `MdMsg`: the fields of a message that its other members have beside the header.
pub record MdMsg {ℓ} (D : Type ℓ) : Type ℓ where
  pub header : MdHeader
  pub bid_price : D
  pub ask_price : D
  pub bid_size : ℕ
  pub ask_size : ℕ
  pub reference_mid : D

-- What one call of `recvfrom` gives: a datagram with its size, or an error with `errno`.
pub data Recv {ℓ} (D : Type ℓ) : Type ℓ where
  datagram : ℕ → MdMsg D → Recv D
  would_block failed : Recv D

pub record MdReceiver : Type 0 where
  pub is_open : Bool
  pub packets : ℕ
  pub drops : ℕ
  pub quotes : ℕ
  pub references : ℕ
  pub last_seq : ℕ

abbrev pub size_of_header : ℕ
size_of_header = 32

abbrev pub size_of_quote : ℕ
size_of_quote = 56

abbrev pub size_of_reference : ℕ
size_of_reference = 48

unfoldable pub count_type : MdMsgType → MdReceiver → MdReceiver
count_type quote r = record r { quotes = (r.quotes + 1) % u64_mod }
count_type reference r = record r { references = (r.references + 1) % u64_mod }
count_type (other _) r = r

-- The gap is a `uint32_t`, and the counter a `uint64_t`.
unfoldable pub count_packet : ℕ → MdReceiver → MdReceiver
count_packet seq r =
    let gap = sub32 (sub32 seq r.last_seq) 1 in
    record r {
      drops =
          if ltb 0 r.packets && not (seq == (r.last_seq + 1) % u32_mod)
          then (r.drops + gap) % u64_mod
          else r.drops;
      last_seq = seq;
      packets = (r.packets + 1) % u64_mod;
    }

module _ {ℓ} {D : Type ℓ} where
  -- The test that a datagram passes: its size is that of the type that its header names.
  unfoldable pub is_message : ℕ → MdMsg D → Bool
  is_message n m = if ltb n size_of_header then false else elim m.header.type [
    | quote ↦ n == size_of_quote
    | reference ↦ n == size_of_reference
    | other _ ↦ false
  ]

  -- The loop: `got_latest` with what `msg` holds when `poll` returns, the receiver, and the results
  -- that are not read yet. The message got last goes into `msg` only where the loop ends because
  -- there is nothing to read; on another error `msg` stays as it is. With no result left there is
  -- nothing to read either.
  unfoldable pub poll_from :
      MdMsg D
      → Option (MdMsg D)
      → MdReceiver
      → List (Recv D)
      → Bool × MdMsg D × MdReceiver × List (Recv D)
  poll_from msg none r [] = (false, msg, r, [])
  poll_from msg (some m) r [] = (true, m, r, [])
  poll_from msg none r (would_block ∷ input) = (false, msg, r, input)
  poll_from msg (some m) r (would_block ∷ input) = (true, m, r, input)
  poll_from msg none r (failed ∷ input) = (false, msg, r, input)
  poll_from msg (some m) r (failed ∷ input) = (true, msg, r, input)
  poll_from msg latest r (datagram n m ∷ input) =
      let skipped = poll_from msg latest r input in
      let taken =
        poll_from msg (some m) (count_packet m.header.sequence_num (count_type m.header.type r))
          input in
      if is_message n m then taken else skipped

  -- The first argument is what the `msg` of the caller holds before.
  unfoldable pub poll :
      MdMsg D → MdReceiver → List (Recv D) → Bool × MdMsg D × MdReceiver × List (Recv D)
  poll msg r input =
      let polled = poll_from msg none r input in
      if r.is_open then polled else (false, msg, r, input)

unfoldable pub close : MdReceiver → MdReceiver
close r = record r { is_open = false }

abbrev pub new : MdReceiver
new = record { is_open = false; packets = 0; drops = 0; quotes = 0; references = 0; last_seq = 0 }

-- Whether the calls of the system that `init` makes succeed.
pub record InitCalls : Type 0 where
  pub socket : Bool
  pub set_nonblocking : Bool
  pub bind : Bool
  pub group_address : Bool
  pub add_membership : Bool

unfoldable pub init : InitCalls → MdReceiver → Bool × MdReceiver
init calls r =
    if not calls.socket
    then (false, record r { is_open = false })
    else if not calls.set_nonblocking
    then (false, record r { is_open = false })
    else if not calls.bind
    then (false, record r { is_open = false })
    else if not calls.group_address || not calls.add_membership
    then (false, record r { is_open = false })
    else (true, record r { is_open = true })
