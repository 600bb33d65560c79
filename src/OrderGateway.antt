-- ===== src/OrderGateway.antt =====
-- include/nts/wire_protocol.h, include/nts/order_gateway.h and src/order_gateway.cpp: orders out and
-- execution reports in over a stream of bytes. What `send` and `recv` give is a parameter, the list
-- of their results.
pub mod Stream
pub mod Wire
pub mod RoundTrip
pub mod Delivered
pub mod Framing
mod Tests
use nanosecond_trading_stack.Common.{
  ℕ, zero, suc, ◌+◌, ◌-◌, ◌≤◌, ◌≡◌, refl, Bool, true, false, not, Option, none, some, List, [], ◌∷◌,
  ◌++◌, ltb, leb, ◌==◌, if◌then◌else◌, length, take, drop,
}
use nanosecond_trading_stack.Oms.{Order, ExecutionReport}
use nanosecond_trading_stack.Types.{Side, buy, sell, OrderType, limit, market, ioc}

pub record WireOrderMsg {ℓ} (D : Type ℓ) : Type ℓ where
  pub msg_type : ℕ
  pub side : ℕ
  pub order_type : ℕ
  pub client_order_id : ℕ
  pub price : D
  pub qty : ℕ
  pub source_exchange_tick : ℕ
  pub client_reaction_ns : ℕ

-- `static_cast<uint8_t>(order.side)`
abbrev pub side_code : Side → ℕ
side_code buy = 0
side_code sell = 1

-- The codes of the wire protocol; it has none for a limit order.
abbrev pub type_code : OrderType → Option ℕ
type_code limit = none
type_code market = some 1
type_code ioc = some 2

abbrev pub size_of_order_msg : ℕ
size_of_order_msg = 48

abbrev pub size_of_exec_report : ℕ
size_of_exec_report = 40

abbrev pub buf_size : ℕ
buf_size = 4096

-- What `send` gives: the number of bytes taken, above 0, or an error. `again` is `EINTR`, `EAGAIN`
-- or `EWOULDBLOCK`, `send_failed` any other error and the result 0.
pub data Sent : Type 0 where
  took : ℕ → Sent
  again send_failed : Sent

-- What `recv` gives: at least one byte, the end of the stream, or an error.
pub data Received : Type 0 where
  bytes : List ℕ → Received
  end_of_stream interrupted would_block recv_failed : Received

-- The first `read_len_` bytes of `read_buf_`.
pub record OrderGateway : Type 0 where
  pub is_open : Bool
  pub read_buf : List ℕ

unfoldable pub close : OrderGateway → OrderGateway
close g = record g { is_open = false; read_buf = [] }

abbrev pub new : OrderGateway
new = record { is_open = false; read_buf = [] }

-- Whether `socket` and `connect` of the system succeed.
pub record ConnectCalls : Type 0 where
  pub socket : Bool
  pub connect : Bool

unfoldable pub connect : ConnectCalls → OrderGateway → Bool × OrderGateway
connect calls g =
    if not calls.socket
    then (false, record g { is_open = false })
    else if not calls.connect
    then (false, record g { is_open = false })
    else (true, record g { is_open = true })

-- The loop over `left` bytes of `message`: the bytes that went out, whether all of them went, and the
-- results of `send` that are left. Where no result is left, the call waits.
unfoldable pub send_all : List ℕ → List Sent → List ℕ × Bool × List Sent
send_all message [] = ([], length message == 0, [])
send_all message (again ∷ results) =
    let rest = send_all message results in
    if length message == 0 then ([], true, again ∷ results) else rest
send_all message (send_failed ∷ results) =
    if length message == 0 then ([], true, send_failed ∷ results) else ([], false, results)
send_all message (took n ∷ results) =
    let rest = send_all (drop n message) results in
    if length message == 0
    then ([], true, took n ∷ results)
    else (take n message ++ rest.0, rest.1, rest.2)

-- How a loop of `recv` ends.
pub data Reading : Type 0 where
  go_on stop : Reading

-- The loop of `recv`; a result holds no more bytes than the buffer has room for.
unfoldable pub fill_buffer : List Received → OrderGateway → Reading × OrderGateway × List Received
fill_buffer [] g = (go_on, g, [])
fill_buffer (bytes bs ∷ input) g =
    let rest = fill_buffer input (record g { read_buf = g.read_buf ++ bs }) in
    if leb buf_size (length g.read_buf) then (go_on, g, bytes bs ∷ input) else rest
fill_buffer (interrupted ∷ input) g =
    let rest = fill_buffer input g in
    if leb buf_size (length g.read_buf) then (go_on, g, interrupted ∷ input) else rest
fill_buffer (end_of_stream ∷ input) g =
    if leb buf_size (length g.read_buf)
    then (go_on, g, end_of_stream ∷ input)
    else (stop, close g, input)
fill_buffer (would_block ∷ input) g =
    if leb buf_size (length g.read_buf) then (go_on, g, would_block ∷ input) else (go_on, g, input)
fill_buffer (recv_failed ∷ input) g =
    if leb buf_size (length g.read_buf)
    then (go_on, g, recv_failed ∷ input)
    else (stop, close g, input)

module _ {ℓ} {D : Type ℓ} where
  unfoldable pub wire_order : Order D → Option (WireOrderMsg D)
  wire_order order = elim (type_code order.order_type) [
    | none ↦ none
    | some code ↦ some (record {
      msg_type = 1;
      side = side_code order.side;
      order_type = code;
      client_order_id = order.id;
      price = order.price;
      qty = order.qty;
      source_exchange_tick = order.source_exchange_tick;
      client_reaction_ns = order.client_reaction_ns;
    })
  ]

  -- `encode` gives the bytes of a message in memory. The bytes that went out come first.
  unfoldable pub submit_order :
      (WireOrderMsg D → List ℕ) → Order D → List Sent → OrderGateway → List ℕ × OrderGateway
  submit_order encode order results g = if not g.is_open then ([], g) else elim (wire_order order) [
    | none ↦ ([], g)
    | some msg ↦
        let (out, ok, _) = send_all (encode msg) results in if ok then (out, g) else (out, close g)
  ]

  -- `decode` reads a report from its 40 bytes in memory.
  unfoldable pub poll_execution :
      (List ℕ → ExecutionReport D)
      → List Received
      → OrderGateway
      → Option (ExecutionReport D) × OrderGateway × List Received
  poll_execution decode input g =
      if not g.is_open
      then (none, g, input)
      else (let (ended, g', left) = fill_buffer input g in
          elim ended [
            | stop ↦ (none, g', left)
            | go_on ↦ if ltb (length g'.read_buf) size_of_exec_report then (none, g', left) else (
              some (decode (take size_of_exec_report g'.read_buf)),
              record g' { read_buf = drop size_of_exec_report g'.read_buf },
              left,
            )
          ])
