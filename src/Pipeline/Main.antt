-- ===== src/Pipeline/Main.antt =====
-- `main` of src/main.cpp: it opens the feeds and the gateway, runs the pipeline, and closes them.
use nanosecond_trading_stack.Arguments.{Args}
use nanosecond_trading_stack.Common.{
  ℕ, ◌+◌, ◌<◌, ◌≡◌, ◌⊎◌, inl, inr, refl, Bool, true, false, ◌&&◌, not, arith, Option, none, some,
  List, [], if◌then◌else◌, length, u64_mod, Bool-cases,
}
use nanosecond_trading_stack.Double.{Double}
use nanosecond_trading_stack.MarketData as Feed
use nanosecond_trading_stack.Oms.Reachable.{Reachable, fresh}
use nanosecond_trading_stack.Oms.{ExecutionReport}
use nanosecond_trading_stack.Oms as Orders
use nanosecond_trading_stack.OrderGateway as Gateway
use nanosecond_trading_stack.Pipeline.Loop.{Round, Pipeline, run_pipeline}
use nanosecond_trading_stack.Pipeline.Reached.{run_pipeline-Reachable}
use nanosecond_trading_stack.QuoteBook as Book
use nanosecond_trading_stack.Strategy.{default_params}
use nanosecond_trading_stack.TickRing as Ring
use nanosecond_trading_stack.Tracer as Trace

-- What the start of the program gets from the system: the results of the calls that open sockets,
-- the records of a new array of traces, the calibrated clock, and the time.
pub record Startup {ℓ} (D : Type ℓ) : Type ℓ where
  pub ref_calls : Feed.InitCalls
  pub target_calls : Feed.InitCalls
  pub gateway_calls : Gateway.ConnectCalls
  pub uninitialized : ℕ → Trace.TraceRecord
  pub ns_per_tick : D
  pub start_ns : ℕ

abbrev pub default_capacity : ℕ
default_capacity = 65536

-- The calls that `init` needs, and those that `connect` needs.
abbrev feed_calls : Feed.InitCalls → Bool
feed_calls c = c.socket && c.set_nonblocking && c.bind && c.group_address && c.add_membership

abbrev gateway_calls_ok : Gateway.ConnectCalls → Bool
gateway_calls_ok c = c.socket && c.connect

-- Whether every call of the system that `main` needs succeeds.
abbrev pub all_calls {ℓ} : {D : Type ℓ} → Startup D → Bool
all_calls up =
    feed_calls up.ref_calls && feed_calls up.target_calls && gateway_calls_ok up.gateway_calls

-- Both feeds and the gateway are open, the order management system is new, and nothing is sent yet.
abbrev pub HasOpened {ℓ} : {D : Type ℓ} → ⦃d : Double D⦄ → Pipeline D → Type ℓ
HasOpened p =
    (p.ref_md.is_open ≡ true)
    × (p.target_md.is_open ≡ true)
    × (p.state.gateway.is_open ≡ true)
    × (p.state.oms ≡ Orders.new)
    × (p.sent ≡ [])
    × (p.iterations ≡ 0)

init_opens :
    (c : Feed.InitCalls) (r : Feed.MdReceiver)
    → ((Feed.init c r).0 ≡ feed_calls c) × (feed_calls c ≡ true → (Feed.init c r).1.is_open ≡ true)
unfolding Feed.init
init_opens c r = (grind arith, grind arith)

connect_opens :
    (c : Gateway.ConnectCalls) (g : Gateway.OrderGateway)
    → ((Gateway.connect c g).0 ≡ gateway_calls_ok c)
      × (gateway_calls_ok c ≡ true → (Gateway.connect c g).1.is_open ≡ true)
unfolding Gateway.connect
connect_opens c g = (grind arith, grind arith)

module _ {ℓ} {D : Type ℓ} ⦃d : Double D⦄ where
  -- The objects of `main` and the locals of `run_pipeline`, with the feeds and the gateway given.
  abbrev pub started :
      (ℕ → Trace.TraceRecord)
      → Feed.MdReceiver
      → Feed.MdReceiver
      → Gateway.OrderGateway
      → Pipeline D
  started uninitialized ref_md target_md gateway = record {
    state = record {
      book = Book.new;
      oms = Orders.new;
      gateway = gateway;
      tracer = Trace.new uninitialized default_capacity;
      latest_source_exchange_tick = 0;
      latest_md_receive_ticks = 0;
      order_sent_ticks = Ring.new;
      ack_received_ticks = Ring.new;
    };
    ref_md = ref_md;
    target_md = target_md;
    iterations = 0;
    sent = [];
  }

  -- The end of `main`.
  unfoldable pub close_all : Pipeline D → Pipeline D
  unfolding Gateway.close Feed.close
  close_all p = record p {
    state = record p.state { gateway = Gateway.close p.state.gateway };
    ref_md = Feed.close p.ref_md;
    target_md = Feed.close p.target_md;
  }

  -- The exit code, and the end of the pipeline where it ran.
  unfoldable pub main :
      (Gateway.WireOrderMsg D → List ℕ)
      → (List ℕ → ExecutionReport D)
      → Args
      → Startup D
      → List (Round D)
      → ℕ × Option (Pipeline D)
  unfolding close_all
  main encode decode args up rounds =
      let (ref_ok, ref_md) = Feed.init up.ref_calls Feed.new in
      let (target_ok, target_md) = Feed.init up.target_calls Feed.new in
      let (connected, gateway) = Gateway.connect up.gateway_calls Gateway.new in
      if not ref_ok
      then (1, none)
      else if not target_ok
      then (1, none)
      else if not connected
      then (1, none)
      else (
        0,
        some (
            close_all (
              run_pipeline default_params up.ns_per_tick encode decode up.start_ns args.duration_sec
                rounds (started up.uninitialized ref_md target_md gateway))),
      )

  -- Where one of the calls that open the feeds and the gateway fails, the program exits with 1 before
  -- the pipeline runs. Where all of them succeed it exits with 0: then the order management system at
  -- its end is a reachable one, if there were fewer than 2 ^ 64 - 1 rounds, the rounds began with both
  -- feeds and the gateway open, and these are closed at the end.
  pub main-Reachable :
      (encode : Gateway.WireOrderMsg D → List ℕ) (decode : List ℕ → ExecutionReport D) (args : Args)
      (up : Startup D) (rounds : List (Round D))
      → 1 + length rounds < u64_mod
      → ((all_calls up ≡ false) × (main encode decode args up rounds ≡ (1, none)))
        ⊎ ((all_calls up ≡ true)
            × ((first : Pipeline D) × HasOpened first
                × (let p = close_all (
                      run_pipeline default_params up.ns_per_tick encode decode up.start_ns
                        args.duration_sec rounds first) in
                    (main encode decode args up rounds ≡ (0, some p))
                    × Reachable p.state.oms
                    × (p.state.gateway.is_open ≡ false)
                    × (p.ref_md.is_open ≡ false)
                    × (p.target_md.is_open ≡ false))))
  unfolding main close_all Gateway.close Feed.close
  main-Reachable encode decode args up rounds small =
      let (ref_ok, ref_md) = Feed.init up.ref_calls Feed.new in
      let (target_ok, target_md) = Feed.init up.target_calls Feed.new in
      let (connected, gateway) = Gateway.connect up.gateway_calls Gateway.new in
      let first = started up.uninitialized ref_md target_md gateway in
      let last =
        run_pipeline default_params up.ns_per_tick encode decode up.start_ns args.duration_sec
          rounds first in
      let (ra, ro) = init_opens up.ref_calls Feed.new in
      let (ta, to) = init_opens up.target_calls Feed.new in
      let (ga, go) = connect_opens up.gateway_calls Gateway.new in
      elim (Bool-cases (feed_calls up.ref_calls)) [
        | inr a ↦ inl (rw a refl, rw (ra, a, main) refl)
        | inl a ↦ elim (Bool-cases (feed_calls up.target_calls)) [
          | inr b ↦ inl (rw (a, b) refl, rw (ra, ta, a, b, main) refl)
          | inl b ↦ elim (Bool-cases (gateway_calls_ok up.gateway_calls)) [
            | inr c ↦ inl (rw (a, b, c) refl, rw (ra, ta, ga, a, b, c, main) refl)
            | inl c ↦ inr (
              rw (a, b, c) refl,
              (
                first,
                (ro a, to b, go c, refl, refl, refl),
                (
                  rw (ra, ta, ga, a, b, c, main) refl,
                  run_pipeline-Reachable default_params up.ns_per_tick encode decode up.start_ns
                      args.duration_sec rounds first fresh small,
                  refl,
                  refl,
                  refl,
                ),
              ),
            )
          ]
        ]
      ]
