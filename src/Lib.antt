-- ===== src/Lib.antt =====
-- A verification library for the nanosecond trading stack, a low-latency trading client with a
-- matching engine beside it.
--
-- The program. Market data arrives as datagrams (src/market_data.cpp) and goes into a quote book
-- (src/orderbook.cpp). A strategy (src/strategy.cpp) makes a signal from the book and the
-- reference price, the order management system (src/oms.cpp, include/nts/oms.h) checks an order
-- against the risk limits and stores it, and the order gateway (src/order_gateway.cpp) sends it
-- and reads the execution reports, which go back into the order management system. src/main.cpp
-- runs these in rounds and traces their times (src/instrument). src/perf_counter.cpp reads
-- counters of the processor, and tools/tsc_sync_check.cpp compares the clocks of its cores. Apart
-- from this stand two limit order books, src/matching/orderbook.cpp and src/matching_engine.cpp.
--
-- The files.
-- - Common: numbers, lists, association lists and machine words. Double: what the code does with a
--   `double`, as a parameter. Types: include/nts/common.h.
-- - Matching: the two limit order books. Types, Levels and Book are src/matching/orderbook.cpp,
--   Engine is src/matching_engine.cpp; `add_order`, `cancel`, `match_buy`, `match_sell`,
--   `fill_at_level`, `place` and the queries have the source's names. A `std::map` is the list of
--   its levels in the order of its keys, a `std::list` a list of nodes with their addresses, an
--   iterator the address. Sorted, Loops, Validity, Priority, Trades, Uncrossed, Reachable and
--   Equivalence hold the proofs.
-- - Oms: the order management system, with its data in Oms/State; `send_new` and `on_execution`
--   give the new object, and the cases of the `switch` are `on_new_ack`, `on_fill`,
--   `on_cancel_ack` and `on_reject`.
--   Oms/OrderMap is its hash table; Ring, Probing, Inserted, Pending, Removal, Removed and Lookup
--   below it hold the proofs, as do Oms/Accounting, Oms/Balanced and Oms/Orders. Oms/Ownership has
--   the invariant on slots, ids and the stack of free slots, Oms/Reachable every sequence of calls,
--   Oms/Reports the reports of an order.
--   Oms/Exposure sums up what the orders of the map have open, and Oms/Traded is every sequence of
--   calls with an exchange that fills what is open. Oms/Counts has the numbers of orders of a kind that
--   the map holds, and Oms/Orderly every sequence of calls with an exchange that reports in order.
-- - MarketData, QuoteBook, Strategy, OrderGateway, TickRing (`OrderTickRing` of
--   src/pipeline_utils.cpp), Tracer and Sampler (src/instrument/tracer.cpp and tick_sampler.cpp),
--   Stats (src/instrument/stats.cpp), Clock (include/nts/instrument/clock.h), Arguments
--   (`parse_args` of src/pipeline_utils.cpp) and Results (its report, directories and names of
--   files) are one part of the program each, with proofs in the modules below them.
-- - Tracer/Journal is what the ring of traces stands for, a list of all traces that ended; Capacity,
--   Ring, Calls and Window hold the proofs, with the laws of `|` and `&` in Common/Bits.
-- - OrderGateway/Wire: the two messages of include/nts/wire_protocol.h in memory. RoundTrip,
--   Delivered and Framing hold the proofs on orders that go out and reports that come in.
-- - Pipeline: a round of src/main.cpp, in Pipeline/Loop its loop, in Pipeline/Saved the reports
--   at the end of a run, and in Pipeline/Main the start and the end of the program. Pending, Exit, Draining and Reached hold the proofs.
-- - TscSync: tools/tsc_sync_check.cpp. TscSync/Handshake is `target_loop` and `measure_pair` as two
--   threads that take turns in any order, TscSync/Report the arguments and the runs of `main`. Invariant, Samples,
--   Skew, Progress and Verdict hold the proofs.
-- - PerfCounter: include/nts/perf_counter.h and src/perf_counter.cpp on Linux. PerfCounter/Scope is
--   `PmuProfileScope` with the `static` counters, PerfCounter/Report the lines that are printed.
--   Counted and Printed hold the proofs.
-- - The modules named Tests run the definitions on small inputs.
--
-- Integers are natural numbers; where the code's width matters, the wrap-around is written out,
-- and an `int32_t` is its two's-complement pattern; its overflow, undefined in C++, wraps around
-- here. Prices and quantities of the matching engine are only compared, subtracted where the
-- result is not negative, and summed modulo 2 ^ 64.
--
-- Bounds and fuel. A loop over the levels has as many rounds as levels, since each round but the
-- last erases one. The loops of the hash table have 8192 rounds, as in the source, and the
-- rehashing loop moves on by one element in each round and meets a free one. The loop over
-- execution reports has one round more than there are bytes, since each report takes 40 of them
-- away.
--
-- Not modelled: sockets, clocks and files, whose results are parameters; IEEE arithmetic;
-- the form of printed numbers; the benchmarks and the scripts, which only measure; allocation
-- failure. The threads of TscSync read and write shared variables in one order; a counter of the
-- processor stays below 2 ^ 62.
pub mod Common
pub mod Matching
pub mod Double
pub mod Types
pub mod Oms
pub mod MarketData
pub mod QuoteBook
pub mod Strategy
pub mod TickRing
pub mod Clock
pub mod Tracer
pub mod TscSync
pub mod PerfCounter
pub mod Sampler
pub mod OrderGateway
pub mod Pipeline
pub mod Arguments
pub mod Stats
pub mod Results
pub mod Tests
