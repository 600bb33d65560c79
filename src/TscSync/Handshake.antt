-- ===== src/TscSync/Handshake.antt =====
-- `target_loop` and the loop of `measure_pair` in tools/tsc_sync_check.cpp, interleaved in any order,
-- one access to `Shared` or to a counter at a time. A store with `memory_order_release` makes the
-- stores before it visible to the load that reads it, so the accesses are taken in one order.
use nanosecond_trading_stack.Common.{
  ℕ, ◌+◌, ◌%◌, ◌<◌, ◌≤◌, ◌≡◌, ◌≢◌, Bool, true, false, u64_mod, add32, add64, ltb, if◌then◌else◌,
  ◌^◌,
}
use nanosecond_trading_stack.TscSync.{Config, Best, no_best, take_sample}

pub record Shared : Type 0 where
  pub request : ℕ
  pub ack : ℕ
  pub ready : Bool
  pub stop : Bool
  pub target_tsc : ℕ
  pub target_aux : ℕ

-- Where `measure_pair` stands, with `i`, `ref_aux`, `start`, `end` and `target_tsc` where they live.
pub data RefPc : Type 0 where
  await_ready : RefPc
  at_top : (i : ℕ) → RefPc  -- the test of the `for`
  requesting : (i aux start : ℕ) → RefPc
  awaiting : (i aux start : ℕ) → RefPc  -- the `while` on `ack`
  reading_end : (i aux start : ℕ) → RefPc
  loading_tsc : (i aux start end : ℕ) → RefPc
  loading_aux : (i aux start end tsc : ℕ) → RefPc
  stopping bumping joining : RefPc

-- Where `target_loop` stands.
pub data TargetPc : Type 0 where
  pinning : TargetPc
  polling : (seen : ℕ) → TargetPc  -- the test of the `while`
  loading : (seen : ℕ) → TargetPc
  reading : (seq : ℕ) → TargetPc
  storing_tsc : (seq tsc aux : ℕ) → TargetPc
  storing_aux : (seq aux : ℕ) → TargetPc
  storing_ack : (seq : ℕ) → TargetPc
  ended : TargetPc

-- How often the `for` runs: `total_samples` is an `int`, and below 0 it does not run at all.
abbrev pub total_samples : Config → ℕ
total_samples cfg =
    let total = add32 cfg.warmup cfg.samples in if ltb total (2 ^ 31) then total else 0

-- Steps of `measure_pair`; `now` is the counter of the reference core.
pub data RefMove (cfg : Config) (now : ℕ) (m : Shared) (best : Best)
    : RefPc → Shared → Best → RefPc → Type 0 where
  wait_ready : m.ready ≡ false → RefMove cfg now m best await_ready m best await_ready
  is_ready : m.ready ≡ true → RefMove cfg now m best await_ready m best (at_top 0)
  read_start :
      {i : ℕ} (aux : ℕ)
      → i < total_samples cfg
      → RefMove cfg now m best (at_top i) m best (requesting i aux now)
  no_more : {i : ℕ} → total_samples cfg ≤ i → RefMove cfg now m best (at_top i) m best stopping
  store_request :
      {i aux start : ℕ}
      → RefMove cfg now m best
          (requesting i aux start)
          (record m { request = i + 1 })
          best
          (awaiting i aux start)
  wait_ack :
      {i aux start : ℕ}
      → m.ack ≢ i + 1
      → RefMove cfg now m best (awaiting i aux start) m best (awaiting i aux start)
  see_ack :
      {i aux start : ℕ}
      → m.ack ≡ i + 1
      → RefMove cfg now m best (awaiting i aux start) m best (reading_end i aux start)
  warm_up :
      {i aux start : ℕ}
      → i < cfg.warmup
      → RefMove cfg now m best (reading_end i aux start) m best (at_top (i + 1))
  read_end :
      {i aux start : ℕ}
      → cfg.warmup ≤ i
      → RefMove cfg now m best (reading_end i aux start) m best (loading_tsc i aux start now)
  load_tsc :
      {i aux start end : ℕ}
      → RefMove cfg now m best
          (loading_tsc i aux start end)
          m
          best
          (loading_aux i aux start end m.target_tsc)
  keep_best :
      {i aux start end tsc : ℕ}
      → RefMove cfg now m best
          (loading_aux i aux start end tsc)
          m
          (take_sample start aux end tsc m.target_aux best)
          (at_top (i + 1))
  store_stop : RefMove cfg now m best stopping (record m { stop = true }) best bumping
  bump_request :
      RefMove cfg now m best bumping (record m { request = add64 m.request 1 }) best joining

-- Steps of `target_loop`; `now` is the counter of its core.
pub data TargetMove (now : ℕ) (m : Shared) : TargetPc → Shared → TargetPc → Type 0 where
  store_ready : TargetMove now m pinning (record m { ready = true }) (polling 0)
  see_stop : {seen : ℕ} → m.stop ≡ true → TargetMove now m (polling seen) m ended
  go_on : {seen : ℕ} → m.stop ≡ false → TargetMove now m (polling seen) m (loading seen)
  no_request : {seen : ℕ} → m.request ≡ seen → TargetMove now m (loading seen) m (polling seen)
  see_request :
      {seen : ℕ} → m.request ≢ seen → TargetMove now m (loading seen) m (reading m.request)
  read_tsc : {seq : ℕ} (aux : ℕ) → TargetMove now m (reading seq) m (storing_tsc seq now aux)
  store_tsc :
      {seq tsc aux : ℕ}
      → TargetMove now m
          (storing_tsc seq tsc aux)
          (record m { target_tsc = tsc })
          (storing_aux seq aux)
  store_aux :
      {seq aux : ℕ}
      → TargetMove now m (storing_aux seq aux) (record m { target_aux = aux }) (storing_ack seq)
  store_ack : {seq : ℕ} → TargetMove now m (storing_ack seq) (record m { ack = seq }) (polling seq)

-- The two threads, and the counter of the reference core.
pub record System : Type 0 where
  pub now : ℕ
  pub mem : Shared
  pub best : Best
  pub ref : RefPc
  pub target : TargetPc

abbrev pub init : ℕ → System
init now = record {
  now = now;
  mem = record {
    request = 0;
    ack = 0;
    ready = false;
    stop = false;
    target_tsc = 0;
    target_aux = 0;
  };
  best = no_best;
  ref = await_ready;
  target = pinning;
}

-- A counter that starts at the start of the machine is far below this.
abbrev pub counter_limit : ℕ
counter_limit = 2 ^ 62

-- The counter of the target core is that of the reference core and `skew`, a pattern of 64 bits.
pub data Step (cfg : Config) (skew : ℕ) (s : System) : System → Type 0 where
  tick : (n : ℕ) → s.now + n < counter_limit → Step cfg skew s (record s { now = s.now + n })
  ref_step :
      {m : Shared} {b : Best} {p : RefPc}
      → RefMove cfg s.now s.mem s.best s.ref m b p
      → Step cfg skew s (record s { mem = m; best = b; ref = p })
  target_step :
      {m : Shared} {p : TargetPc}
      → TargetMove ((s.now + skew) % u64_mod) s.mem s.target m p
      → Step cfg skew s (record s { mem = m; target = p })

pub data Reach (cfg : Config) (skew : ℕ) : System → Type 0 where
  begun : (now : ℕ) → now < counter_limit → Reach cfg skew (init now)
  later : {s t : System} → Reach cfg skew s → Step cfg skew s t → Reach cfg skew t
