-- ===== src/Oms/OrderMap/Ring.antt =====
-- Distances round the array, in the direction of the probes.
use nanosecond_trading_stack.Common.{
  ℕ, suc, ◌+◌, ◌-◌, ◌%◌, ◌≤◌, ◌<◌, ◌≡◌, ◌≢◌, arith, leb, if◌then◌else◌,
}
use nanosecond_trading_stack.Oms.OrderMap.{order_map_size, map_hash}

-- The number of steps from `a` on to `b`.
pub dist : ℕ → ℕ → ℕ
dist a b = if leb a b then b - a else b + order_map_size - a

pub map_hash-lt : (id : ℕ) → map_hash id < order_map_size
unfolding map_hash
map_hash-lt id = omega arith

module _ {a b : ℕ} (ha : a < order_map_size) (hb : b < order_map_size) where
  pub dist-lt : dist a b < order_map_size
  unfolding dist
  dist-lt = ground arith

  pub eq_of_dist-zero : dist a b ≡ 0 → a ≡ b
  unfolding dist
  eq_of_dist-zero h = ground arith

  pub dist-next : a ≢ b → dist a b ≡ suc (dist ((a + 1) % order_map_size) b)
  unfolding dist
  dist-next h = ground arith

  module _ {c : ℕ} (hc : c < order_map_size) where
    pub dist_split : dist a b ≤ dist a c → dist a c ≡ dist a b + dist b c
    unfolding dist
    dist_split h = ground arith

    pub eq_of_dist : dist a b ≡ dist a c → b ≡ c
    unfolding dist
    eq_of_dist h = ground arith

pub dist_self : (a : ℕ) → dist a a ≡ 0
unfolding dist
dist_self a = ground arith

pub dist-probe :
    (a i : ℕ) → a < order_map_size → i < order_map_size → dist a ((a + i) % order_map_size) ≡ i
unfolding dist
dist-probe a i ha hi = ground arith

pub dist-next_self :
    (a : ℕ) → a < order_map_size → suc (dist ((a + 1) % order_map_size) a) ≡ order_map_size
unfolding dist
dist-next_self a h = ground arith
