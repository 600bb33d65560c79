-- ===== src/TickRing.antt =====
-- `OrderTickRing` of include/nts/pipeline_utils.h and src/pipeline_utils.cpp: a direct-mapped cache
-- from order ids to tick counts.
use nanosecond_trading_stack.Common.{
  ℕ, ◌+◌, ◌%◌, ◌≡◌, Bool, true, false, ◌&&◌, not, Option, none, some, ◌==◌, if◌then◌else◌, u64_mod,
  arith,
}
use nanosecond_trading_stack.Oms.OrderMap.{order_map_size, update}

pub record Entry : Type 0 where
  pub id : ℕ
  pub ticks : ℕ
  pub occupied : Bool

pub record OrderTickRing : Type 0 where
  pub entries : ℕ → Entry
  pub collisions : ℕ

abbrev pub new : OrderTickRing
new = record { entries = λ _. record { id = 0; ticks = 0; occupied = false }; collisions = 0 }

-- `id & (CAPACITY - 1)` for a power of two
abbrev pub index : ℕ → ℕ
index id = id % order_map_size

unfoldable pub set : ℕ → ℕ → OrderTickRing → OrderTickRing
set id ticks r =
    let entry = r.entries (index id) in
    record {
      entries = update r.entries (index id) (record { id = id; ticks = ticks; occupied = true });
      collisions =
          if entry.occupied && not (entry.id == id)
          then (r.collisions + 1) % u64_mod
          else r.collisions;
    }

unfoldable pub get : ℕ → OrderTickRing → Option ℕ
get id r =
    let entry = r.entries (index id) in
    if entry.occupied && (entry.id == id) then some entry.ticks else none

unfoldable pub erase : ℕ → OrderTickRing → OrderTickRing
erase id r =
    let entry = r.entries (index id) in
    if entry.occupied && (entry.id == id)
    then record r { entries = update r.entries (index id) (record entry { occupied = false }) }
    else r

-- After `set id`, `get` gives its ticks for that id, nothing for another id with the same index,
-- and what it gave before for every id with another index.
pub get-set :
    (id other ticks : ℕ) (r : OrderTickRing)
    → get other (set id ticks r) ≡ (
        if index id == index other then (if id == other then some ticks else none) else get other r)
unfolding get set
get-set id other ticks r = ground arith

-- After `erase id`, `get` gives nothing for that id, and what it gave before for every other.
pub get-erase :
    (id other : ℕ) (r : OrderTickRing)
    → get other (erase id r) ≡ (if id == other then none else get other r)
unfolding get erase
get-erase id other r = ground arith
