-- ===== src/Oms/OrderMap.antt =====
-- The open-addressing hash map of include/nts/oms.h and src/oms.cpp, from order ids to slots, with
-- linear probing. An array is a function of its index; `x & (ORDER_MAP_SIZE - 1)` is the remainder.
pub mod Ring
pub mod Probing
pub mod Inserted
pub mod Slots
pub mod Pending
pub mod Removal
pub mod Lookup
pub mod Removed
use nanosecond_trading_stack.Common.{
  ℕ, zero, suc, ◌+◌, ◌-◌, ◌*◌, ◌/◌, ◌%◌, ◌^◌, Bool, true, false, ◌==◌, ltb, if◌then◌else◌, u64_mod,
}

abbrev pub order_map_size : ℕ
order_map_size = 8192

pub record MapEntry : Type 0 where
  pub id : ℕ
  pub slot : ℕ
  pub occupied : Bool

abbrev pub OrderMap : Type 0
OrderMap = ℕ → MapEntry

abbrev pub no_orders : OrderMap
no_orders _ = record { id = 0; slot = 0; occupied = false }

-- A write to one element of an array.
abbrev pub update {ℓ} : {A : Type ℓ} → (ℕ → A) → ℕ → A → ℕ → A
update t p e j = if j == p then e else t j

-- Fibonacci hashing: the upper 13 bits of the 64-bit product.
unfoldable pub map_hash : ℕ → ℕ
map_hash id = (id * 11400714819323198485) % u64_mod / 2 ^ (64 - 13)

-- `order_map_[pos].occupied = false; order_map_[pos].id = 0;`
abbrev pub clear : OrderMap → ℕ → OrderMap
clear t pos = update t pos (record (t pos) { occupied = false; id = 0 })

-- The loops run from round `i` on; the first argument is the number of rounds left.
unfoldable pub insert_from : ℕ → OrderMap → ℕ → ℕ → ℕ → ℕ → OrderMap
insert_from zero t idx i id slot = t
insert_from (suc n) t idx i id slot =
    let pos = (idx + i) % order_map_size in
    let rest = insert_from n t idx (i + 1) id slot in
    if (t pos).occupied
    then rest
    else update t pos (record { id = id; slot = slot; occupied = true })

unfoldable pub map_insert : OrderMap → ℕ → ℕ → OrderMap
map_insert t id slot = insert_from order_map_size t (map_hash id) 0 id slot

unfoldable pub find_from : ℕ → OrderMap → ℕ → ℕ → ℕ → ℕ
find_from zero t idx i id = order_map_size
find_from (suc n) t idx i id =
    let pos = (idx + i) % order_map_size in
    let rest = find_from n t idx (i + 1) id in
    if (t pos).occupied then (if (t pos).id == id then pos else rest) else order_map_size

unfoldable pub map_find : OrderMap → ℕ → ℕ
map_find t id = find_from order_map_size t (map_hash id) 0 id

-- The loop goes on while the element at `next` is occupied; the first argument is fuel.
unfoldable pub rehash : ℕ → OrderMap → ℕ → OrderMap
rehash zero t next = t
rehash (suc fuel) t next =
    let tmp = t next in
    let rest =
      rehash fuel (map_insert (clear t next) tmp.id tmp.slot) ((next + 1) % order_map_size) in
    if tmp.occupied then rest else t

-- A round of the loop moves on by one element, so as many rounds as elements are enough.
unfoldable pub map_remove : OrderMap → ℕ → OrderMap
map_remove t id =
    let pos = map_find t id in
    if ltb pos order_map_size
    then rehash order_map_size (clear t pos) ((pos + 1) % order_map_size)
    else t
