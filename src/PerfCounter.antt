-- ===== src/PerfCounter.antt =====
-- include/nts/perf_counter.h, src/perf_counter.cpp on Linux: counters of the processor. The kernel's
-- calls and the numbers of its header are parameters.
pub mod Scope
pub mod Counted
pub mod Report
pub mod Printed
mod Tests
use Prim.Native.Nat.{bit_or}
use Prim.Native.String.{String}
use text.Mathlib.Text.{◌==◌}
use nanosecond_trading_stack.Common.{
  ℕ, ◌+◌, ◌*◌, ◌%◌, ◌^◌, Bool, true, false, ◌||◌, Option, none, some, if◌then◌else◌,
}

pub data PerfEvent : Type 0 where
  cpu_cycles instructions cache_references cache_misses branches branch_misses page_faults :
      PerfEvent
  l1d_loads l1d_load_misses l1d_stores : PerfEvent
  llc_loads llc_load_misses llc_stores llc_store_misses : PerfEvent

-- The constants of linux/perf_event.h that the code names.
pub record PerfNumbers : Type 0 where
  pub type_hardware : ℕ
  pub type_software : ℕ
  pub type_hw_cache : ℕ
  pub hw_cpu_cycles : ℕ
  pub hw_instructions : ℕ
  pub hw_cache_references : ℕ
  pub hw_cache_misses : ℕ
  pub hw_branch_instructions : ℕ
  pub hw_branch_misses : ℕ
  pub sw_page_faults : ℕ
  pub cache_l1d : ℕ
  pub cache_ll : ℕ
  pub op_read : ℕ
  pub op_write : ℕ
  pub result_access : ℕ
  pub result_miss : ℕ

pub record PerfEventAttr : Type 0 where
  pub type : ℕ
  pub config : ℕ
  pub disabled : Bool
  pub exclude_kernel : Bool
  pub exclude_hv : Bool
  pub inherit : Bool

-- `cache | (op << 8) | (result << 16)`
abbrev pub cache_config : ℕ → ℕ → ℕ → ℕ
cache_config cache op result = bit_or (bit_or cache (op * 2 ^ 8)) (result * 2 ^ 16)

abbrev pub type_of : PerfNumbers → PerfEvent → ℕ
type_of n cpu_cycles = n.type_hardware
type_of n instructions = n.type_hardware
type_of n cache_references = n.type_hardware
type_of n cache_misses = n.type_hardware
type_of n branches = n.type_hardware
type_of n branch_misses = n.type_hardware
type_of n page_faults = n.type_software
type_of n _ = n.type_hw_cache

abbrev pub config_of : PerfNumbers → PerfEvent → ℕ
config_of n cpu_cycles = n.hw_cpu_cycles
config_of n instructions = n.hw_instructions
config_of n cache_references = n.hw_cache_references
config_of n cache_misses = n.hw_cache_misses
config_of n branches = n.hw_branch_instructions
config_of n branch_misses = n.hw_branch_misses
config_of n page_faults = n.sw_page_faults
config_of n l1d_loads = cache_config n.cache_l1d n.op_read n.result_access
config_of n l1d_load_misses = cache_config n.cache_l1d n.op_read n.result_miss
config_of n l1d_stores = cache_config n.cache_l1d n.op_write n.result_access
config_of n llc_loads = cache_config n.cache_ll n.op_read n.result_access
config_of n llc_load_misses = cache_config n.cache_ll n.op_read n.result_miss
config_of n llc_stores = cache_config n.cache_ll n.op_write n.result_access
config_of n llc_store_misses = cache_config n.cache_ll n.op_write n.result_miss

abbrev pub attr_of : PerfNumbers → PerfEvent → PerfEventAttr
attr_of n event = record {
  type = type_of n event;
  config = config_of n event;
  disabled = true;
  exclude_kernel = true;
  exclude_hv = true;
  inherit = false;
}

pub data Request : Type 0 where
  reset_count enable_count disable_count : Request

-- The calls of the system, on a state `K` of the kernel: `perf_event_open` gives a file descriptor
-- or fails, `ioctl` always comes back, and `read` gives the eight bytes of a count or fails.
pub record Kernel {ℓ} (K : Type ℓ) : Type ℓ where
  pub perf_event_open : PerfEventAttr → K → Option ℕ × K
  pub ioctl : ℕ → Request → K → K
  pub read : ℕ → K → Option ℕ

-- `fd_` is `none` for -1.
pub record PerfCounter : Type 0 where
  pub fd : Option ℕ
  pub config : ℕ

-- The descriptor that the destructor closes.
abbrev pub closed_fd : PerfCounter → Option ℕ
closed_fd c = c.fd

module _ {ℓ} {K : Type ℓ} (kernel : Kernel K) where
  unfoldable pub init : PerfNumbers → PerfEvent → K → PerfCounter × K
  init n event k =
      let (fd, k') = kernel.perf_event_open (attr_of n event) k in
      (record { fd = fd; config = (attr_of n event).config }, k')

  -- `reset`, `enable` and `disable`
  unfoldable pub control : Request → PerfCounter → K → K
  control request c k = elim c.fd [ none ↦ k | some fd ↦ kernel.ioctl fd request k ]

  unfoldable pub read_value : PerfCounter → K → ℕ
  read_value c k = elim c.fd [
    | none ↦ 0
    | some fd ↦ elim (kernel.read fd k) [ none ↦ 0 | some value ↦ value ]
  ]

-- The groups of events, by their names in `NTS_PMU_GROUP`.
pub data Group : Type 0 where
  core cache l1d llc : Group

abbrev pub group_word : Group → String
group_word core = "core"
group_word cache = "cache"
group_word l1d = "l1d"
group_word llc = "llc"

-- The argument is what `getenv` gives.
abbrev pub pmu_group_name : Option String → String
pmu_group_name none = "core"
pmu_group_name (some group) = if group == "" then "core" else group

abbrev pub pmu_group_is : Option String → String → Bool
pmu_group_is env expected = pmu_group_name env == expected

abbrev pub pmu_event_enabled : Option String → Group → Bool
pmu_event_enabled env g = pmu_group_is env "all" || pmu_group_is env (group_word g)
