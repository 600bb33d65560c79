-- ===== src/Arguments.antt =====
-- `Args` and `parse_args` of include/nts/pipeline_utils.h and src/pipeline_utils.cpp. `strtol` is a
-- parameter: the number that it gives, as the pattern of a 64-bit `long`.
use Prim.Native.String.{String}
use text.Mathlib.Text.{◌==◌}
use nanosecond_trading_stack.Common.{
  ℕ, ◌%◌, ◌^◌, ◌≡◌, refl, Bool, true, false, ◌||◌, Option, none, some, List, [], ◌∷◌, if◌then◌else◌,
  u32_mod,
}
use nanosecond_trading_stack.Types.{default_port}

pub record Args : Type 0 where
  pub md_port : ℕ
  pub md_group : String
  pub ref_port : ℕ
  pub ref_group : String
  pub duration_sec : ℕ
  pub exchange_host : String
  pub order_port : ℕ
  pub save_report : Bool

abbrev pub default_args : Args
default_args = record {
  md_port = default_port;
  md_group = "239.1.1.1";
  ref_port = 12347;
  ref_group = "239.1.1.2";
  duration_sec = 10;
  exchange_host = "127.0.0.1";
  order_port = 12346;
  save_report = false;
}

-- The options that take the argument behind them.
pub data Flag : Type 0 where
  exchange_host order_port md_port md_group ref_port ref_group duration : Flag

-- The tests of the loop, in their order.
abbrev pub flag_of : String → Option Flag
flag_of s =
    if s == "--exchange-host"
    then some Flag.exchange_host
    else if s == "--order-port"
    then some Flag.order_port
    else if (s == "--port") || (s == "--md-port")
    then some Flag.md_port
    else if s == "--md-group"
    then some Flag.md_group
    else if s == "--ref-port"
    then some Flag.ref_port
    else if s == "--ref-group"
    then some Flag.ref_group
    else if s == "--duration"
    then some Flag.duration
    else none

module _ (strtol : String → ℕ) where
  abbrev pub set_flag : Flag → String → Args → Args
  set_flag Flag.exchange_host v a = record a { exchange_host = v }
  set_flag Flag.order_port v a = record a { order_port = strtol v % 2 ^ 16 }
  set_flag Flag.md_port v a = record a { md_port = strtol v % 2 ^ 16 }
  set_flag Flag.md_group v a = record a { md_group = v }
  set_flag Flag.ref_port v a = record a { ref_port = strtol v % 2 ^ 16 }
  set_flag Flag.ref_group v a = record a { ref_group = v }
  set_flag Flag.duration v a = record a { duration_sec = strtol v % u32_mod }

  -- The loop over the arguments; the first argument is the option whose value comes next. An option
  -- without a value is not read.
  unfoldable pub parse_from : Option Flag → List String → Args → Args
  parse_from pending [] a = a
  parse_from (some f) (v ∷ argv) a = parse_from none argv (set_flag f v a)
  parse_from none (s ∷ argv) a = elim (flag_of s) [
    | some f ↦ parse_from (some f) argv a
    | none ↦
        parse_from none argv (if s == "--save-report" then record a { save_report = true } else a)
  ]

  -- `argv` without the name of the program.
  unfoldable pub parse_args : List String → Args
  unfolding parse_from
  parse_args argv = parse_from none argv default_args

  -- With every option given once, each value goes into its own field, ports modulo 2 ^ 16.
  pub parse_args-all :
      (host order md group ref ref_name seconds : String)
      → parse_args (
          "--exchange-host" ∷ host ∷ "--order-port" ∷ order ∷ "--md-port" ∷ md ∷ "--md-group"
          ∷ group ∷ "--ref-port" ∷ ref ∷ "--ref-group" ∷ ref_name ∷ "--duration" ∷ seconds
          ∷ "--save-report" ∷ [])
        ≡ record {
          md_port = strtol md % 2 ^ 16;
          md_group = group;
          ref_port = strtol ref % 2 ^ 16;
          ref_group = ref_name;
          duration_sec = strtol seconds % u32_mod;
          exchange_host = host;
          order_port = strtol order % 2 ^ 16;
          save_report = true;
        }
  unfolding parse_args
  parse_args-all host order md group ref ref_name seconds = refl
