-- ===== src/TscSync/Report.antt =====
-- The arguments and `main` of tools/tsc_sync_check.cpp. Calls of the standard library are parameters:
-- `strtol` gives the `int` pattern of a whole token, and `none` where the token is not a number or
-- out of range, `atoi` an `int` pattern, and `split` the tokens between the commas of a line.
use Prim.Native.String.{String}
use text.Mathlib.Text.{◌==◌}
use nanosecond_trading_stack.Common.{
  ℕ, zero, suc, ◌+◌, ◌^◌, ◌<◌, ◌≤◌, ◌≡◌, ◌≢◌, ◌⊎◌, inl, inr, refl, sym, ◌∙◌, Bool, true, false,
  ◌||◌, ◌&&◌, Option, none, some, List, [], ◌∷◌, ◌++◌, if◌then◌else◌, ltb, leb, arith, All,
  All-append, Bool-cases, Option-cases, ==→ne, ==→eq,
}
use nanosecond_trading_stack.Common as Nat
use nanosecond_trading_stack.TscSync.Handshake.{System, Reach, joining}
use nanosecond_trading_stack.TscSync.{Config, PairStats, pair_stats}

pub data Opt : Type 0 where
  reference_core cores samples warmup threshold_cycles : Opt

-- What `parse_args` throws.
pub data Error : Type 0 where
  missing_value : Opt → Error
  invalid_core unknown_argument : String → Error
  invalid_reference_core invalid_counts : Error

-- `help`: the program prints its usage and exits with 0.
pub data Parsed {ℓ} (A : Type ℓ) : Type ℓ where
  ok : A → Parsed A
  err : Error → Parsed A
  help : Parsed A

infixl 5 ◌>>=◌
abbrev pub ◌>>=◌ {ℓ κ} : {A : Type ℓ} {B : Type κ} → Parsed A → (A → Parsed B) → Parsed B
ok a >>= f = f a
err e >>= f = err e
help >>= f = help

-- `Config` with its list of cores.
pub record Settings : Type 0 where
  pub config : Config
  pub cores : List ℕ

abbrev cores_from : ℕ → ℕ → List ℕ
cores_from i zero = []
cores_from i (suc n) = i ∷ cores_from (i + 1) n

-- `x < 0` of an `int` pattern
abbrev pub is_negative : ℕ → Bool
is_negative x = leb (2 ^ 31) x

abbrev opt_of : String → Option Opt
opt_of s =
    if s == "--reference-core"
    then some reference_core
    else if s == "--cores"
    then some cores
    else if s == "--samples"
    then some samples
    else if s == "--warmup"
    then some warmup
    else if s == "--threshold-cycles"
    then some threshold_cycles
    else none

-- The tests at the end of `parse_args`.
abbrev pub check_settings : ℕ → Settings → Parsed Settings
check_settings n s =
    let c = s.config in
    if is_negative c.reference_core || leb n c.reference_core
    then err invalid_reference_core
    else if (is_negative c.samples || Nat.◌==◌ c.samples 0)
        || is_negative c.warmup
        || is_negative c.threshold_cycles
    then err invalid_counts
    else ok s

-- The loop of `main` over the cores, with the statistics of each line that it prints. For every core
-- but the reference core the two threads of `measure_pair` run to their end in some interleaving;
-- `skew` is how far the counter of a core is from that of the reference core.
pub data Measured (cfg : Config) (skew : ℕ → ℕ) : List ℕ → List PairStats → Type 0 where
  no_core : Measured cfg skew [] []
  skip_reference :
      {cores : List ℕ} {lines : List PairStats} (core : ℕ)
      → core ≡ cfg.reference_core
      → Measured cfg skew cores lines
      → Measured cfg skew (core ∷ cores) lines
  measure_core :
      {cores : List ℕ} {lines : List PairStats} (core : ℕ) (s : System)
      → core ≢ cfg.reference_core
      → Reach cfg (skew core) s
      → s.ref ≡ joining
      → Measured cfg skew cores lines
      → Measured cfg skew (core ∷ cores) (pair_stats cfg core s.best ∷ lines)

abbrev pub all_pass : List PairStats → Bool
all_pass [] = true
all_pass (line ∷ lines) = line.pass && all_pass lines

abbrev pub default_settings : ℕ → Settings
default_settings n = record {
  config = record { reference_core = 0; samples = 100000; warmup = 1000; threshold_cycles = 1000 };
  cores = cores_from 0 n;
}

module _ (strtol : String → Option ℕ) (atoi : String → ℕ) (split : String → List String)
    (n : ℕ) where
  -- The loop over the tokens; `n` is `online_cores()`.
  unfoldable parse_tokens : List String → List ℕ → Parsed (List ℕ)
  parse_tokens [] found = ok found
  parse_tokens (token ∷ tokens) found =
      if token == "" then parse_tokens tokens found else elim (strtol token) [
        | none ↦ err (invalid_core token)
        | some core ↦
            if is_negative core || leb n core
            then err (invalid_core token)
            else parse_tokens tokens (found ++ (core ∷ []))
      ]

  unfoldable parse_cores : String → Parsed (List ℕ)
  unfolding parse_tokens
  parse_cores value = if value == "all" then ok (cores_from 0 n) else parse_tokens (split value) []

  unfoldable set_opt : Opt → String → Settings → Parsed Settings
  unfolding parse_cores
  set_opt Opt.reference_core v s =
      ok (record s { config = record s.config { reference_core = atoi v } })
  set_opt Opt.cores v s = parse_cores v >>= (λ found. ok (record s { cores = found }))
  set_opt Opt.samples v s = ok (record s { config = record s.config { samples = atoi v } })
  set_opt Opt.warmup v s = ok (record s { config = record s.config { warmup = atoi v } })
  set_opt Opt.threshold_cycles v s =
      ok (record s { config = record s.config { threshold_cycles = atoi v } })

  -- The loop over the arguments; the first argument is the option whose value comes next.
  unfoldable pub parse_from : Option Opt → List String → Settings → Parsed Settings
  unfolding set_opt
  parse_from none [] s = ok s
  parse_from (some o) [] s = err (missing_value o)
  parse_from (some o) (v ∷ argv) s = set_opt o v s >>= parse_from none argv
  parse_from none (arg ∷ argv) s = elim (opt_of arg) [
    | some o ↦ parse_from (some o) argv s
    | none ↦ if (arg == "--help") || (arg == "-h") then help else err (unknown_argument arg)
  ]

  unfoldable pub parse_args : List String → Parsed Settings
  unfolding parse_from
  parse_args argv = parse_from none argv (default_settings n) >>= check_settings n

  -- The runs of `main`, with the exit code.
  pub data Main (skew : ℕ → ℕ) (argv : List String) : ℕ → Type 0 where
    usage : parse_args argv ≡ help → Main skew argv 0
    refused : (e : Error) → parse_args argv ≡ err e → Main skew argv 1
    measured :
        {lines : List PairStats} (s : Settings)
        → parse_args argv ≡ ok s
        → Measured s.config skew s.cores lines
        → Main skew argv (if all_pass lines then 0 else 2)
