-- ===== src/PerfCounter/Tests.antt =====
-- The report of scopes that were never entered.
use nanosecond_trading_stack.Common.{ℕ, ◌≡◌, none, ◌∷◌, map}
use nanosecond_trading_stack.PerfCounter.Printed.{shown, counted, print_pmu_profile_totals-shown}
use nanosecond_trading_stack.PerfCounter.Report.{print_pmu_profile_totals}
use nanosecond_trading_stack.PerfCounter.Scope.{no_totals, enabled_events}
use nanosecond_trading_stack.Oms.Tests.{ticks_double}

print_pmu_profile_totals-shown_example :
    map shown (print_pmu_profile_totals {D = ℕ} none no_totals)
    ≡ ("calls", 0) ∷ map (counted no_totals) (enabled_events none)
print_pmu_profile_totals-shown_example = print_pmu_profile_totals-shown ℕ none no_totals
