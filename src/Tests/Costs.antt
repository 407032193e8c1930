-- ===== src/Tests/Costs.antt =====
-- The summaries and the series of taker costs at a few values (frontend/src/lib/taker-cost.ts,
-- frontend/src/components/dashboard/taker-cost-panel.tsx).
use perps_latency_benchmark.Prelude.{◌≡◌, refl, true, some, List, [], ◌∷◌, All}
use perps_latency_benchmark.Numbers.Integers.{ℤ, pos, negsuc, integers, ℤ-IsOrdered}
use perps_latency_benchmark.TakerCost.{TakerCostRecord, taker_cost_record_of}
use perps_latency_benchmark.TakerCost.Summary.{percentile}
use perps_latency_benchmark.TakerCost.Summary.Percentile.{IsPercentile, percentile-IsPercentile}
use perps_latency_benchmark.CostPanel.{total, cumulative, build_cost_series}
use perps_latency_benchmark.CostPanel.Running.{HasRunningCosts, build_cost_series-HasRunningCosts}
use perps_latency_benchmark.Tests.Fixtures.{cost, sample}

percentile-IsPercentile_example :
    (x : ℤ) × (percentile (pos 3 ∷ negsuc 4 ∷ pos 9 ∷ []) ≡ some x)
    × IsPercentile (pos 3 ∷ negsuc 4 ∷ pos 9 ∷ []) x
percentile-IsPercentile_example =
    percentile-IsPercentile ℤ-IsOrdered (pos 3) (negsuc 4 ∷ pos 9 ∷ []) (refl, (refl, (refl, tt)))

percentile_tests : percentile (pos 3 ∷ negsuc 4 ∷ pos 9 ∷ []) ≡ some (pos 9)
unfolding percentile
percentile_tests = refl

abbrev records : List (TakerCostRecord ℤ)
records = taker_cost_record_of sample cost 20 ∷ taker_cost_record_of sample cost 10 ∷ []

build_cost_series-HasRunningCosts_example :
    All (HasRunningCosts records) (build_cost_series (λ s t. true) records total cumulative)
build_cost_series-HasRunningCosts_example = build_cost_series-HasRunningCosts (λ s t. true) records
