-- ===== src/Chart/Trend/Length.antt =====
-- How many points a trend has (frontend/src/components/charts/latency-timeseries-chart.tsx).
use perps_latency_benchmark.Prelude.{
  ℕ, zero, suc, ◌+◌, ◌-◌, ◌*◌, ◌/◌, ◌≤◌, ◌≡◌, some, List, [], ◌∷◌, arith, length,
}
use native.Mathlib.Nat.{div-le_of_le-mul, lt-div-mul-add}
use perps_latency_benchmark.Prelude.Sorting.{IsSorted}
use perps_latency_benchmark.Numbers.{Numbers}
use perps_latency_benchmark.Chart.{Point, not_after}
use perps_latency_benchmark.Chart.Trend.{
  Trend, last_date, with_window, trend_resolution, floor_to_step, rolling_trend,
}
use perps_latency_benchmark.Chart.Trend.Steps.{trend_resolution-step_pos, trend_resolution-reaches}
use perps_latency_benchmark.Chart.Trend.Reference.{
  windows, reference_trend, rolling_trend-reference, window_of,
}

module _ {N : Type 0} ⦃n : Numbers N⦄ (nan : N) where
  length-with_window :
      (time : ℕ) (points : List (Point N)) (rest : Trend N)
      → length (with_window nan time points rest).line_points ≤ suc (length rest.line_points)
  unfolding with_window
  length-with_window time [] rest = ground arith
  length-with_window time (p ∷ points) rest = ground arith

  length-windows :
      (count : ℕ) (points : List (Point N)) (step half time : ℕ)
      → length (windows nan count points step half time).line_points ≤ count
  unfolding windows
  length-windows zero points step half time = ground arith
  length-windows (suc count) points step half time = omega (
    arith,
    length-windows count points step half (time + step),
    length-with_window time (window_of points (time - half) (time + half))
        (windows nan count points step half (time + step)),
  )

  -- The first and the last date of points are at most 900 weeks apart.
  abbrev pub IsOfYears : List (Point N) → Type 0
  IsOfYears [] = Unit
  IsOfYears (p ∷ points) = last_date p points - p.date ≤ 900 * (7 * 24 * 60 * 60 * 1000)

  length-reference_trend :
      (points : List (Point N))
      → IsOfYears points
      → length (reference_trend nan points).line_points ≤ 902
  unfolding reference_trend floor_to_step
  length-reference_trend [] h = ground arith
  length-reference_trend (p ∷ points) h =
      let end_time = last_date p points in
      let step = (trend_resolution p.date end_time).step_ms in
      let start = p.date / step * step in
      omega (
        arith,
        length-windows (suc ((end_time - start) / step)) (p ∷ points) step
            ((trend_resolution p.date end_time).window_ms / 2) start,
        div-le_of_le-mul step {m = end_time - start} {n = 901} (
            omega (
              arith,
              trend_resolution-reaches p.date end_time h,
              lt-div-mul-add {a = p.date} {b = step} (trend_resolution-step_pos p.date end_time),
            )),
      )

  -- The trend of points in order that span at most 900 weeks has at most 902 points.
  pub rolling_trend-length :
      (points : List (Point N))
      → IsSorted not_after points
      → IsOfYears points
      → (result : Trend N) × (rolling_trend nan points ≡ some result)
        × (length result.line_points ≤ 902)
  rolling_trend-length points h k = (
    reference_trend nan points,
    rolling_trend-reference nan points h,
    length-reference_trend points k,
  )
