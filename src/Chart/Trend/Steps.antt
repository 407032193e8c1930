-- ===== src/Chart/Trend/Steps.antt =====
-- The steps of the trend (trendResolution of frontend/src/components/charts/latency-timeseries-chart.tsx).
use perps_latency_benchmark.Prelude.{ℕ, ◌-◌, ◌*◌, ◌≤◌, ◌<◌, List, [], ◌∷◌, arith, All}
use perps_latency_benchmark.Chart.Trend.{
  target_step, find_interval, intervals, round_up_to_nice_interval, trend_resolution,
}

find_interval-ge :
    (xs : List ℕ) (value : ℕ) → value ≤ 7 * 24 * 60 * 60 * 1000 → value ≤ find_interval xs value
find_interval-ge [] value h = h
find_interval-ge (x ∷ xs) value h = ground (arith, find_interval-ge xs value h)

find_interval-pos : (xs : List ℕ) (value : ℕ) → All (λ x. 0 < x) xs → 0 < find_interval xs value
find_interval-pos [] value h = omega arith
find_interval-pos (x ∷ xs) value h = ground (arith, find_interval-pos xs value h.1)

pub trend_resolution-step_pos : (start end : ℕ) → 0 < (trend_resolution start end).step_ms
unfolding trend_resolution round_up_to_nice_interval
trend_resolution-step_pos start end = find_interval-pos intervals (target_step start end) (
  omega arith,
  (
    omega arith,
    (
      omega arith,
      (
        omega arith,
        (
          omega arith,
          (omega arith, (omega arith, (omega arith, (omega arith, (omega arith, tt))))),
        ),
      ),
    ),
  ),
)

target_step-bounds :
    (start end : ℕ)
    → end - start ≤ 900 * (7 * 24 * 60 * 60 * 1000)
    → (end - start ≤ 900 * target_step start end)
      × (target_step start end ≤ 7 * 24 * 60 * 60 * 1000)
unfolding target_step
target_step-bounds start end h = omega (arith, h)

-- Of at most 900 weeks, 900 steps reach from the first point to the last.
pub trend_resolution-reaches :
    (start end : ℕ)
    → end - start ≤ 900 * (7 * 24 * 60 * 60 * 1000)
    → end - start ≤ 900 * (trend_resolution start end).step_ms
unfolding trend_resolution round_up_to_nice_interval
trend_resolution-reaches start end h =
    let (reaches, below) = target_step-bounds start end h in
    omega (arith, reaches, find_interval-ge intervals (target_step start end) below)
