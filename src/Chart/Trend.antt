-- ===== src/Chart/Trend.antt =====
-- The trend of a series (rollingTrend and what it uses, and withoutUpperOutliers, of
-- frontend/src/components/charts/latency-timeseries-chart.tsx). A quantile is asked for in quarters.
-- `nan` is NaN, which arithmetic gives of a number that is not there. A date minus half a window may be
-- below 0 in the source; here it stops at 0, and no date is before either.
pub mod Steps
pub mod Reference
pub mod Length
use perps_latency_benchmark.Prelude.{
  ℕ, zero, suc, ◌+◌, ◌-◌, ◌*◌, ◌/◌, ◌%◌, ◌≤◌, ◌<◌, ◌≡◌, refl, sym, ap, ◌∙◌, subst, ◌≢◌, ◌↔◌, ◌⊎◌,
  inl, inr, Bool, true, false, not, ◌&&◌, ◌||◌, Option, none, some, List, [], ◌∷◌, ◌++◌, map, arith,
  length, get_elem?, keep, any, All, All-map, All-imp, get_elem?-IsInside, Text, txt, ◌===◌, ltb,
  leb, ◌==◌, ==_iff, Bool-cases, if◌then◌else◌, value_or, min, max,
}
use mathlib.Core.Option
use perps_latency_benchmark.Prelude.Sorting.{sort}
use perps_latency_benchmark.Numbers.{Numbers, positive}
use perps_latency_benchmark.Chart.{
  Point, BandPoint, PointKind, of_sample, rolling_median, not_above,
}

abbrev pub trend_window_ms : ℕ
trend_window_ms = 30 * 60 * 1000

abbrev pub trend_step_ms : ℕ
trend_step_ms = 5 * 60 * 1000

abbrev pub trend_target_points : ℕ
trend_target_points = 900

abbrev pub intervals : List ℕ
intervals =
    5 * 60 * 1000
    ∷ 10 * 60 * 1000
    ∷ 15 * 60 * 1000
    ∷ 30 * 60 * 1000
    ∷ 60 * 60 * 1000
    ∷ 2 * 60 * 60 * 1000
    ∷ 4 * 60 * 60 * 1000
    ∷ 6 * 60 * 60 * 1000
    ∷ 12 * 60 * 60 * 1000
    ∷ 24 * 60 * 60 * 1000
    ∷ []

-- `intervals.find((interval) => interval >= value)`, or the last one, a week.
abbrev pub find_interval : List ℕ → ℕ → ℕ
find_interval [] value = 7 * 24 * 60 * 60 * 1000
find_interval (interval ∷ rest) value =
    let later = find_interval rest value in if leb value interval then interval else later

unfoldable pub round_up_to_nice_interval : ℕ → ℕ
round_up_to_nice_interval value = find_interval intervals value

unfoldable pub floor_to_step : ℕ → ℕ → ℕ
floor_to_step value step = value / step * step

pub record Resolution : Type 0 where
  pub step_ms : ℕ
  pub window_ms : ℕ

-- `Math.ceil(span / TREND_TARGET_POINTS)`, at least the smallest step.
unfoldable pub target_step : (start end : ℕ) → ℕ
target_step start end =
    max trend_step_ms
      ((max (end - start) trend_step_ms + (trend_target_points - 1)) / trend_target_points)

-- Of the dates of the first and of the last point.
unfoldable pub trend_resolution : (start end : ℕ) → Resolution
unfolding round_up_to_nice_interval target_step
trend_resolution start end =
    let step = round_up_to_nice_interval (target_step start end) in
    record { step_ms = step; window_ms = max trend_window_ms (step * 6) }

pub record Trend (N : Type 0) : Type 0 where
  pub band_points : List (BandPoint N)
  pub line_points : List (Point N)

abbrev pub no_trend : {N : Type 0} → Trend N
no_trend = record { band_points = []; line_points = [] }

pub record Filtered (N : Type 0) : Type 0 where
  pub outlier_count : ℕ
  pub points : List (Point N)

module _ {N : Type 0} where
  -- The loop that moves an index on, while it stands at a point whose date passes a test. It ends after
  -- as many rounds as there are points.
  abbrev pub advance : ℕ → (ℕ → Bool) → List (Point N) → ℕ → ℕ
  advance zero test points index = index
  advance (suc rounds) test points index = elim (get_elem? points index) [
    | none ↦ index
    | some point ↦ elim (test point.date) [
      | false ↦ index
      | true ↦ advance rounds test points (index + 1)
    ]
  ]

  -- `points.slice(start, end)`
  abbrev pub slice : List (Point N) → (start end : ℕ) → List (Point N)
  slice [] start end = []
  slice (p ∷ points) zero zero = []
  slice (p ∷ points) zero (suc end) = p ∷ slice points zero end
  slice (p ∷ points) (suc start) end = slice points start (end - 1)

  abbrev pub last_date : Point N → List (Point N) → ℕ
  last_date point [] = point.date
  last_date point (p ∷ points) = last_date p points

module _ {N : Type 0} ⦃n : Numbers N⦄ (nan : N) where
  abbrev or_nan : Option N → N
  or_nan none = nan
  or_nan (some value) = value

  -- `sortedValues[lower] * (1 - weight) + sortedValues[upper] * weight`
  abbrev between : List N → (lower upper weight : ℕ) → N
  between values lower upper weight =
      n.add (n.mul (or_nan (get_elem? values lower)) (n.div (n.of_ℕ (4 - weight)) (n.of_ℕ 4)))
        (n.mul (or_nan (get_elem? values upper)) (n.div (n.of_ℕ weight) (n.of_ℕ 4)))

  -- The quantile at `quarters / 4`.
  unfoldable pub quantile : List N → ℕ → N
  quantile [] quarters = nan
  quantile (value ∷ []) quarters = value
  quantile (value ∷ next ∷ values) quarters =
      let index = (length (next ∷ values)) * quarters in
      between (value ∷ next ∷ values) (index / 4) ((index + 3) / 4) (index % 4)

  -- `q3 + 1.5 * iqr`, or `q3 * 3`.
  unfoldable pub upper_fence : List (Point N) → N
  unfolding quantile
  upper_fence points =
      let values = sort not_above (map (λ (p : Point N). p.ms) points) in
      let q1 = quantile values 1 in
      let q3 = quantile values 3 in
      let iqr = n.sub q3 q1 in
      if positive iqr
      then n.add q3 (n.mul (n.div (n.of_ℕ 3) (n.of_ℕ 2)) iqr)
      else n.mul q3 (n.of_ℕ 3)

  -- `point.ms <= upperFence`
  abbrev within_fence : N → Point N → Bool
  within_fence fence point = n.lt point.ms fence || n.same point.ms fence

  unfoldable pub without_upper_outliers : List (Point N) → Filtered N
  unfolding upper_fence
  without_upper_outliers points =
      let filtered = keep (within_fence (upper_fence points)) points in
      if ltb (length points) 8
      then record { outlier_count = 0; points = points }
      else record { outlier_count = length points - length filtered; points = filtered }

  -- A round of the loop over the times puts its points before those of the rounds that follow; a window
  -- without points is left out.
  unfoldable pub with_window : ℕ → List (Point N) → Trend N → Trend N
  unfolding quantile
  with_window time [] rest = rest
  with_window time (p ∷ points) rest =
      let values = sort not_above (map (λ (q : Point N). q.ms) (p ∷ points)) in
      record {
        band_points =
            record { date = time; lower_ms = quantile values 1; upper_ms = quantile values 3 }
            ∷ rest.band_points;
        line_points =
            record {
              date = time;
              kind = rolling_median;
              ms = quantile values 2;
              sample_count = some (length values);
            }
            ∷ rest.line_points;
      }

  -- The loop over the times, on rounds of which it may run out; the two indices go on from where they
  -- were left.
  unfoldable pub trend_loop :
      ℕ → List (Point N) → (step half end_time time start_index end_index : ℕ) → Option (Trend N)
  unfolding with_window
  trend_loop zero points step half end_time time start_index end_index = none
  trend_loop (suc rounds) points step half end_time time start_index end_index =
      elim (leb time end_time) [
        | false ↦ some no_trend
        | true ↦
            let start =
              advance (length points) (λ date. ltb date (time - half)) points start_index in
            let end = advance (length points) (λ date. leb date (time + half)) points end_index in
            Option.map (with_window time (slice points start end))
              (trend_loop rounds points step half end_time (time + step) start end)
      ]

  -- Two rounds more than the steps from the first time to the last point.
  unfoldable pub rolling_trend : List (Point N) → Option (Trend N)
  unfolding trend_loop trend_resolution floor_to_step
  rolling_trend [] = some no_trend
  rolling_trend (p ∷ points) =
      let end_time = last_date p points in
      let resolution = trend_resolution p.date end_time in
      let start_time = floor_to_step p.date resolution.step_ms in
      trend_loop (suc (suc ((end_time - start_time) / resolution.step_ms))) (p ∷ points)
        resolution.step_ms (resolution.window_ms / 2) end_time start_time 0 0
