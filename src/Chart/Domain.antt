-- ===== src/Chart/Domain.antt =====
-- The domains of the chart's scales (getDomains of
-- frontend/src/components/charts/latency-timeseries-chart.tsx): every point that is drawn lies in them.
-- The milliseconds of a date are a number here, as in the source.
pub mod Inside
use perps_latency_benchmark.Prelude.{
  ℕ, ◌≤◌, ◌≡◌, refl, true, false, Option, none, some, List, [], ◌∷◌, ◌++◌, map, arith, All, All-imp,
  if◌then◌else◌, Bool-cases, inl, inr,
}
use perps_latency_benchmark.Numbers.{
  Numbers, IsOrdered, IsRounded, negative, max_of_all, min_of_all,
}
use perps_latency_benchmark.Numbers.Extremes.{
  AreBelow, AreAbove, AreBelow-not_above, AreAbove-not_below, max_of_all-AreBelow,
  min_of_all-AreAbove, add-AreBelow, sub-AreAbove, min_of_all-nonneg, max_of-nonneg,
}
use perps_latency_benchmark.Chart.{Point, BandPoint, rolling_median, ScaleMode, linear, log}
use perps_latency_benchmark.Chart.Series.{DisplaySeries}

pub record Domain (N : Type 0) : Type 0 where
  pub x_min : N
  pub x_max : N
  pub y_min : N
  pub y_max : N

module _ {N : Type 0} ⦃n : Numbers N⦄ where
  -- The two points of a band.
  abbrev pub ends_of_band : List (BandPoint N) → List (Point N)
  ends_of_band [] = []
  ends_of_band (p ∷ points) =
      record { date = p.date; kind = rolling_median; ms = p.lower_ms; sample_count = none }
      ∷ record { date = p.date; kind = rolling_median; ms = p.upper_ms; sample_count = none }
      ∷ ends_of_band points

  -- All points that are drawn.
  abbrev pub drawn_points : List (DisplaySeries N) → List (Point N)
  drawn_points [] = []
  drawn_points (item ∷ series) =
      item.line_points
      ++ (item.raw_points ++ (ends_of_band item.band_points ++ drawn_points series))

  abbrev pub time_of : Point N → N
  time_of point = n.of_ℕ point.date

  abbrev pub ms_of : Point N → N
  ms_of point = point.ms

  abbrev pub time_padding : N → N → N
  time_padding min_time max_time = n.of_ℕ (if n.same min_time max_time then 60_000 else 0)

  -- `Math.max(maxLatency * 0.12, 1)`
  abbrev pub latency_padding : N → N
  latency_padding max_latency =
      n.max_of (n.mul max_latency (n.div (n.of_ℕ 12) (n.of_ℕ 100))) (n.of_ℕ 1)

  -- `Math.max(minLatency * 0.72, 0.1)`
  abbrev pub min_log_latency : N → N
  min_log_latency min_latency =
      n.max_of (n.mul min_latency (n.div (n.of_ℕ 72) (n.of_ℕ 100))) (n.div (n.of_ℕ 1) (n.of_ℕ 10))

  abbrev pub lower_end : ScaleMode → N → N
  lower_end log min_latency = min_log_latency min_latency
  lower_end linear min_latency = n.of_ℕ 0

  -- The domains of the first point and the others.
  unfoldable pub domains_of : Point N → List (Point N) → ScaleMode → Domain N
  domains_of first points mode =
      let min_time = min_of_all (map time_of points) (time_of first) in
      let max_time = max_of_all (map time_of points) (time_of first) in
      let min_latency = min_of_all (map ms_of points) first.ms in
      let max_latency = max_of_all (map ms_of points) first.ms in
      record {
        x_min = n.sub min_time (time_padding min_time max_time);
        x_max = n.add max_time (time_padding min_time max_time);
        y_min = lower_end mode min_latency;
        y_max = n.add max_latency (latency_padding max_latency);
      }

  abbrev pub domains_of_points : List (Point N) → ScaleMode → Option (Domain N)
  domains_of_points [] mode = none
  domains_of_points (first ∷ points) mode = some (domains_of first points mode)

  unfoldable pub get_domains : List (DisplaySeries N) → ScaleMode → Option (Domain N)
  unfolding domains_of
  get_domains series mode = domains_of_points (drawn_points series) mode
