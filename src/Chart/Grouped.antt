-- ===== src/Chart/Grouped.antt =====
-- Which points a series has (buildSeries of frontend/src/components/charts/latency-timeseries-chart.tsx).
use perps_latency_benchmark.Prelude.{
  All-keep_of, ℕ, ◌≡◌, ap, Bool, Option, List, map, keep, All, All-map, All-imp, Text, ◌===◌,
  ===_iff,
}
use perps_latency_benchmark.Prelude.Sorting.{sort, All-sort}
use perps_latency_benchmark.Data.{Sample}
use perps_latency_benchmark.Numbers.{Numbers}
use perps_latency_benchmark.TakerCost.Groups.{group_by, with_key, IsWhole, group_by-IsWhole}
use perps_latency_benchmark.Chart.{Point, not_after}
use perps_latency_benchmark.Chart.Series.{
  Series, build_series, series_of_group, keyed_points, has_points,
}

module _ {N : Type 0} ⦃n : Numbers N⦄ where
  -- The points of the samples with the key of the series, all of them, in order of date.
  abbrev pub HasItsPoints : List (Text × Point N) → Series N → Type 0
  HasItsPoints all item =
      item.points
      ≡ sort not_after (
          map (λ (p : Text × Point N). p.1)
            (with_key ◌===◌ (λ (p : Text × Point N). p.0) item.key all))

  -- Every series has the points of all samples with its key that are plotted, in order of date, and of no
  -- other.
  pub build_series-HasItsPoints :
      (parse_date : Text → Option ℕ) (collate : Text → Text → Bool) (samples : List (Sample N))
      (value_for_sample : Sample N → Option N)
      → All
          (HasItsPoints (keyed_points parse_date value_for_sample samples))
          (build_series parse_date collate samples value_for_sample)
  unfolding build_series series_of_group
  build_series-HasItsPoints parse_date collate samples value_for_sample =
      let all = keyed_points parse_date value_for_sample samples in
      let groups = group_by ◌===◌ (λ (p : Text × Point N). p.0) all in
      All-sort _ (HasItsPoints all) (keep has_points (map series_of_group groups)) (
        All-keep_of (HasItsPoints all) has_points (map series_of_group groups) (
          (All-map (HasItsPoints all) series_of_group groups).1 (
            All-imp (IsWhole ◌===◌ (λ (p : Text × Point N). p.0) all) _ groups
              (λ (key, group) h.
                ap
                  (λ (l : List (Text × Point N)).
                    sort not_after (map (λ (p : Text × Point N). p.1) l))
                  h)
              (group_by-IsWhole ◌===◌ (λ (p : Text × Point N). p.0) ===_iff all))))
