-- ===== src/Chart/Series.antt =====
-- The series of the chart, the point under the pointer and the rows of the export (buildSeries,
-- buildDisplaySeries, nearestHoverPoint and latencyExportRows of
-- frontend/src/components/charts/latency-timeseries-chart.tsx). `parse_date` is as in SampleTime, `collate`
-- is whether `localeCompare` puts the first text at or before the second; the scales are D3's.
use mathlib.Core.Option
use perps_latency_benchmark.Prelude.{
  ◌>>=◌, split_on, is_blank, ℕ, ◌*◌, Bool, false, not, ◌&&◌, ◌||◌, Option, none, some, List, [],
  ◌∷◌, ◌++◌, map, length, keep, Text, txt, ◌===◌, ltb, if◌then◌else◌, value_or,
}
use perps_latency_benchmark.Prelude.Sorting.{sort}
use perps_latency_benchmark.Data.{Sample}
use perps_latency_benchmark.Numbers.{Numbers, positive}
use perps_latency_benchmark.SampleTime.{sample_plot_date}
use perps_latency_benchmark.TakerCost.Groups.{group_by}
use perps_latency_benchmark.Chart.{
  Point, BandPoint, of_sample, not_after, DisplayMode, raw, trend_raw,
}
use perps_latency_benchmark.Chart.Colors.{color_for_venue}
use perps_latency_benchmark.Chart.Labels.{series_label, batch_submission_of}
use perps_latency_benchmark.Chart.Trend.{Trend, rolling_trend, without_upper_outliers, Filtered}

pub record Series (N : Type 0) : Type 0 where
  pub color : Option Text
  pub key : Text
  pub label : Text
  pub points : List (Point N)
  pub stroke_dasharray : Option Text
  pub venue : Text

pub record DisplaySeries (N : Type 0) : Type 0 where
  pub series : Series N
  pub band_points : List (BandPoint N)
  pub line_points : List (Point N)
  pub outlier_count : ℕ
  pub raw_points : List (Point N)

pub record ScaledHoverPoint (N : Type 0) : Type 0 where
  pub color : Option Text
  pub point : Point N
  pub series : DisplaySeries N
  pub x : N
  pub y : N

abbrev pub series_key : Text → Text → Text
series_key venue batch_kind =
    if is_blank batch_kind then venue else venue ++ (txt ":" ++ batch_kind)

-- `const [venue = "unknown", batchKind = ""] = key.split(":")`
abbrev pub split_key : List Text → Text × Text
split_key [] = (txt "unknown", [])
split_key (venue ∷ []) = (venue, [])
split_key (venue ∷ batch_kind ∷ rest) = (venue, batch_kind)

module _ {N : Type 0} ⦃n : Numbers N⦄ where
  module _ (parse_date : Text → Option ℕ) (value_for_sample : Sample N → Option N) where
    abbrev usable_ms : Option N → Option N
    usable_ms none = none
    usable_ms (some ms) = if n.is_finite ms && positive ms then some ms else none

    -- The point of a sample with the key of its series.
    unfoldable pub keyed_point : Sample N → Option (Text × Point N)
    unfolding sample_plot_date batch_submission_of
    keyed_point sample =
        if not sample.ok || value_or sample.warmup false
        then none
        else elim (sample_plot_date parse_date sample) [
          | none ↦ none
          | some date ↦
              Option.map
                (λ (ms : N). (
                  series_key sample.venue (batch_submission_of sample),
                  record { date = date; kind = of_sample; ms = ms; sample_count = none },
                ))
                (usable_ms (value_for_sample sample))
        ]

    abbrev pub keyed_points : List (Sample N) → List (Text × Point N)
    keyed_points [] = []
    keyed_points (sample ∷ samples) =
        let rest = keyed_points samples in
        elim (keyed_point sample) [ none ↦ rest | some p ↦ p ∷ rest ]

  abbrev pub has_points : Series N → Bool
  has_points series = ltb 0 (length series.points)

  -- The series of a group.
  unfoldable pub series_of_group : Text × List (Text × Point N) → Series N
  unfolding split_on color_for_venue series_label ◌===◌
  series_of_group (key, group) =
      let (venue, batch_kind) = split_key (split_on b':' key) in
      record {
        color = color_for_venue venue;
        key = key;
        label = series_label venue batch_kind;
        points = sort not_after (map (λ (p : Text × Point N). p.1) group);
        stroke_dasharray = if batch_kind === txt "manual" then some (txt "5 4") else none;
        venue = venue;
      }

  unfoldable pub build_series :
      (Text → Option ℕ)
      → (Text → Text → Bool)
      → List (Sample N)
      → (Sample N → Option N)
      → List (Series N)
  unfolding group_by keyed_point series_of_group ◌===◌
  build_series parse_date collate samples value_for_sample =
      sort (λ (left : Series N) (right : Series N). collate left.label right.label)
        (keep has_points (
          map series_of_group (
            group_by ◌===◌ (λ (p : Text × Point N). p.0)
              (keyed_points parse_date value_for_sample samples))))

  -- What is drawn of the series; the trend of points in order is always there.
  abbrev trend_points : DisplayMode → Trend N → List (Point N) → List (Point N)
  trend_points raw t visible = visible
  trend_points _ t visible = t.line_points

  abbrev band_points_of : DisplayMode → Trend N → List (BandPoint N)
  band_points_of raw t = []
  band_points_of _ t = t.band_points

  abbrev raw_points_of : DisplayMode → List (Point N) → List (Point N)
  raw_points_of trend_raw visible = visible
  raw_points_of _ visible = []

  abbrev filtered_of : N → Bool → List (Point N) → Filtered N
  filtered_of nan hide_outliers points =
      if hide_outliers
      then without_upper_outliers nan points
      else record { outlier_count = 0; points = points }

  abbrev is_drawn : DisplaySeries N → Bool
  is_drawn item = ltb 0 (length item.line_points) || ltb 0 (length item.raw_points)

  unfoldable pub display_series : N → DisplayMode → Bool → Series N → Option (DisplaySeries N)
  unfolding rolling_trend without_upper_outliers
  display_series nan mode hide_outliers item =
      let filtered = filtered_of nan hide_outliers item.points in
      Option.map
        (λ (t : Trend N). record {
          series = item;
          band_points = band_points_of mode t;
          line_points = trend_points mode t filtered.points;
          outlier_count = filtered.outlier_count;
          raw_points = raw_points_of mode filtered.points;
        })
        (rolling_trend nan filtered.points)

  unfoldable pub build_display_series :
      N → DisplayMode → Bool → List (Series N) → Option (List (DisplaySeries N))
  unfolding display_series
  build_display_series nan mode hide_outliers [] = some []
  build_display_series nan mode hide_outliers (item ∷ series) = do
    shown ← display_series nan mode hide_outliers item
    rest ← build_display_series nan mode hide_outliers series
    some (if is_drawn shown then shown ∷ rest else rest)

  module _ (plot_x plot_y : N) (x_scale : ℕ → N) (y_scale : N → N) where
    abbrev pub scaled : DisplaySeries N → Point N → ScaledHoverPoint N
    scaled item point = record {
      color = item.series.color;
      point = point;
      series = item;
      x = x_scale point.date;
      y = y_scale point.ms;
    }

    abbrev pub distance_of : Point N → N
    distance_of point =
        let dx = n.sub (x_scale point.date) plot_x in
        let dy = n.sub (y_scale point.ms) plot_y in n.add (n.mul dx dx) (n.mul dy dy)

    abbrev pub can_hover : Point N → Bool
    can_hover point = n.is_finite (x_scale point.date) && n.is_finite (y_scale point.ms)

    -- `nearest` and `nearestDistance`; a distance is not NaN, so `<=` is not above.
    abbrev pub consider_points :
        DisplaySeries N
        → List (Point N)
        → Option (ScaledHoverPoint N) × N
        → Option (ScaledHoverPoint N) × N
    consider_points item [] best = best
    consider_points item (point ∷ points) (nearest, distance) =
        let taken = consider_points item points (some (scaled item point), distance_of point) in
        let passed = consider_points item points (nearest, distance) in
        if can_hover point && not (n.lt distance (distance_of point)) then taken else passed

    abbrev pub consider_series :
        List (DisplaySeries N) → Option (ScaledHoverPoint N) × N → Option (ScaledHoverPoint N) × N
    consider_series [] best = best
    consider_series (item ∷ series) best =
        consider_series series
          (consider_points item item.line_points (consider_points item item.raw_points best))

    -- Within 28 pixels.
    unfoldable pub nearest_hover_point : List (DisplaySeries N) → Option (ScaledHoverPoint N)
    nearest_hover_point series = (consider_series series (none, n.of_ℕ (28 * 28))).0
