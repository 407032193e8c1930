-- ===== src/Chart/Frame.antt =====
-- What the chart draws in a place of a size, and the tooltip (LatencySvg and PointTooltip of
-- frontend/src/components/charts/latency-timeseries-chart.tsx). The scales are D3's, from their domains and
-- the size; `floor` is `Math.floor`.
use perps_latency_benchmark.Prelude.{
  ◌&&◌, ℕ, Bool, not, ◌||◌, Option, none, some, List, [], ◌∷◌, ◌++◌, Text, txt, ◌==◌, if◌then◌else◌,
  decimal,
}
use mathlib.Core.Option
use perps_latency_benchmark.Numbers.{Numbers, positive}
use perps_latency_benchmark.Format.{Formatters, format_latency, format_date}
use perps_latency_benchmark.Chart.{
  Point, PointKind, of_sample, rolling_median, ScaleMode, linear, log,
}
use perps_latency_benchmark.Chart.Series.{DisplaySeries, ScaledHoverPoint, nearest_hover_point}
use perps_latency_benchmark.Chart.Domain.{Domain}
use perps_latency_benchmark.Chart.Ticks.{stable_log_ticks}

pub record HoverPoint (N : Type 0) : Type 0 where
  pub color : Option Text
  pub point : Point N
  pub series : DisplaySeries N

pub record Tooltip (N : Type 0) : Type 0 where
  pub tooltip_data : HoverPoint N
  pub tooltip_left : N
  pub tooltip_top : N

-- D3's scales: of time, linear with `nice`, and logarithmic, each from its domain and range.
pub record Scales (N : Type 0) : Type 0 where
  pub time : N × N → N → ℕ → N
  pub linear_y : N × N → N → N → N
  pub log_y : N × N → N → N → N

-- A row of the tooltip: what it is of, and its value.
pub record TooltipRow : Type 0 where
  pub label : Text
  pub value : Text

abbrev label_of : Text → PointKind → Text
label_of value_label rolling_median = txt "Trend median"
label_of value_label of_sample = value_label

-- A count that is missing or 0 has no row.
abbrev window_rows : Option ℕ → List TooltipRow
window_rows none = []
window_rows (some count) =
    if count == 0
    then []
    else record { label = txt "Window"; value = decimal count ++ txt " samples" } ∷ []

module _ {N : Type 0} ⦃n : Numbers N⦄ where
  -- `MARGIN` is { top: 18, right: 20, bottom: 34, left: 62 }.
  abbrev pub inner_width : N → N
  inner_width width = n.max_of (n.sub (n.sub width (n.of_ℕ 62)) (n.of_ℕ 20)) (n.of_ℕ 1)

  abbrev pub inner_height : N → N
  inner_height height = n.max_of (n.sub (n.sub height (n.of_ℕ 18)) (n.of_ℕ 34)) (n.of_ℕ 1)

  unfoldable pub x_tick_count : (N → N) → N → N
  x_tick_count floor width =
      n.max_of (n.of_ℕ 2) (n.min_of (n.of_ℕ 6) (floor (n.div (inner_width width) (n.of_ℕ 180))))

  -- `width <= 0 || height <= 0`, where neither is NaN: nothing is drawn.
  abbrev pub is_no_place : N → N → Bool
  is_no_place width height = not (positive width) || not (positive height)

  module _ (scales : Scales N) (domain : Domain N) (mode : ScaleMode) (width height : N) where
    abbrev pub x_scale : ℕ → N
    x_scale date = scales.time (domain.x_min, domain.x_max) (inner_width width) date

    abbrev pub y_scale_of : ScaleMode → N → N
    y_scale_of log ms = scales.log_y (domain.y_min, domain.y_max) (inner_height height) ms
    y_scale_of linear ms = scales.linear_y (domain.y_min, domain.y_max) (inner_height height) ms

    abbrev pub y_scale : N → N
    y_scale ms = y_scale_of mode ms

    -- The axis chooses its own ticks on the linear scale.
    abbrev y_ticks_of : (N → N → List N) → ScaleMode → Option (List N)
    y_ticks_of decades log =
        some (
          stable_log_ticks decades domain.y_min domain.y_max (y_scale_of log) (inner_height height))
    y_ticks_of decades linear = none

    unfoldable pub y_tick_values : (N → N → List N) → Option (List N)
    unfolding stable_log_ticks
    y_tick_values decades = y_ticks_of decades mode

    abbrev tooltip_of : ScaledHoverPoint N → Tooltip N
    tooltip_of nearest = record {
      tooltip_data = record {
        color = nearest.color;
        point = nearest.point;
        series = nearest.series;
      };
      tooltip_left = n.add (n.add (n.of_ℕ 62) nearest.x) (n.of_ℕ 10);
      tooltip_top = n.sub (n.add (n.of_ℕ 18) nearest.y) (n.of_ℕ 62);
    }

    -- What a move of the pointer leaves shown: `none` where the tooltip is hidden.
    unfoldable pub show_nearest_tooltip :
        (client_x client_y left top : N) → List (DisplaySeries N) → Option (Tooltip N)
    unfolding nearest_hover_point
    show_nearest_tooltip client_x client_y left top series =
        Option.map tooltip_of
          (nearest_hover_point (n.sub client_x left) (n.sub client_y top) x_scale y_scale series)

    unfoldable pub scaled_hover_point : HoverPoint N → Option (ScaledHoverPoint N)
    scaled_hover_point hover =
        if n.is_finite (x_scale hover.point.date) && n.is_finite (y_scale hover.point.ms)
        then some record {
          color = hover.color;
          point = hover.point;
          series = hover.series;
          x = x_scale hover.point.date;
          y = y_scale hover.point.ms;
        }
        else none

  -- The label of the series, the time, and the rows.
  unfoldable pub point_tooltip : Formatters N → HoverPoint N → Text → Text × Text × List TooltipRow
  unfolding format_latency format_date decimal
  point_tooltip f hover value_label = (
    hover.series.series.label,
    format_date f (some hover.point.date),
    record {
      label = label_of value_label hover.point.kind;
      value = format_latency f (some hover.point.ms);
    }
        ∷ window_rows hover.point.sample_count,
  )
