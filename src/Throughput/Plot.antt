-- ===== src/Throughput/Plot.antt =====
-- The chart of the throughput panel (TPSChart and TPSTooltip of
-- frontend/src/components/dashboard/exchange-tps-panel.tsx): its axes, and the tooltip at the pointer. The
-- scales are D3's; `tps_text` is `Intl.NumberFormat` with at most so many digits after the point.
use perps_latency_benchmark.Prelude.{
  ℕ, Bool, not, ◌||◌, Option, none, some, List, [], ◌∷◌, ◌++◌, map, length, keep, Text, txt, ◌==◌,
  if◌then◌else◌, min, max,
}
use perps_latency_benchmark.Prelude.Sorting.{sort}
use perps_latency_benchmark.Numbers.{Numbers, positive}
use perps_latency_benchmark.Format.{Formatters, format_date}
use perps_latency_benchmark.Chart.{ScaleMode, linear, log}
use perps_latency_benchmark.Chart.Ticks
use perps_latency_benchmark.Chart.Frame.{Scales, is_no_place}
use perps_latency_benchmark.CostPanel.Panel
use perps_latency_benchmark.Data.{ExchangeTpsRow}
use perps_latency_benchmark.Throughput.{TpsPoint, TpsSeries, unique_sorted_dates, scale_tps}
use perps_latency_benchmark.Throughput.Nearest.{nearest_date_at_x}
use perps_latency_benchmark.Throughput.Search.{find_point_at_time}

pub record TooltipPoint (N : Type 0) : Type 0 where
  pub color : Option Text
  pub point : TpsPoint N

pub record TpsTooltip (N : Type 0) : Type 0 where
  pub date : ℕ
  pub points : List (TooltipPoint N)

-- What the chart is drawn in: the domains of its axes and the size of the plot.
pub record TpsFrame (N : Type 0) : Type 0 where
  pub inner_width : N
  pub inner_height : N
  pub x_domain : N × N
  pub y_domain : N × N
  pub y_min : N

abbrev pub all_points : {N : Type 0} → List (TpsSeries N) → List (TpsPoint N)
all_points [] = []
all_points (item ∷ series) = item.points ++ all_points series

module _ {N : Type 0} ⦃n : Numbers N⦄ where
  module _ {T : Type 0} (score : T → N) where
    unfoldable pub min_by : List T → Option T
    unfolding Panel.min_by
    min_by items = Panel.min_by score items

    unfoldable pub max_by : List T → Option T
    unfolding Panel.max_by
    max_by items = Panel.max_by score items

  -- `MARGIN` is { top: 16, right: 18, bottom: 32, left: 70 }.
  abbrev pub inner_width_of : N → N
  inner_width_of width = n.max_of (n.sub (n.sub width (n.of_ℕ 70)) (n.of_ℕ 18)) (n.of_ℕ 1)

  abbrev inner_height_of : N → N
  inner_height_of height = n.max_of (n.sub (n.sub height (n.of_ℕ 16)) (n.of_ℕ 32)) (n.of_ℕ 1)

  abbrev time_of : TpsPoint N → N
  time_of point = n.of_ℕ point.date

  abbrev pub tps_of : TpsPoint N → N
  tps_of point = point.tps

  -- `point?.tps ?? 1`
  abbrev tps_or_one : Option (TpsPoint N) → N
  tps_or_one none = n.of_ℕ 1
  tps_or_one (some point) = point.tps

  abbrev x_domain_of : TpsPoint N → TpsPoint N → N × N
  x_domain_of first last =
      if first.date == last.date
      then (n.sub (time_of first) (n.of_ℕ 60_000), n.add (time_of last) (n.of_ℕ 60_000))
      else (time_of first, time_of last)

  -- `Math.max(maxTPS * 1.08, 1)`
  abbrev pub y_domain_max : N → N
  y_domain_max max_tps = n.max_of (n.mul max_tps (n.div (n.of_ℕ 108) (n.of_ℕ 100))) (n.of_ℕ 1)

  -- `Math.max(minPositiveTPS * 0.8, 0.1)`
  abbrev pub y_domain_min : N → N
  y_domain_min min_positive_tps =
      n.max_of (n.mul min_positive_tps (n.div (n.of_ℕ 8) (n.of_ℕ 10)))
        (n.div (n.of_ℕ 1) (n.of_ℕ 10))

  abbrev pub y_domain_of : ScaleMode → N → N → N × N
  y_domain_of log low high = (n.min_of low (n.div high (n.of_ℕ 10)), high)
  y_domain_of linear low high = (n.of_ℕ 0, high)

  abbrev frame_of :
      Option (TpsPoint N)
      → Option (TpsPoint N)
      → List (TpsPoint N)
      → ScaleMode
      → N
      → N
      → Option (TpsFrame N)
  unfolding max_by min_by
  frame_of (some first) (some last) points mode width height =
      let low =
        y_domain_min
          (tps_or_one (min_by tps_of (keep (λ (p : TpsPoint N). positive p.tps) points))) in
      let high = y_domain_max (tps_or_one (max_by tps_of points)) in
      some record {
        inner_width = inner_width_of width;
        inner_height = inner_height_of height;
        x_domain = x_domain_of first last;
        y_domain = y_domain_of mode low high;
        y_min = low;
      }
  frame_of _ _ points mode width height = none

  -- Nothing is drawn without a place, a series or a date.
  unfoldable pub tps_frame : List (TpsSeries N) → ScaleMode → N → N → Option (TpsFrame N)
  unfolding min_by max_by
  tps_frame series mode width height =
      let points = all_points series in
      if is_no_place width height || length series == 0
      then none
      else frame_of (min_by time_of points) (max_by time_of points) points mode width height

  unfoldable pub stable_log_ticks : (N → N → List N) → N → N → (N → N) → N → List N
  unfolding Ticks.stable_log_ticks
  stable_log_ticks decades min max position height =
      Ticks.stable_log_ticks decades min max position height

  module _ (scales : Scales N) (frame : TpsFrame N) (mode : ScaleMode) where
    abbrev pub x_scale : ℕ → N
    x_scale date = scales.time frame.x_domain frame.inner_width date

    abbrev pub y_scale_of : ScaleMode → N → N
    y_scale_of log tps = scales.log_y frame.y_domain frame.inner_height tps
    y_scale_of linear tps = scales.linear_y frame.y_domain frame.inner_height tps

    abbrev tick_values_of : (N → N → List N) → ScaleMode → Option (List N)
    tick_values_of decades log = some (
        stable_log_ticks decades frame.y_domain.0 frame.y_domain.1 (y_scale_of log)
          frame.inner_height)
    tick_values_of decades linear = none

    -- The axis chooses its own ticks on the linear scale.
    unfoldable pub y_tick_values : (N → N → List N) → Option (List N)
    unfolding stable_log_ticks
    y_tick_values decades = tick_values_of decades mode

    -- Where a point is drawn.
    unfoldable pub place_of : TpsPoint N → N × N
    unfolding scale_tps
    place_of point = (x_scale point.date, y_scale_of mode (scale_tps point.tps mode frame.y_min))

    -- The left and the top of the tooltip.
    unfoldable pub tooltip_place : TpsTooltip N → N × N
    tooltip_place tooltip = (
      n.add (n.add (n.of_ℕ 70) (x_scale tooltip.date)) (n.of_ℕ 12),
      n.add (n.of_ℕ 16) (n.of_ℕ 10),
    )

  -- `right.tps - left.tps`
  abbrev pub not_lower : TooltipPoint N → TooltipPoint N → Bool
  not_lower left right = not (n.lt left.point.tps right.point.tps)

  abbrev pub with_color : Option Text → Option (TpsPoint N) → List (TooltipPoint N)
  with_color color none = []
  with_color color (some point) = record { color = color; point = point } ∷ []

  abbrev pub joined :
      Option Text
      → Option (Option (TpsPoint N))
      → Option (List (TooltipPoint N))
      → Option (List (TooltipPoint N))
  joined color (some found) (some rest) = some (with_color color found ++ rest)
  joined color _ _ = none

  -- The points of the series at a date, each with the colour of its series; the outer `none` is a search
  -- out of fuel.
  unfoldable pub points_at : ℕ → List (TpsSeries N) → Option (List (TooltipPoint N))
  unfolding find_point_at_time
  points_at date [] = some []
  points_at date (item ∷ series) =
      joined item.color (find_point_at_time item.points date) (points_at date series)

  -- The tooltip is hidden where there are no points.
  abbrev pub shown_at : ℕ → List (TooltipPoint N) → Option (TpsTooltip N)
  shown_at date [] = none
  shown_at date (p ∷ points) = some record { date = date; points = sort not_lower (p ∷ points) }

  abbrev pub tooltip_with : ℕ → Option (List (TooltipPoint N)) → Option (Option (TpsTooltip N))
  tooltip_with date none = none
  tooltip_with date (some points) = some (shown_at date points)

  unfoldable pub tooltip_at :
      List (TpsSeries N) → Option (Option ℕ) → Option (Option (TpsTooltip N))
  unfolding points_at
  tooltip_at series none = none
  tooltip_at series (some none) = some none
  tooltip_at series (some (some date)) = tooltip_with date (points_at date series)

  -- What a move of the pointer to a time of the axis leaves shown; the inner `none` is hidden.
  unfoldable pub show_tps_at_pointer : List (TpsSeries N) → ℕ → Option (Option (TpsTooltip N))
  unfolding nearest_date_at_x unique_sorted_dates tooltip_at
  show_tps_at_pointer series time =
      tooltip_at series (nearest_date_at_x (unique_sorted_dates (all_points series)) time)

  module _ (tps_text : ℕ → N → Text) where
    unfoldable pub format_tps : Option N → Text
    format_tps none = txt "-"
    format_tps (some value) =
        if not (n.is_finite value)
        then txt "-"
        else tps_text (if n.lt value (n.of_ℕ 100) then 1 else 0) value

    -- The time, and for each point its venue and throughput.
    unfoldable pub tps_tooltip : Formatters N → TpsTooltip N → Text × List (Text × Text)
    unfolding format_date format_tps
    tps_tooltip f tooltip = (
      format_date f (some tooltip.date),
      map (λ (p : TooltipPoint N). (p.point.venue, format_tps (some p.point.tps))) tooltip.points,
    )

  -- Rows that are not those of an hour are taken to be of a minute.
  abbrev described : Option N → Text
  described none = txt "Minute transaction buckets by exchange."
  described (some seconds) =
      if n.same seconds (n.of_ℕ 3600)
      then txt "Hourly transaction buckets by exchange."
      else txt "Minute transaction buckets by exchange."

  unfoldable pub bucket_description : List (ExchangeTpsRow N) → Text
  bucket_description [] = described none
  bucket_description (row ∷ rows) = described (some row.bucket_seconds)
