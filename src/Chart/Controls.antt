-- ===== src/Chart/Controls.antt =====
-- The controls of the chart (ExchangeSelector, SeriesLegend and the display mode of
-- frontend/src/components/charts/latency-timeseries-chart.tsx): what a click chooses, and what the legend
-- says.
use perps_latency_benchmark.Prelude.{
  ℕ, Bool, not, ◌&&◌, List, [], ◌∷◌, ◌++◌, map, keep, length, Text, txt, ◌===◌, ltb, ◌==◌,
  if◌then◌else◌, includes_text, decimal,
}
use perps_latency_benchmark.Chart.{DisplayMode, trend, trend_raw}
use perps_latency_benchmark.Chart.Series.{DisplaySeries}
use perps_latency_benchmark.Dashboard.{VenueFilter, all, only}

abbrev pub initial_display_mode : DisplayMode
initial_display_mode = trend_raw

unfoldable pub effective_display_mode : Bool → DisplayMode → DisplayMode
effective_display_mode force_trend_only mode = if force_trend_only then trend else mode

abbrev pub all_selected : List Text → List Text → Bool
all_selected selected venues = ltb 0 (length venues) && length selected == length venues

-- The button that says "Clear" or "All".
unfoldable pub click_all : List Text → List Text → VenueFilter
click_all selected venues = if all_selected selected venues then only [] else all

abbrev pub without : Text → List Text → List Text
without venue selected = keep (λ item. not (item === venue)) selected

abbrev pub toggled : List Text → Text → List Text
toggled selected venue =
    if includes_text selected venue then without venue selected else selected ++ (venue ∷ [])

-- A click on the box of a venue.
unfoldable pub toggle_venue : List Text → List Text → Text → VenueFilter
unfolding includes_text ◌===◌
toggle_venue selected venues venue =
    let next = toggled selected venue in if length next == length venues then all else only next

-- `item.rawPoints.length || item.linePoints.length`
abbrev point_count : ℕ → ℕ → ℕ
point_count raw_count line_count = if raw_count == 0 then line_count else raw_count

-- The texts of a series in the legend: its label, its points, and the outliers that are hidden.
unfoldable pub legend_texts : {N : Type 0} → Bool → DisplaySeries N → List Text
unfolding decimal
legend_texts hide_outliers item =
    let shown =
      decimal (point_count (length item.raw_points) (length item.line_points)) ++ txt " pts" in
    let hidden = decimal item.outlier_count ++ txt " hidden" in
    if hide_outliers && ltb 0 item.outlier_count
    then item.series.label ∷ shown ∷ hidden ∷ []
    else item.series.label ∷ shown ∷ []

unfoldable pub series_legend : {N : Type 0} → Bool → List (DisplaySeries N) → List (List Text)
unfolding legend_texts
series_legend hide_outliers series = map (legend_texts hide_outliers) series
