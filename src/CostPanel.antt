-- ===== src/CostPanel.antt =====
-- The panel of taker costs (frontend/src/components/dashboard/taker-cost-panel.tsx): the series of its
-- chart. `collate` is whether `localeCompare` puts the first text at or before the second; `nan` is NaN.
pub mod Running
pub mod Export
pub mod Domain
pub mod Panel
pub mod Frame
pub mod Tables
use perps_latency_benchmark.Prelude.{
  ℕ, zero, suc, ◌+◌, ◌-◌, ◌*◌, ◌/◌, ◌%◌, ◌≤◌, ◌<◌, ◌≡◌, refl, sym, ap, ◌∙◌, subst, ◌≢◌, ◌↔◌, ◌⊎◌,
  inl, inr, Bool, true, false, not, ◌&&◌, ◌||◌, Option, none, some, List, [], ◌∷◌, ◌++◌, map, arith,
  length, get_elem?, keep, any, All, All-map, All-imp, get_elem?-IsInside, Text, txt, ◌===◌,
  ===_iff, ltb, leb, ◌==◌, ==_iff, Bool-cases, if◌then◌else◌, value_or, min, max,
}
use perps_latency_benchmark.Prelude.Sorting.{sort}
use perps_latency_benchmark.Numbers.{Numbers, nought, positive}
use perps_latency_benchmark.Chart.{
  DisplayMode, raw, trend, trend_raw, PointKind, of_sample, rolling_median, not_above,
}
use perps_latency_benchmark.Chart.Trend.{quantile}
use perps_latency_benchmark.TakerCost.{TakerCostRecord}
use perps_latency_benchmark.TakerCost.Groups.{group_by}
use perps_latency_benchmark.TakerCost.Series.{running_get, running_set}

pub data CostChartMode : Type 0 where
  fees net total : CostChartMode

pub data CostChartView : Type 0 where
  cumulative round : CostChartView

pub record CostPoint (N : Type 0) : Type 0 where
  pub date : ℕ
  pub kind : PointKind
  pub record_of : TakerCostRecord N
  pub sample_count : Option ℕ
  pub value : N
  pub venue : Text

pub record CostSeries (N : Type 0) : Type 0 where
  pub points : List (CostPoint N)
  pub venue : Text

pub record DisplayCostSeries (N : Type 0) : Type 0 where
  pub series : CostSeries N
  pub line_points : List (CostPoint N)
  pub raw_points : List (CostPoint N)

abbrev pub rolling_median_points : ℕ
rolling_median_points = 9

module _ {N : Type 0} ⦃n : Numbers N⦄ where
  unfoldable pub trading_fees_usd : TakerCostRecord N → N
  trading_fees_usd r = n.add r.entry_fee_usd r.exit_fee_usd

  unfoldable pub net_trading_cost_usd : TakerCostRecord N → N
  unfolding trading_fees_usd
  net_trading_cost_usd r = n.sub r.trade_cost_usd (trading_fees_usd r)

  unfoldable pub cost_value : TakerCostRecord N → CostChartMode → N
  unfolding trading_fees_usd net_trading_cost_usd
  cost_value r fees = trading_fees_usd r
  cost_value r net = net_trading_cost_usd r
  cost_value r total = r.trade_cost_usd

  abbrev pub point_of : TakerCostRecord N → N → CostPoint N
  point_of r value = record {
    date = r.date;
    kind = of_sample;
    record_of = r;
    sample_count = none;
    value = value;
    venue = r.venue;
  }

  -- The points in order, with the totals of the venues so far.
  abbrev pub points_from :
      CostChartMode
      → CostChartView
      → List (Text × N)
      → List (TakerCostRecord N)
      → List (CostPoint N)
  points_from mode view running [] = []
  points_from mode round running (r ∷ records) =
      point_of r (cost_value r mode) ∷ points_from mode round running records
  points_from mode cumulative running (r ∷ records) =
      let value = n.add (running_get r.venue running) (cost_value r mode) in
      point_of r value ∷ points_from mode cumulative (running_set r.venue value running) records

  abbrev pub not_after : CostPoint N → CostPoint N → Bool
  not_after left right = leb left.date right.date

  abbrev pub series_of : Text × List (CostPoint N) → CostSeries N
  series_of (venue, points) = record { points = sort not_after points; venue = venue }

  unfoldable pub build_cost_series :
      (Text → Text → Bool)
      → List (TakerCostRecord N)
      → CostChartMode
      → CostChartView
      → List (CostSeries N)
  unfolding group_by running_get running_set cost_value ◌===◌
  build_cost_series collate records mode view =
      sort (λ (left : CostSeries N) (right : CostSeries N). collate left.venue right.venue)
        (map series_of
          (group_by ◌===◌ (λ (p : CostPoint N). p.venue) (points_from mode view [] records)))

  -- `quantile` of an empty list is 0 here.
  unfoldable pub numeric_quantile : N → List N → ℕ → N
  unfolding quantile
  numeric_quantile nan [] quarters = nought
  numeric_quantile nan (v ∷ values) quarters = quantile nan (v ∷ values) quarters

  unfoldable pub numeric_median : N → List N → N
  unfolding numeric_quantile
  numeric_median nan values = numeric_quantile nan (sort not_above values) 2

  -- The points up to an index of which at most `size` are taken: those before it, the last one first.
  abbrev pub take_first : ℕ → List (CostPoint N) → List (CostPoint N)
  take_first zero points = []
  take_first (suc size) [] = []
  take_first (suc size) (p ∷ points) = p ∷ take_first size points

  abbrev median_point : N → ℕ → List (CostPoint N) → CostPoint N → CostPoint N
  median_point nan size seen point =
      let window = take_first size (point ∷ seen) in
      record {
        date = point.date;
        kind = rolling_median;
        record_of = point.record_of;
        sample_count = some (length window);
        value = numeric_median nan (map (λ (p : CostPoint N). p.value) window);
        venue = point.venue;
      }

  abbrev medians_from : N → ℕ → List (CostPoint N) → List (CostPoint N) → List (CostPoint N)
  medians_from nan size seen [] = []
  medians_from nan size seen (point ∷ points) =
      median_point nan size seen point ∷ medians_from nan size (point ∷ seen) points

  -- The window is taken from its last point back; its median is that of the same values.
  unfoldable pub rolling_median_cost_points : N → List (CostPoint N) → ℕ → List (CostPoint N)
  unfolding numeric_median
  rolling_median_cost_points nan points window_size = medians_from nan window_size [] points

  -- `iqr > 0 ? 1.5 * iqr : Math.max(Math.abs(q3), 0.001) * 3`
  abbrev padding_of : N → N → N
  padding_of iqr q3 =
      if positive iqr
      then n.mul (n.div (n.of_ℕ 3) (n.of_ℕ 2)) iqr
      else n.mul (n.max_of (n.abs q3) (n.div (n.of_ℕ 1) (n.of_ℕ 1000))) (n.of_ℕ 3)

  abbrev not_outside : N → N → CostPoint N → Bool
  not_outside lower upper point =
      (n.lt lower point.value || n.same lower point.value)
      && (n.lt point.value upper || n.same point.value upper)

  unfoldable pub without_cost_outliers : N → List (CostPoint N) → List (CostPoint N)
  unfolding numeric_quantile
  without_cost_outliers nan points =
      let values = sort not_above (map (λ (p : CostPoint N). p.value) points) in
      let q1 = numeric_quantile nan values 1 in
      let q3 = numeric_quantile nan values 3 in
      let padding = padding_of (n.sub q3 q1) q3 in
      if ltb (length points) 8
      then points
      else keep (not_outside (n.sub q1 padding) (n.add q3 padding)) points

  abbrev is_drawn : DisplayCostSeries N → Bool
  is_drawn item = ltb 0 (length item.line_points) || ltb 0 (length item.raw_points)

  abbrev line_points_of : DisplayMode → List (CostPoint N) → List (CostPoint N) → List (CostPoint N)
  line_points_of raw points medians = points
  line_points_of _ points medians = medians

  abbrev raw_points_of : DisplayMode → List (CostPoint N) → List (CostPoint N)
  raw_points_of trend_raw points = points
  raw_points_of _ points = []

  unfoldable pub display_cost_series : N → DisplayMode → Bool → CostSeries N → DisplayCostSeries N
  unfolding rolling_median_cost_points without_cost_outliers
  display_cost_series nan mode hide_outliers item =
      let points = if hide_outliers then without_cost_outliers nan item.points else item.points in
      record {
        series = item;
        line_points =
            line_points_of mode points
              (rolling_median_cost_points nan points rolling_median_points);
        raw_points = raw_points_of mode points;
      }

  unfoldable pub build_display_cost_series :
      N → List (CostSeries N) → DisplayMode → Bool → List (DisplayCostSeries N)
  unfolding display_cost_series
  build_display_cost_series nan series mode hide_outliers =
      keep is_drawn (map (display_cost_series nan mode hide_outliers) series)
