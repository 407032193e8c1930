-- ===== src/CostPanel/Panel.antt =====
-- The panel of taker costs as a whole (TakerCostPanel, CostChart and their helpers in
-- frontend/src/components/dashboard/taker-cost-panel.tsx): its hooks, its figures, and the rows that its
-- exports load. `show_qty` is the number format of formatQty.
use perps_latency_benchmark.Prelude.{
  ℕ, zero, suc, ◌/◌, Bool, true, false, not, ◌&&◌, ◌||◌, Option, none, some, List, [], ◌∷◌, ◌++◌,
  map, length, get_elem?, keep, Text, txt, if◌then◌else◌, value_or,
}
use mathlib.Core.Option
use mathlib.Core.List.{reverse}
use perps_latency_benchmark.Prelude.Sorting.{sort}
use perps_latency_benchmark.Data.{Sample}
use perps_latency_benchmark.Numbers.{Numbers, nought, positive}
use perps_latency_benchmark.Format.{Formatters, format_usd}
use perps_latency_benchmark.Chart.{DisplayMode, raw, trend_raw, not_above}
use perps_latency_benchmark.Dashboard.Stats.{item_of}
use perps_latency_benchmark.Dashboard.Stats
use perps_latency_benchmark.TakerCost.{TakerCostRecord, build_taker_cost_records}
use perps_latency_benchmark.TakerCost.Window.{stable_cost_window}
use perps_latency_benchmark.TakerCost.Summary.{VenueSlippageSummary, summarize_slippage}
use perps_latency_benchmark.CostPanel.{
  CostChartMode, fees, net, total, CostChartView, cumulative, round, DisplayCostSeries,
  build_cost_series, build_display_cost_series,
}
use perps_latency_benchmark.CostPanel.Export.{TakerCostExportRow, taker_cost_export_rows}

pub record ChartCopy : Type 0 where
  pub description : Text
  pub title : Text

-- `COST_MODE_COPY`
abbrev cost_mode_copy : CostChartMode → ChartCopy
cost_mode_copy fees = record {
  description = txt "Explicit trading fees paid on the open and close orders.";
  title = txt "Fees per Round";
}
cost_mode_copy net = record {
  description =
      txt
        "Round-trip cost after removing explicit trading fees, showing spread, slippage, and price movement.";
  title = txt "Net Trading Cost per Round";
}
cost_mode_copy total = record {
  description = txt "Full round-trip cost for one open and close sequence, including trading fees.";
  title = txt "Cost per Round";
}

unfoldable pub cost_chart_copy : CostChartMode → CostChartView → ChartCopy
cost_chart_copy mode round = cost_mode_copy mode
cost_chart_copy fees cumulative = record {
  description =
      txt "Running total of explicit trading fees paid on open and close orders by venue.";
  title = txt "Cumulative Fees";
}
cost_chart_copy net cumulative = record {
  description = txt "Running total of round-trip cost after removing explicit trading fees.";
  title = txt "Cumulative Net Trading Cost";
}
cost_chart_copy total cumulative = record {
  description = txt "Running total of full round-trip cost by venue, including trading fees.";
  title = txt "Cumulative Cost";
}

-- The hooks of the panel and of its chart.
pub record CostControls : Type 0 where
  pub chart_mode : CostChartMode
  pub display_mode : DisplayMode
  pub hide_outliers : Bool
  pub view : CostChartView

abbrev pub initial_controls : CostControls
initial_controls = record {
  chart_mode = total;
  display_mode = trend_raw;
  hide_outliers = true;
  view = round;
}

-- The running totals are drawn as they are: `view === "cumulative" ? "raw" : displayMode`.
abbrev pub drawn_mode : CostChartView → DisplayMode → DisplayMode
drawn_mode cumulative mode = raw
drawn_mode round mode = mode

abbrev pub drawn_hide_outliers : CostChartView → Bool → Bool
drawn_hide_outliers cumulative hide = false
drawn_hide_outliers round hide = hide

-- The first twelve of `[...stable.records].reverse()`.
abbrev first_items : {T : Type 0} → ℕ → List T → List T
first_items zero items = []
first_items (suc count) [] = []
first_items (suc count) (item ∷ items) = item ∷ first_items count items

-- What the panel shows: the three figures on top, each with the venue below it, and the recent rounds.
pub record PanelFigures (N : Type 0) : Type 0 where
  pub benchmark_size : Text
  pub cheapest : Text
  pub cheapest_venue : Option Text
  pub most_expensive : Text
  pub most_expensive_venue : Option Text
  pub recent : List (TakerCostRecord N)

module _ {N : Type 0} ⦃n : Numbers N⦄ where
  module _ {T : Type 0} (score : T → N) where
    unfoldable pub min_by : List T → Option T
    unfolding Stats.min_by
    min_by items = Stats.min_by score items

    -- `best` and `bestScore`: every finite score is above the first one, -Infinity.
    abbrev is_higher : Option (T × N) → N → Bool
    is_higher none value = n.is_finite value
    is_higher (some (best, best_score)) value = n.is_finite value && n.lt best_score value

    abbrev max_from : Option (T × N) → List T → Option (T × N)
    max_from best [] = best
    max_from best (item ∷ items) =
        let taken = max_from (some (item, score item)) items in
        let passed = max_from best items in if is_higher best (score item) then taken else passed

    unfoldable pub max_by : List T → Option T
    max_by items = item_of (max_from none items)

  unfoldable pub median : List N → Option N
  median values = get_elem? (sort not_above values) (length values / 2)

  -- `if (!qty)`: a quantity that is missing, 0 or NaN.
  abbrev is_no_quantity : N → Bool
  is_no_quantity qty = n.same qty nought || not (n.same qty qty)

  abbrev benchmark_text : (N → Text) → Option N → Text
  benchmark_text show_qty none = txt "-"
  benchmark_text show_qty (some qty) =
      if is_no_quantity qty then txt "-" else show_qty qty ++ txt " BTC"

  unfoldable pub format_benchmark_size : (N → Text) → List (TakerCostRecord N) → Text
  unfolding median
  format_benchmark_size show_qty records = benchmark_text show_qty (
      median (
        keep (λ value. positive value)
          (map (λ (r : TakerCostRecord N). value_or r.cost.entry_qty nought) records)))

  unfoldable pub recent_records : List (TakerCostRecord N) → List (TakerCostRecord N)
  recent_records records = first_items 12 (reverse records)

  abbrev mean_of : VenueSlippageSummary N → N
  mean_of row = row.mean_cost_usd

  abbrev venue_of : VenueSlippageSummary N → Text
  venue_of row = row.venue

  unfoldable pub panel_figures :
      Formatters N
      → (N → Text)
      → List (TakerCostRecord N)
      → List (VenueSlippageSummary N)
      → PanelFigures N
  unfolding format_usd min_by max_by format_benchmark_size recent_records
  panel_figures f show_qty stable slippage = record {
    benchmark_size = format_benchmark_size show_qty stable;
    cheapest = format_usd f (Option.map mean_of (min_by mean_of slippage));
    cheapest_venue = Option.map venue_of (min_by mean_of slippage);
    most_expensive = format_usd f (Option.map mean_of (max_by mean_of slippage));
    most_expensive_venue = Option.map venue_of (max_by mean_of slippage);
    recent = recent_records stable;
  }

  module _ (parse_date : Text → Option ℕ) (collate : Text → Text → Bool) where
    -- The stable records of the samples; the panel says that there are none where there are no records.
    unfoldable pub stable_records : List (Sample N) → List (TakerCostRecord N)
    unfolding build_taker_cost_records stable_cost_window
    stable_records samples =
        let stable = stable_cost_window collate (build_taker_cost_records parse_date samples) in
        stable.records

    -- What the two exports load of the samples of a window.
    unfoldable pub load_round_rows : List (Sample N) → List (TakerCostExportRow N)
    unfolding stable_records taker_cost_export_rows
    load_round_rows samples = taker_cost_export_rows (stable_records samples)

    unfoldable pub load_venue_rows : List (Sample N) → List (VenueSlippageSummary N)
    unfolding stable_records summarize_slippage
    load_venue_rows samples = summarize_slippage (stable_records samples)

    -- The series that the chart draws.
    unfoldable pub drawn_series : N → CostControls → List (Sample N) → List (DisplayCostSeries N)
    unfolding stable_records build_cost_series build_display_cost_series
    drawn_series nan controls samples =
        build_display_cost_series nan
          (build_cost_series collate (stable_records samples) controls.chart_mode controls.view)
          (drawn_mode controls.view controls.display_mode)
          (drawn_hide_outliers controls.view controls.hide_outliers)
