-- ===== src/CostPanel/Tables.antt =====
-- The bars and the tables of the panel (VenueCostBars, VenueCostTable and RecentCostTable in
-- frontend/src/components/dashboard/taker-cost-panel.tsx), as the texts of their cells. A venue stands for
-- the component that shows its name.
use perps_latency_benchmark.Prelude.{Bool, not, some, List, [], ◌∷◌, map, Text, txt}
use perps_latency_benchmark.Prelude.Sorting.{sort}
use perps_latency_benchmark.Numbers.{Numbers}
use perps_latency_benchmark.Format.{
  Formatters, format_usd, format_signed_usd, format_abs_bps, format_bps, format_price, format_count,
  format_date,
}
use perps_latency_benchmark.TakerCost.{TakerCostRecord}
use perps_latency_benchmark.TakerCost.Summary.{VenueSlippageSummary}
use perps_latency_benchmark.CostPanel.Domain.{Extent, cost_extent}

-- A bar: its venue, where it starts and how wide it is in percent, and its text.
pub record Bar (N : Type 0) : Type 0 where
  pub venue : Text
  pub left : N
  pub width : N
  pub text : Text

abbrev pub venue_cost_headers : List Text
venue_cost_headers =
    txt "Venue"
    ∷ txt "Runs"
    ∷ txt "Avg round"
    ∷ txt "Avg fill"
    ∷ txt "Fee / fill"
    ∷ txt "Price move"
    ∷ txt "Book miss p95"
    ∷ []

abbrev no_rows_text : List Text
no_rows_text = txt "No comparable cost data is available." ∷ []

abbrev rows_or_text : List (List Text) → List (List Text)
rows_or_text [] = no_rows_text ∷ []
rows_or_text (row ∷ rows) = row ∷ rows

abbrev pub recent_cost_headers : List Text
recent_cost_headers =
    txt "Time"
    ∷ txt "Venue"
    ∷ txt "Cost"
    ∷ txt "Open fill"
    ∷ txt "Open book"
    ∷ txt "Open dev"
    ∷ txt "Close fill"
    ∷ txt "Close book"
    ∷ txt "Close dev"
    ∷ txt "Fees"
    ∷ []

module _ {N : Type 0} ⦃n : Numbers N⦄ where
  -- `left.meanCostUSD - right.meanCostUSD`
  abbrev not_dearer : VenueSlippageSummary N → VenueSlippageSummary N → Bool
  not_dearer left right = not (n.lt right.mean_cost_usd left.mean_cost_usd)

  unfoldable pub ordered_rows : List (VenueSlippageSummary N) → List (VenueSlippageSummary N)
  ordered_rows rows = sort not_dearer rows

  -- `Math.max(extent.max - extent.min, 0.001)`
  abbrev bar_range : Extent N → N
  bar_range extent = n.max_of (n.sub extent.max extent.min) (n.div (n.of_ℕ 1) (n.of_ℕ 1000))

  -- `((value - extent.min) / range) * 100`
  abbrev percent_of : Extent N → N → N
  percent_of extent value = n.mul (n.div (n.sub value extent.min) (bar_range extent)) (n.of_ℕ 100)

  abbrev bar_of : Formatters N → Extent N → VenueSlippageSummary N → Bar N
  unfolding format_usd
  bar_of f extent row =
      let zero_percent = percent_of extent (n.of_ℕ 0) in
      let percent = percent_of extent row.mean_cost_usd in
      record {
        venue = row.venue;
        left = n.min_of zero_percent percent;
        width = n.max_of (n.abs (n.sub percent zero_percent)) (n.of_ℕ 2);
        text = format_usd f (some row.mean_cost_usd);
      }

  unfoldable pub venue_cost_bars : Formatters N → List (VenueSlippageSummary N) → List (Bar N)
  unfolding ordered_rows cost_extent format_usd
  venue_cost_bars f rows =
      let ordered = ordered_rows rows in
      let extent =
        cost_extent (map (λ (row : VenueSlippageSummary N). row.mean_cost_usd) ordered) in
      map (bar_of f extent) ordered

  abbrev venue_cost_cells : Formatters N → VenueSlippageSummary N → List Text
  unfolding format_usd format_signed_usd format_abs_bps format_count
  venue_cost_cells f row =
      row.venue
      ∷ format_count f (some (n.of_ℕ row.clean_count))
      ∷ format_usd f (some row.mean_cost_usd)
      ∷ format_usd f (some row.mean_fill_cost_usd)
      ∷ format_usd f (some row.fee_mean_per_fill_usd)
      ∷ format_signed_usd f (some row.price_move_mean_usd)
      ∷ format_abs_bps f row.total_slippage_p95_bps
      ∷ []

  -- The rows below the headers.
  unfoldable pub venue_cost_table : Formatters N → List (VenueSlippageSummary N) → List (List Text)
  unfolding ordered_rows format_usd format_signed_usd format_abs_bps format_count
  venue_cost_table f rows = rows_or_text (map (venue_cost_cells f) (ordered_rows rows))

  abbrev recent_cost_cells : Formatters N → TakerCostRecord N → List Text
  unfolding format_usd format_price format_bps format_date
  recent_cost_cells f record_of =
      format_date f (some record_of.date)
      ∷ record_of.venue
      ∷ format_usd f (some record_of.trade_cost_usd)
      ∷ format_price f record_of.entry_actual_price
      ∷ format_price f record_of.entry_expected_price
      ∷ format_bps f record_of.entry_slippage_bps
      ∷ format_price f record_of.exit_actual_price
      ∷ format_price f record_of.exit_expected_price
      ∷ format_bps f record_of.exit_slippage_bps
      ∷ format_usd f (some (n.add record_of.entry_fee_usd record_of.exit_fee_usd))
      ∷ []

  unfoldable pub recent_cost_table : Formatters N → List (TakerCostRecord N) → List (List Text)
  unfolding format_usd format_price format_bps format_date
  recent_cost_table f records = map (recent_cost_cells f) records
