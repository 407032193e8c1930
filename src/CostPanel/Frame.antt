-- ===== src/CostPanel/Frame.antt =====
-- What the chart of costs draws in a place of a size, and its tooltip (CostChartFrame, CostTooltip and
-- their helpers in frontend/src/components/dashboard/taker-cost-panel.tsx). `floor` is `Math.floor`, `iso`
-- is `toISOString` of a date and `text_of` is a number as a template writes it.
use perps_latency_benchmark.Prelude.{
  ℕ, Bool, true, false, not, ◌||◌, Option, none, some, List, [], ◌∷◌, ◌++◌, map, Text, txt, ◌==◌,
  if◌then◌else◌,
}
use perps_latency_benchmark.Prelude.{to_lower}
use perps_latency_benchmark.Numbers.{Numbers, positive, max_of_all, min_of_all}
use perps_latency_benchmark.Format.{Formatters, format_usd, format_signed_usd, format_count}
use perps_latency_benchmark.TakerCost.{TakerCostRecord}
use perps_latency_benchmark.CostPanel.{
  CostChartMode, fees, net, total, CostChartView, cumulative, CostPoint, DisplayCostSeries,
  net_trading_cost_usd, trading_fees_usd,
}
use perps_latency_benchmark.CostPanel.Domain.{padded_cost_domain}

-- A row of the tooltip; the primary one is what the chart shows.
pub record CostRow (N : Type 0) : Type 0 where
  pub label : Text
  pub primary : Bool
  pub value : N

-- The domains of the two scales.
pub record CostFrame (N : Type 0) : Type 0 where
  pub x_domain : N × N
  pub y_domain : N × N
  pub x_tick_count : N

abbrev same_mode : CostChartMode → CostChartMode → Bool
same_mode fees fees = true
same_mode net net = true
same_mode total total = true
same_mode _ _ = false

-- `row.mode === mode && view === "cumulative" ? `Cumulative ${row.label.toLowerCase()}` : row.label`
abbrev row_label : Bool → CostChartView → Text → Text
unfolding to_lower
row_label true cumulative label = txt "Cumulative " ++ to_lower label
row_label _ _ label = label

module _ {N : Type 0} ⦃n : Numbers N⦄ where
  unfoldable pub cost_point_key : (ℕ → Text) → (N → Text) → CostPoint N → Text
  cost_point_key iso text_of point =
      point.venue ++ (txt ":" ++ (iso point.date ++ (txt ":" ++ text_of point.value)))

  abbrev cost_row : CostChartMode → CostChartView → N → Text → CostChartMode → N → CostRow N
  unfolding to_lower
  cost_row mode view primary_value label row_mode value = record {
    label = row_label (same_mode row_mode mode) view label;
    primary = same_mode row_mode mode;
    value = if same_mode row_mode mode then primary_value else value;
  }

  unfoldable pub tooltip_rows :
      TakerCostRecord N → CostChartMode → CostChartView → N → List (CostRow N)
  unfolding to_lower net_trading_cost_usd trading_fees_usd
  tooltip_rows r mode view primary_value =
      cost_row mode view primary_value (txt "Total cost") total r.trade_cost_usd
      ∷ cost_row mode view primary_value (txt "Net trading cost") net (net_trading_cost_usd r)
      ∷ cost_row mode view primary_value (txt "Trading fees") fees (trading_fees_usd r)
      ∷ []

  abbrev window_cells : Formatters N → Option ℕ → List (Text × Text)
  unfolding format_count
  window_cells f none = []
  window_cells f (some count) =
      if count == 0
      then []
      else (txt "Window", format_count f (some (n.of_ℕ count)) ++ txt " rounds") ∷ []

  -- The labels and values of the tooltip.
  unfoldable pub cost_tooltip :
      Formatters N → CostPoint N → CostChartMode → CostChartView → List (Text × Text)
  unfolding tooltip_rows format_usd format_signed_usd format_count
  cost_tooltip f hover mode view =
      let r = hover.record_of in
      map (λ (row : CostRow N). (row.label, format_usd f (some row.value)))
        (tooltip_rows r mode view hover.value)
      ++ (window_cells f hover.sample_count
          ++ ((txt "Open fee", format_usd f (some r.entry_fee_usd))
              ∷ (txt "Close fee", format_usd f (some r.exit_fee_usd))
              ∷ (txt "Price move", format_signed_usd f (some r.price_move_cost_usd))
              ∷ (txt "Book deviation", format_signed_usd f r.total_slippage_usd)
              ∷ []))

  -- All points that are drawn.
  abbrev pub drawn_cost_points : List (DisplayCostSeries N) → List (CostPoint N)
  drawn_cost_points [] = []
  drawn_cost_points (item ∷ series) =
      item.line_points ++ (item.raw_points ++ drawn_cost_points series)

  abbrev pub cost_time : CostPoint N → N
  cost_time point = n.of_ℕ point.date

  abbrev pub cost_of : CostPoint N → N
  cost_of point = point.value

  -- `CHART_MARGIN` is { top: 16, right: 18, bottom: 32, left: 58 }.
  abbrev pub cost_inner_width : N → N
  cost_inner_width width = n.max_of (n.sub (n.sub width (n.of_ℕ 58)) (n.of_ℕ 18)) (n.of_ℕ 1)

  abbrev x_padding : N → N → N
  x_padding min_time max_time = n.of_ℕ (if n.same min_time max_time then 60_000 else 0)

  -- The frame of the first point and the others.
  abbrev frame_of : (N → N) → CostPoint N → List (CostPoint N) → N → CostFrame N
  unfolding padded_cost_domain
  frame_of floor first points width =
      let min_time = min_of_all (map cost_time points) (cost_time first) in
      let max_time = max_of_all (map cost_time points) (cost_time first) in
      record {
        x_domain = (
          n.sub min_time (x_padding min_time max_time),
          n.add max_time (x_padding min_time max_time),
        );
        y_domain = padded_cost_domain (map cost_of (first ∷ points));
        x_tick_count =
            n.max_of (n.of_ℕ 2)
              (n.min_of (n.of_ℕ 5) (floor (n.div (cost_inner_width width) (n.of_ℕ 150))));
      }

  abbrev frame_of_points : (N → N) → List (CostPoint N) → N → Option (CostFrame N)
  unfolding padded_cost_domain
  frame_of_points floor [] width = none
  frame_of_points floor (first ∷ points) width = some (frame_of floor first points width)

  -- Nothing is drawn without a place or a series; a series that is drawn has a point.
  unfoldable pub cost_frame : (N → N) → List (DisplayCostSeries N) → N → N → Option (CostFrame N)
  unfolding padded_cost_domain
  cost_frame floor series width height =
      if not (positive width) || not (positive height)
      then none
      else frame_of_points floor (drawn_cost_points series) width
