-- ===== src/TakerCost.antt =====
-- The costs of taker orders (frontend/src/lib/taker-cost.ts): one record for each sample, and their
-- order in time. Dates are in milliseconds from 1970 on.
pub mod Order
pub mod Series
pub mod Groups
pub mod Window
pub mod Summary
use perps_latency_benchmark.Prelude.{
  ℕ, Bool, true, false, not, ◌&&◌, ◌||◌, leb, Option, none, some, List, [], ◌∷◌, Text, txt, ◌===◌,
  to_lower, is_blank, value_or, includes_text, if◌then◌else◌,
}
use perps_latency_benchmark.Prelude.Sorting.{sort}
use perps_latency_benchmark.Data.{Sample, SampleCost, ExpectedFill}
use perps_latency_benchmark.Numbers.{Numbers, nought, positive}
use perps_latency_benchmark.SampleTime.{sample_plot_date}

pub record TakerCostRecord (N : Type 0) : Type 0 where
  pub actual_cost_gap_usd : Option N
  pub balance_diff_usd : Option N
  pub clean : Bool
  pub cost : SampleCost N
  pub date : ℕ
  pub entry_actual_price : Option N
  pub entry_expected_price : Option N
  pub entry_fee_usd : N
  pub entry_slippage_bps : Option N
  pub entry_slippage_usd : Option N
  pub exit_actual_price : Option N
  pub exit_expected_price : Option N
  pub exit_fee_usd : N
  pub exit_slippage_bps : Option N
  pub exit_slippage_usd : Option N
  pub expected_round_trip_cost_usd : Option N
  pub price_move_cost_usd : N
  pub quality_reason : Option Text
  pub sample : Sample N
  pub total_slippage_bps : Option N
  pub total_slippage_usd : Option N
  pub trade_cost_usd : N
  pub venue : Text

-- `value && value.length > 0 ? value : "unknown"`, in lower case.
abbrev normalized_order : Option Text → Text
normalized_order none = txt "unknown"
normalized_order (some value) = if is_blank value then txt "unknown" else to_lower value

unfoldable pub is_taker_order : Option Text → Bool
unfolding includes_text ◌===◌ to_lower
is_taker_order value =
    includes_text
      (txt "market" ∷ txt "ioc" ∷ txt "immediate_or_cancel" ∷ txt "fok" ∷ txt "fill_or_kill" ∷ [])
      (normalized_order value)

-- A value of two values where both are there.
abbrev pub with_two : {A B C : Type 0} → Option A → Option B → (A → B → Option C) → Option C
with_two (some a) (some b) f = f a b
with_two _ _ f = none

-- `book_sufficient === false`, or none and `top_sufficient === false`.
abbrev is_insufficient : Option Bool → Option Bool → Bool
is_insufficient (some book) top = not book
is_insufficient none top = not (value_or top true)

module _ {N : Type 0} ⦃n : Numbers N⦄ where
  -- `fill.expected_price <= 0` is false of NaN.
  abbrev not_above_nought : N → Bool
  not_above_nought x = n.lt x nought || n.same x nought

  unfoldable pub average_price : Option N → Option N → Option N
  average_price value_usd qty = with_two value_usd qty λ v q.
      if n.is_finite v && n.is_finite q && not (not_above_nought q) then some (n.div v q) else none

  abbrev usable_price : ExpectedFill N → Option N → Option N
  usable_price fill none = none
  usable_price fill (some price) =
      if not_above_nought price || is_insufficient fill.book_sufficient fill.top_sufficient
      then none
      else some price

  unfoldable pub usable_expected_price : Option (ExpectedFill N) → Option N
  usable_expected_price none = none
  usable_expected_price (some fill) = usable_price fill fill.expected_price

  abbrev side_of : Option (ExpectedFill N) → Text
  side_of none = txt "buy"
  side_of (some fill) = to_lower (value_or fill.side (txt "buy"))

  abbrev pub is_sell : Option (ExpectedFill N) → Bool
  is_sell fill = side_of fill === txt "sell"

  -- How much worse than expected a price is for the side of the fill.
  abbrev adverse_move : Option (ExpectedFill N) → N → N → N
  adverse_move fill expected actual =
      if is_sell fill then n.sub expected actual else n.sub actual expected

  unfoldable pub fill_slippage_bps : Option (ExpectedFill N) → Option N → Option N
  unfolding usable_expected_price
  fill_slippage_bps fill actual_price =
      with_two actual_price (usable_expected_price fill) λ actual expected.
        if not_above_nought expected
        then none
        else some (n.mul (n.div (adverse_move fill expected actual) expected) (n.of_ℕ 10_000))

  unfoldable pub fill_slippage_usd : Option (ExpectedFill N) → Option N → Option N → Option N
  unfolding usable_expected_price
  fill_slippage_usd fill actual_price qty =
      with_two (with_two actual_price qty λ a q. some (a, q)) (usable_expected_price fill)
        λ (actual, q) expected.
          if n.is_finite q then some (n.mul (adverse_move fill expected actual) q) else none

  unfoldable pub expected_leg_cost : Option (ExpectedFill N) → N → N → N
  expected_leg_cost fill expected_price qty =
      if is_sell fill then n.mul (n.neg expected_price) qty else n.mul expected_price qty

  abbrev expected_round_trip : Sample N → SampleCost N → Option N → Option N → Option N
  expected_round_trip sample cost entry exit = with_two entry exit λ entry_price exit_price.
      with_two cost.entry_qty cost.exit_qty λ entry_qty exit_qty. some (
        n.add
          (n.add
            (n.add (expected_leg_cost sample.expected_entry_fill entry_price entry_qty)
              (expected_leg_cost sample.expected_exit_fill exit_price exit_qty))
            (value_or cost.entry_fee_usd nought))
          (value_or cost.exit_fee_usd nought))

  abbrev slippage_bps_of : Option N → Option N → SampleCost N → Option N
  slippage_bps_of entry exit cost = with_two entry exit λ e x.
      with_two cost.entry_value_usd cost.exit_value_usd λ ev xv. some (
        n.mul (n.div (n.add e x) (n.max_of (n.div (n.add ev xv) (n.of_ℕ 2)) (n.of_ℕ 1)))
          (n.of_ℕ 10_000))

  -- The record of a taker's sample that has a cost and a date.
  unfoldable pub taker_cost_record_of : Sample N → SampleCost N → ℕ → TakerCostRecord N
  taker_cost_record_of sample cost date =
      let entry_actual = average_price cost.entry_value_usd cost.entry_qty in
      let exit_actual = average_price cost.exit_value_usd cost.exit_qty in
      let entry_expected = usable_expected_price sample.expected_entry_fill in
      let exit_expected = usable_expected_price sample.expected_exit_fill in
      let entry_usd = fill_slippage_usd sample.expected_entry_fill entry_actual cost.entry_qty in
      let exit_usd = fill_slippage_usd sample.expected_exit_fill exit_actual cost.exit_qty in
      let round_trip = expected_round_trip sample cost entry_expected exit_expected in
      record {
        actual_cost_gap_usd = with_two round_trip cost.trade_cost_usd λ r t. some (n.sub t r);
        balance_diff_usd = cost.reconciliation_diff_usd;
        clean = cost.clean;
        cost = cost;
        date = date;
        entry_actual_price = entry_actual;
        entry_expected_price = entry_expected;
        entry_fee_usd = value_or cost.entry_fee_usd nought;
        entry_slippage_bps = fill_slippage_bps sample.expected_entry_fill entry_actual;
        entry_slippage_usd = entry_usd;
        exit_actual_price = exit_actual;
        exit_expected_price = exit_expected;
        exit_fee_usd = value_or cost.exit_fee_usd nought;
        exit_slippage_bps = fill_slippage_bps sample.expected_exit_fill exit_actual;
        exit_slippage_usd = exit_usd;
        expected_round_trip_cost_usd = round_trip;
        price_move_cost_usd = value_or cost.price_move_cost_usd nought;
        quality_reason = cost.quality_reason;
        sample = sample;
        total_slippage_bps = slippage_bps_of entry_usd exit_usd cost;
        total_slippage_usd = with_two entry_usd exit_usd λ e x. some (n.add e x);
        trade_cost_usd = value_or cost.trade_cost_usd nought;
        venue = sample.venue;
      }

  abbrev pub not_after : TakerCostRecord N → TakerCostRecord N → Bool
  not_after left right = leb left.date right.date

  module _ (parse_date : Text → Option ℕ) where
    -- `null` is `none`.
    unfoldable pub to_taker_cost_record : Sample N → Option (TakerCostRecord N)
    unfolding taker_cost_record_of
    to_taker_cost_record sample =
        if not (is_taker_order sample.order_type) || value_or sample.warmup false
        then none
        else with_two sample.cost (sample_plot_date parse_date sample)
            λ cost date. some (taker_cost_record_of sample cost date)

    abbrev pub records_of : List (Sample N) → List (TakerCostRecord N)
    records_of [] = []
    records_of (sample ∷ samples) =
        let rest = records_of samples in
        elim (to_taker_cost_record sample) [ none ↦ rest | some r ↦ r ∷ rest ]

    unfoldable pub build_taker_cost_records : List (Sample N) → List (TakerCostRecord N)
    build_taker_cost_records samples = sort not_after (records_of samples)
