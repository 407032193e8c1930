-- ===== src/CostPanel/Export.antt =====
-- The rows of the two exports of the panel (frontend/src/components/dashboard/taker-cost-panel.tsx). `iso`
-- is `toISOString` of a date, and `of_ℕ` makes a number of a count.
use perps_latency_benchmark.Prelude.{ℕ, Option, none, some, List, [], ◌∷◌, map, Text, txt}
use perps_latency_benchmark.Csv.Download.{CsvColumn, CsvValue, missing, string, number}
use perps_latency_benchmark.Numbers.{Numbers}
use perps_latency_benchmark.TakerCost.{TakerCostRecord}
use perps_latency_benchmark.TakerCost.Summary.{VenueSlippageSummary}
use perps_latency_benchmark.CostPanel.{net_trading_cost_usd, trading_fees_usd}

pub record TakerCostExportRow (N : Type 0) : Type 0 where
  pub actual_cost_gap_usd : Option N
  pub balance_diff_usd : Option N
  pub completed_at : Option Text
  pub entry_actual_price : Option N
  pub entry_expected_price : Option N
  pub entry_fee_usd : N
  pub entry_qty : Option N
  pub entry_slippage_bps : Option N
  pub entry_slippage_usd : Option N
  pub exit_actual_price : Option N
  pub exit_expected_price : Option N
  pub exit_fee_usd : N
  pub exit_qty : Option N
  pub exit_slippage_bps : Option N
  pub exit_slippage_usd : Option N
  pub expected_round_trip_cost_usd : Option N
  pub net_trading_cost_usd : N
  pub plot_at : ℕ
  pub price_move_cost_usd : N
  pub total_fees_usd : N
  pub total_slippage_bps : Option N
  pub total_slippage_usd : Option N
  pub trade_cost_usd : N
  pub venue : Text

module _ {N : Type 0} where
  abbrev text_or_missing : Option Text → CsvValue N
  text_or_missing none = missing
  text_or_missing (some t) = string t

  abbrev number_or_missing : Option N → CsvValue N
  number_or_missing none = missing
  number_or_missing (some x) = number x

  unfoldable pub taker_cost_export_columns : (ℕ → Text) → List (CsvColumn N (TakerCostExportRow N))
  taker_cost_export_columns iso =
      record {
        header = txt "plot_at";
        value = λ (row : TakerCostExportRow N). CsvValue.date (iso row.plot_at);
      }
      ∷ record {
        header = txt "completed_at";
        value = λ (row : TakerCostExportRow N). text_or_missing row.completed_at;
      }
      ∷ record { header = txt "venue"; value = λ (row : TakerCostExportRow N). string row.venue }
      ∷ record {
        header = txt "trade_cost_usd";
        value = λ (row : TakerCostExportRow N). number row.trade_cost_usd;
      }
      ∷ record {
        header = txt "net_trading_cost_usd";
        value = λ (row : TakerCostExportRow N). number row.net_trading_cost_usd;
      }
      ∷ record {
        header = txt "total_fees_usd";
        value = λ (row : TakerCostExportRow N). number row.total_fees_usd;
      }
      ∷ record {
        header = txt "entry_fee_usd";
        value = λ (row : TakerCostExportRow N). number row.entry_fee_usd;
      }
      ∷ record {
        header = txt "exit_fee_usd";
        value = λ (row : TakerCostExportRow N). number row.exit_fee_usd;
      }
      ∷ record {
        header = txt "price_move_cost_usd";
        value = λ (row : TakerCostExportRow N). number row.price_move_cost_usd;
      }
      ∷ record {
        header = txt "total_slippage_usd";
        value = λ (row : TakerCostExportRow N). number_or_missing row.total_slippage_usd;
      }
      ∷ record {
        header = txt "total_slippage_bps";
        value = λ (row : TakerCostExportRow N). number_or_missing row.total_slippage_bps;
      }
      ∷ record {
        header = txt "entry_slippage_usd";
        value = λ (row : TakerCostExportRow N). number_or_missing row.entry_slippage_usd;
      }
      ∷ record {
        header = txt "entry_slippage_bps";
        value = λ (row : TakerCostExportRow N). number_or_missing row.entry_slippage_bps;
      }
      ∷ record {
        header = txt "exit_slippage_usd";
        value = λ (row : TakerCostExportRow N). number_or_missing row.exit_slippage_usd;
      }
      ∷ record {
        header = txt "exit_slippage_bps";
        value = λ (row : TakerCostExportRow N). number_or_missing row.exit_slippage_bps;
      }
      ∷ record {
        header = txt "entry_actual_price";
        value = λ (row : TakerCostExportRow N). number_or_missing row.entry_actual_price;
      }
      ∷ record {
        header = txt "entry_expected_price";
        value = λ (row : TakerCostExportRow N). number_or_missing row.entry_expected_price;
      }
      ∷ record {
        header = txt "exit_actual_price";
        value = λ (row : TakerCostExportRow N). number_or_missing row.exit_actual_price;
      }
      ∷ record {
        header = txt "exit_expected_price";
        value = λ (row : TakerCostExportRow N). number_or_missing row.exit_expected_price;
      }
      ∷ record {
        header = txt "expected_round_trip_cost_usd";
        value = λ (row : TakerCostExportRow N). number_or_missing row.expected_round_trip_cost_usd;
      }
      ∷ record {
        header = txt "actual_cost_gap_usd";
        value = λ (row : TakerCostExportRow N). number_or_missing row.actual_cost_gap_usd;
      }
      ∷ record {
        header = txt "balance_diff_usd";
        value = λ (row : TakerCostExportRow N). number_or_missing row.balance_diff_usd;
      }
      ∷ record {
        header = txt "entry_qty";
        value = λ (row : TakerCostExportRow N). number_or_missing row.entry_qty;
      }
      ∷ record {
        header = txt "exit_qty";
        value = λ (row : TakerCostExportRow N). number_or_missing row.exit_qty;
      }
      ∷ []

module _ {N : Type 0} ⦃n : Numbers N⦄ where
  unfoldable pub venue_cost_export_columns : List (CsvColumn N (VenueSlippageSummary N))
  venue_cost_export_columns =
      record { header = txt "venue"; value = λ (row : VenueSlippageSummary N). string row.venue }
      ∷ record {
        header = txt "sample_count";
        value = λ (row : VenueSlippageSummary N). number (n.of_ℕ row.sample_count);
      }
      ∷ record {
        header = txt "mean_cost_usd";
        value = λ (row : VenueSlippageSummary N). number row.mean_cost_usd;
      }
      ∷ record {
        header = txt "mean_fill_cost_usd";
        value = λ (row : VenueSlippageSummary N). number row.mean_fill_cost_usd;
      }
      ∷ record {
        header = txt "total_cost_usd";
        value = λ (row : VenueSlippageSummary N). number row.total_cost_usd;
      }
      ∷ record {
        header = txt "fee_mean_per_fill_usd";
        value = λ (row : VenueSlippageSummary N). number row.fee_mean_per_fill_usd;
      }
      ∷ record {
        header = txt "price_move_mean_usd";
        value = λ (row : VenueSlippageSummary N). number row.price_move_mean_usd;
      }
      ∷ record {
        header = txt "entry_mean_bps";
        value = λ (row : VenueSlippageSummary N). number_or_missing row.entry_mean_bps;
      }
      ∷ record {
        header = txt "exit_mean_bps";
        value = λ (row : VenueSlippageSummary N). number_or_missing row.exit_mean_bps;
      }
      ∷ record {
        header = txt "total_slippage_mean_bps";
        value = λ (row : VenueSlippageSummary N). number_or_missing row.total_slippage_mean_bps;
      }
      ∷ record {
        header = txt "total_slippage_p95_bps";
        value = λ (row : VenueSlippageSummary N). number_or_missing row.total_slippage_p95_bps;
      }
      ∷ record {
        header = txt "cost_gap_mean_usd";
        value = λ (row : VenueSlippageSummary N). number_or_missing row.cost_gap_mean_usd;
      }
      ∷ []

  unfoldable pub export_row_of : TakerCostRecord N → TakerCostExportRow N
  unfolding net_trading_cost_usd trading_fees_usd
  export_row_of r = record {
    actual_cost_gap_usd = r.actual_cost_gap_usd;
    balance_diff_usd = r.balance_diff_usd;
    completed_at = r.sample.completed_at;
    entry_actual_price = r.entry_actual_price;
    entry_expected_price = r.entry_expected_price;
    entry_fee_usd = r.entry_fee_usd;
    entry_qty = r.cost.entry_qty;
    entry_slippage_bps = r.entry_slippage_bps;
    entry_slippage_usd = r.entry_slippage_usd;
    exit_actual_price = r.exit_actual_price;
    exit_expected_price = r.exit_expected_price;
    exit_fee_usd = r.exit_fee_usd;
    exit_qty = r.cost.exit_qty;
    exit_slippage_bps = r.exit_slippage_bps;
    exit_slippage_usd = r.exit_slippage_usd;
    expected_round_trip_cost_usd = r.expected_round_trip_cost_usd;
    net_trading_cost_usd = net_trading_cost_usd r;
    plot_at = r.date;
    price_move_cost_usd = r.price_move_cost_usd;
    total_fees_usd = trading_fees_usd r;
    total_slippage_bps = r.total_slippage_bps;
    total_slippage_usd = r.total_slippage_usd;
    trade_cost_usd = r.trade_cost_usd;
    venue = r.venue;
  }

  unfoldable pub taker_cost_export_rows : List (TakerCostRecord N) → List (TakerCostExportRow N)
  unfolding export_row_of
  taker_cost_export_rows records = map export_row_of records
