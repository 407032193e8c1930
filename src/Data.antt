-- ===== src/Data.antt =====
-- The data of the benchmark API, one record for each interface of frontend/src/api/bench.ts. `N` is
-- the type of JavaScript's numbers, and a property that may be missing is an `Option`. The proxy
-- handles the same data as JSON.
use perps_latency_benchmark.Prelude.{Bool, Option, List, Text}
use perps_latency_benchmark.Json.{Fields}

pub record HealthResponse : Type 0 where
  pub ok : Bool
  pub updated_at : Text

pub record SummaryRow (N : Type 0) : Type 0 where
  pub venue : Text
  pub transport : Text
  pub scenario : Text
  pub order_type : Text
  pub measurement_mode : Option Text
  pub batch_size : N
  pub batch_submission : Option Text
  pub count : N
  pub ok : N
  pub failed : N
  pub mean_ms : N
  pub p50_ms : N
  pub p95_ms : N
  pub p99_ms : N
  pub p999_ms : N
  pub raw_mean_ms : Option N
  pub raw_p50_ms : Option N
  pub raw_p95_ms : Option N
  pub raw_p99_ms : Option N
  pub raw_p999_ms : Option N
  pub network_floor_mean_ms : Option N
  pub network_floor_p50_ms : Option N
  pub network_floor_p95_ms : Option N
  pub network_floor_p99_ms : Option N
  pub network_floor_p999_ms : Option N
  pub network_adjusted_mean_ms : Option N
  pub network_adjusted_p50_ms : Option N
  pub network_adjusted_p95_ms : Option N
  pub network_adjusted_p99_ms : Option N
  pub network_adjusted_p999_ms : Option N
  pub speed_bump_ms : Option N
  pub speed_bump_source : Option Text
  pub submission_p50_ms : Option N
  pub submission_p95_ms : Option N
  pub submission_p99_ms : Option N
  pub submission_p999_ms : Option N
  pub cleanup_mean_ms : Option N
  pub cleanup_p50_ms : Option N
  pub cleanup_p95_ms : Option N
  pub cleanup_p99_ms : Option N
  pub cleanup_p999_ms : Option N
  pub network_adjusted_cleanup_mean_ms : Option N
  pub network_adjusted_cleanup_p50_ms : Option N
  pub network_adjusted_cleanup_p95_ms : Option N
  pub network_adjusted_cleanup_p99_ms : Option N
  pub network_adjusted_cleanup_p999_ms : Option N
  pub cleanup_ok : N
  pub cleanup_failed : N
  pub cost_count : Option N
  pub cost_mean_usd : Option N
  pub cost_total_usd : Option N

pub record LatestResponse (N : Type 0) : Type 0 where
  pub updated_at : Text
  pub window : Text
  pub summaries : List (SummaryRow N)

pub record CleanupResult (N : Type 0) : Type 0 where
  pub attempted : Option Bool
  pub ok : Bool
  pub status_code : Option N
  pub duration_ns : Option N
  pub prepared_ns : Option N
  pub scheduled_at : Option Text
  pub sent_at : Option Text
  pub start_delay_ns : Option N
  pub write_delay_ns : Option N
  pub bytes_read : Option N
  pub error : Option Text
  pub description : Option Text
  pub cleanup_confirmation : Option Text
  pub metadata : Option Fields

pub record SampleCost (N : Type 0) : Type 0 where
  pub venue : Text
  pub run_id : Option Text
  pub completed_at : Option Text
  pub entry_order_id : Option Text
  pub exit_order_id : Option Text
  pub entry_qty : Option N
  pub exit_qty : Option N
  pub entry_value_usd : Option N
  pub exit_value_usd : Option N
  pub entry_fee_usd : Option N
  pub exit_fee_usd : Option N
  pub price_move_cost_usd : Option N
  pub trade_cost_usd : Option N
  pub balance_before_usd : Option N
  pub balance_after_usd : Option N
  pub balance_delta_usd : Option N
  pub reconciliation_diff_usd : Option N
  pub clean : Bool
  pub quality_reason : Option Text

pub record OrderRef (N : Type 0) : Type 0 where
  pub venue : Option Text
  pub symbol : Option Text
  pub market : Option Text
  pub market_index : Option N
  pub side : Option Text
  pub size : Option Text
  pub asset : Option N
  pub client_order_id : Option Text
  pub client_order_index : Option Text
  pub order_index : Option Text
  pub external_id : Option Text
  pub cloid : Option Text

pub record ExpectedFill (N : Type 0) : Type 0 where
  pub phase : Option Text
  pub side : Option Text
  pub size : Option N
  pub expected_price : Option N
  pub top_bid : Option N
  pub top_ask : Option N
  pub top_bid_size : Option N
  pub top_ask_size : Option N
  pub top_available : Option N
  pub top_sufficient : Option Bool
  pub book_available : Option N
  pub book_sufficient : Option Bool
  pub book_levels : Option N
  pub depth_weighted : Option Bool
  pub book_age_ns : Option N
  pub book_received_at : Option Text
  pub book_exchange_at : Option Text

pub record Sample (N : Type 0) : Type 0 where
  pub venue : Text
  pub run_id : Option Text
  pub scenario : Text
  pub transport : Text
  pub order_type : Option Text
  pub index : Option N
  pub iteration : Option N
  pub warmup : Option Bool
  pub batch_size : N
  pub plot_at : Option Text
  pub scheduled_at : Option Text
  pub sent_at : Option Text
  pub prepared_ns : Option N
  pub network_ns : Option N
  pub confirm_ns : Option N
  pub raw_network_ns : Option N
  pub adjusted_network_ns : Option N
  pub network_floor_ns : Option N
  pub network_floor_source : Option Text
  pub speed_bump_ns : Option N
  pub speed_bump_source : Option Text
  pub submission_ns : Option N
  pub corrected_ns : Option N
  pub start_delay_ns : Option N
  pub status_code : Option N
  pub bytes_read : Option N
  pub ok : Bool
  pub error : Option Text
  pub cleanup : Option (CleanupResult N)
  pub cleanup_confirm_ns : Option N
  pub cleanup_account_feed : Option Bool
  pub cost : Option (SampleCost N)
  pub order_refs : Option (List (OrderRef N))
  pub closeout_order_refs : Option (List (OrderRef N))
  pub expected_entry_fill : Option (ExpectedFill N)
  pub expected_exit_fill : Option (ExpectedFill N)
  pub batch_submission : Option Text
  pub metadata : Option Fields
  pub measurement_mode : Option Text
  pub completed_at : Option Text

pub record SamplesResponse (N : Type 0) : Type 0 where
  pub samples : List (Sample N)

pub record ExchangeTpsRow (N : Type 0) : Type 0 where
  pub venue : Text
  pub bucket_start : Text
  pub bucket_seconds : N
  pub complete : Bool
  pub tx_count : N
  pub block_count : Option N
  pub order_count : Option N
  pub place_count : Option N
  pub cancel_count : Option N
  pub error_count : Option N
  pub tps : N
  pub orders_per_second : Option N
  pub source_quality : Text

pub record ExchangeTpsSource (N : Type 0) : Type 0 where
  pub venue : Text
  pub quality : Text
  pub bucket_seconds : N
  pub description : Text
  pub updated_at : N

pub record ExchangeTpsResponse (N : Type 0) : Type 0 where
  pub updated_at : Text
  pub bucket : Text
  pub window : Text
  pub series : List (ExchangeTpsRow N)
  pub sources : List (ExchangeTpsSource N)

pub record AdvancedAuthSession : Type 0 where
  pub authenticated : Bool
  pub enabled : Bool
