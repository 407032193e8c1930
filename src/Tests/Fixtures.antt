-- ===== src/Tests/Fixtures.antt =====
-- The values that the tests share: a configured server, a platform that answers every path, rows of
-- two venues, a sample and a summary.
use perps_latency_benchmark.Prelude.{Option, none, some, Text, txt, ◌===◌, if◌then◌else◌, true}
use perps_latency_benchmark.Json.{Json, obj, arr, str, num, cons, nil, field, end}
use perps_latency_benchmark.Http.{Env}
use perps_latency_benchmark.Data.{Sample, SummaryRow, SampleCost, ExchangeTpsRow}
use perps_latency_benchmark.Numbers.Integers.{ℤ, pos}
use perps_latency_benchmark.Proxy.Fetch.{Platform, answered}

abbrev pub env : Env
env = record {
  binding = λ name.
      if name === txt "PERPS_BENCH_ADVANCED_PASSWORD"
      then some (txt " hunter2 ")
      else if name === txt "PERPS_BENCH_AUTH_SECRET"
      then some (txt "key")
      else if name === txt "PERPS_BENCH_API_URL"
      then some (txt "http://api/")
      else if name === txt "PERPS_BENCH_HIDDEN_VENUES"
      then some (txt "Ghost, ")
      else none;
  process = λ name. none;
}

abbrev pub row_of : Text → Json
row_of venue = obj (field (txt "venue") (str venue) (field (txt "noise") (num (txt "1")) end))

-- Rows of a shown venue and of a hidden one, under `key`.
abbrev pub rows_under : Text → Json
rows_under key =
    obj (field key (arr (cons (row_of (txt "alpha")) (cons (row_of (txt "GHOST")) nil))) end)

-- The benchmark API answers every path with samples.
abbrev pub platform : Platform
platform = record {
  fetch = λ url authorization. answered 200 (some (rows_under (txt "samples")));
  base64 = λ t. t;
  invalid_json = txt "invalid";
}

abbrev pub login_body : Text → Option Json
login_body password = some (obj (field (txt "password") (str password) end))

abbrev pub cost : SampleCost ℤ
cost = record {
  venue = txt "venue";
  run_id = none;
  completed_at = none;
  entry_order_id = none;
  exit_order_id = none;
  entry_qty = some (pos 2);
  exit_qty = some (pos 2);
  entry_value_usd = some (pos 204);
  exit_value_usd = some (pos 196);
  entry_fee_usd = none;
  exit_fee_usd = none;
  price_move_cost_usd = none;
  trade_cost_usd = some (pos 9);
  balance_before_usd = none;
  balance_after_usd = none;
  balance_delta_usd = none;
  reconciliation_diff_usd = none;
  clean = true;
  quality_reason = none;
}

-- A taker's sample of a cancellation, with an empty plot time.
abbrev pub sample : Sample ℤ
sample = record {
  venue = txt "Extended";
  run_id = none;
  scenario = txt "scenario";
  transport = txt "transport";
  order_type = some (txt "IOC");
  index = none;
  iteration = none;
  warmup = none;
  batch_size = pos 1;
  plot_at = some (txt "");
  scheduled_at = none;
  sent_at = some (txt "0001-01-01T00:00:00Z");
  prepared_ns = none;
  network_ns = some (pos 9_000_000);
  confirm_ns = some (pos 7_000_000);
  raw_network_ns = none;
  adjusted_network_ns = some (pos 6_000_000);
  network_floor_ns = some (pos 2_000_000);
  network_floor_source = none;
  speed_bump_ns = some (pos 3_000_000);
  speed_bump_source = none;
  submission_ns = none;
  corrected_ns = none;
  start_delay_ns = none;
  status_code = none;
  bytes_read = none;
  ok = true;
  error = none;
  cleanup = none;
  cleanup_confirm_ns = some (pos 5_000_000);
  cleanup_account_feed = some true;
  cost = some cost;
  order_refs = none;
  closeout_order_refs = none;
  expected_entry_fill = none;
  expected_exit_fill = none;
  batch_submission = none;
  metadata = none;
  measurement_mode = none;
  completed_at = some (txt "later");
}

abbrev pub summary : SummaryRow ℤ
summary = record {
  venue = txt "alpha";
  transport = txt "transport";
  scenario = txt "scenario";
  order_type = txt "order_type";
  measurement_mode = none;
  batch_size = pos 1;
  batch_submission = none;
  count = pos 1;
  ok = pos 1;
  failed = pos 1;
  mean_ms = pos 1;
  p50_ms = pos 1;
  p95_ms = pos 1;
  p99_ms = pos 1;
  p999_ms = pos 1;
  raw_mean_ms = none;
  raw_p50_ms = none;
  raw_p95_ms = none;
  raw_p99_ms = none;
  raw_p999_ms = none;
  network_floor_mean_ms = none;
  network_floor_p50_ms = none;
  network_floor_p95_ms = none;
  network_floor_p99_ms = none;
  network_floor_p999_ms = none;
  network_adjusted_mean_ms = none;
  network_adjusted_p50_ms = none;
  network_adjusted_p95_ms = none;
  network_adjusted_p99_ms = none;
  network_adjusted_p999_ms = none;
  speed_bump_ms = some (pos 50);
  speed_bump_source = none;
  submission_p50_ms = none;
  submission_p95_ms = none;
  submission_p99_ms = none;
  submission_p999_ms = none;
  cleanup_mean_ms = none;
  cleanup_p50_ms = none;
  cleanup_p95_ms = none;
  cleanup_p99_ms = none;
  cleanup_p999_ms = none;
  network_adjusted_cleanup_mean_ms = none;
  network_adjusted_cleanup_p50_ms = none;
  network_adjusted_cleanup_p95_ms = none;
  network_adjusted_cleanup_p99_ms = none;
  network_adjusted_cleanup_p999_ms = none;
  cleanup_ok = pos 1;
  cleanup_failed = pos 1;
  cost_count = none;
  cost_mean_usd = none;
  cost_total_usd = none;
}

abbrev pub tps_row : ExchangeTpsRow ℤ
tps_row = record {
  venue = txt "a,\"b\"";
  bucket_start = txt "bucket_start";
  bucket_seconds = pos 1;
  complete = true;
  tx_count = pos 1;
  block_count = none;
  order_count = none;
  place_count = none;
  cancel_count = none;
  error_count = none;
  tps = pos 1;
  orders_per_second = none;
  source_quality = txt "source_quality";
}
