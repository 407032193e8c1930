-- ===== src/Tests/Shown.antt =====
-- What the dashboard shows and exports (frontend/src/lib/*.ts, the CSV exports), at a sample, a summary
-- and a row of throughput.
use perps_latency_benchmark.TakerCost.Groups.{group_by}
use perps_latency_benchmark.TakerCost.Window.{
  first_complete_clean_cycle, stable_cost_window, unique_sorted,
}
use perps_latency_benchmark.TakerCost.Window.Stable.{
  IsCompleteMinute, IsIncomplete, stable_cost_window-IsStable,
}
use perps_latency_benchmark.TakerCost.Series.{
  sum, costs_of, point_of, VenuePoint, cumulative_venue_series,
}
use perps_latency_benchmark.SampleTime.{sample_plot_date}
use perps_latency_benchmark.TakerCost.{
  taker_cost_record_of, not_after, records_of, TakerCostRecord, build_taker_cost_records,
}
use perps_latency_benchmark.Latency.{
  raw_network_ns, is_extended, adjusted_network_ns, effective_speed_bump_ns, summary_speed_bump_ms,
  cancel_sample_ms, confirm_sample_ms,
}
use perps_latency_benchmark.Csv.Download.{sanitized_csv_filename}
use perps_latency_benchmark.Csv.{exchange_tps_csv}
use perps_latency_benchmark.Prelude.{
  includes_text, ◌≤◌, All, ◌<◌, length, to_lower_unit, to_lower, ◌+◌, ℕ, ◌≡◌, refl, ◌↔◌, ◌⊎◌, inl,
  inr, true, false, Bool, Option, none, some, List, [], ◌∷◌, Text, txt, ◌++◌, ◌===◌, if◌then◌else◌,
  map, value_or, decimal,
}
use perps_latency_benchmark.Numbers.Integers.{ℤ, pos, negsuc, integers}
use perps_latency_benchmark.Tests.Fixtures.{cost, sample, summary, tps_row}

abbrev show : ℤ → Text
show (pos k) = decimal k
show (negsuc k) = txt "-" ++ decimal (1 + k)

csv_tests :
    exchange_tps_csv show (tps_row ∷ [])
    ≡ txt
        "bucket_start,bucket_seconds,venue,tps,tx_count,block_count,order_count,orders_per_second,place_count,cancel_count\nbucket_start,1,\"a,\"\"b\"\"\",1,1,,,,,"
unfolding exchange_tps_csv decimal
csv_tests = refl

filename_tests :
    (sanitized_csv_filename (txt " Taker costs / 7d.CSV ") ≡ txt "taker-costs-7d.csv")
    × (sanitized_csv_filename (txt "///") ≡ txt "export.csv")
unfolding sanitized_csv_filename
filename_tests = (refl, refl)

-- The latencies of the sample, with the network floor and without.
latency_tests :
    (confirm_sample_ms sample false ≡ pos 7)
    × (confirm_sample_ms sample true ≡ pos 5)
    × (cancel_sample_ms sample false ≡ some (pos 5))
    × (cancel_sample_ms sample true ≡ some (pos 3))
    × (adjusted_network_ns sample ≡ pos 9_000_000)
    × (summary_speed_bump_ms summary ≡ some (pos 50))
unfolding confirm_sample_ms cancel_sample_ms adjusted_network_ns summary_speed_bump_ms
    perps_latency_benchmark.Latency.ns_to_ms
    perps_latency_benchmark.Latency.subtract_network_floor_ns effective_speed_bump_ns
    perps_latency_benchmark.Latency.is_extended_taker raw_network_ns
    perps_latency_benchmark.Latency.is_extended_non_taker
latency_tests = (refl, refl, refl, refl, refl, refl)

-- The platform reads the one date `later`.
abbrev parse : Text → Option ℕ
parse t = if t === txt "later" then some 60_000 else none

date_tests :
    (sample_plot_date parse sample ≡ some 60_000)
    × (map
          (λ (r : TakerCostRecord ℤ). r.entry_actual_price)
          (build_taker_cost_records parse (sample ∷ []))
        ≡ some (pos 102) ∷ [])
unfolding build_taker_cost_records sample_plot_date perps_latency_benchmark.Prelude.starts_with
    ◌===◌ perps_latency_benchmark.TakerCost.to_taker_cost_record
    perps_latency_benchmark.TakerCost.is_taker_order perps_latency_benchmark.TakerCost.average_price
date_tests = (refl, refl)

series_tests :
    map
      (λ (p : VenuePoint ℤ). p.value)
      (cumulative_venue_series (build_taker_cost_records parse (sample ∷ sample ∷ [])))
    ≡ pos 9 ∷ pos 18 ∷ []
unfolding cumulative_venue_series build_taker_cost_records
    perps_latency_benchmark.TakerCost.to_taker_cost_record
    perps_latency_benchmark.TakerCost.is_taker_order sample_plot_date
    perps_latency_benchmark.Prelude.starts_with perps_latency_benchmark.TakerCost.Series.running_get
    perps_latency_benchmark.TakerCost.Series.running_set
series_tests = refl

abbrev first_record : TakerCostRecord ℤ
first_record = taker_cost_record_of sample cost 60_000

-- A dirty record in the first minute and a clean one in the second.
abbrev two_records : List (TakerCostRecord ℤ)
two_records =
    record (taker_cost_record_of sample cost 60_500) { clean = false }
    ∷ taker_cost_record_of sample cost 120_500
    ∷ []

window_tests :
    (first_complete_clean_cycle two_records
        (stable_cost_window (λ l r. true) two_records).required_venues
      ≡ some 120_000)
    × ((stable_cost_window (λ l r. true) two_records).dirty_count ≡ 1)
    × ((stable_cost_window (λ l r. true) two_records).start ≡ some 120_500)
unfolding first_complete_clean_cycle stable_cost_window unique_sorted taker_cost_record_of group_by
    includes_text ◌===◌
window_tests = (refl, refl, refl)

stable_cost_window-IsStable_example :
    let window = stable_cost_window (λ l r. true) two_records in
    IsCompleteMinute two_records window.required_venues 120_000
    × ((minute : ℕ) → minute < 120_000 → IsIncomplete two_records window.required_venues minute)
    × All (λ (r : TakerCostRecord ℤ). (r.clean ≡ true) × (120_000 ≤ r.date)) window.records
stable_cost_window-IsStable_example =
    stable_cost_window-IsStable (λ l r. true) two_records 120_000 (window_tests.0)
