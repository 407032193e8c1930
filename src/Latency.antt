-- ===== src/Latency.antt =====
-- The latencies that the dashboard shows (frontend/src/lib/latency-metric.ts).
pub mod Bounds
pub mod SpeedBump
use perps_latency_benchmark.Prelude.{
  ℕ, Bool, true, false, not, ◌&&◌, ◌||◌, Option, none, some, Text, txt, ◌===◌, has_infix, to_lower,
  trim, value_or, or_option, if◌then◌else◌,
}
use perps_latency_benchmark.Json.{Json, Fields, str, lookup}
use perps_latency_benchmark.Data.{Sample, SummaryRow, CleanupResult}
use perps_latency_benchmark.Numbers.{Numbers, nought, positive, positive_at}

-- A text that is missing is no given text.
abbrev equals_at : Option Text → Text → Bool
equals_at none t = false
equals_at (some v) t = v === t

unfoldable pub is_taker_order_type : Option Text → Bool
unfolding ◌===◌ to_lower trim
is_taker_order_type none = false
is_taker_order_type (some order_type) =
    let normalized = trim (to_lower order_type) in
    normalized === txt "market" || normalized === txt "ioc"

abbrev pub is_extended : Text → Bool
is_extended venue = to_lower venue === txt "extended"

unfoldable pub is_extended_taker : Text → Option Text → Bool
unfolding is_taker_order_type
is_extended_taker venue order_type = is_extended venue && is_taker_order_type order_type

unfoldable pub is_extended_non_taker : Text → Option Text → Bool
unfolding is_taker_order_type
is_extended_non_taker venue order_type = is_extended venue && not (is_taker_order_type order_type)

unfoldable pub primary_label : Text → Text
primary_label _venue = txt "Account feed"

-- `cleanup_confirmation ?? metadata?.cleanup_confirmation`, compared with "account_feed".
abbrev metadata_confirmation : Option Fields → Option Text
metadata_confirmation none = none
metadata_confirmation (some metadata) = elim (lookup (txt "cleanup_confirmation") metadata) [
  | some (str t) ↦ some t
  | _ ↦ none
]

module _ {N : Type 0} ⦃n : Numbers N⦄ where
  abbrev pub extended_speed_bump : N
  extended_speed_bump = nought

  unfoldable pub ns_to_ms : N → N
  ns_to_ms value = n.div value (n.of_ℕ 1_000_000)

  -- `value && Number.isFinite(value) && value > 0 ? value : undefined`
  unfoldable pub positive_metric : Option N → Option N
  positive_metric none = none
  positive_metric (some value) = if n.is_finite value && positive value then some value else none

  -- `!floor || floor <= 0`
  abbrev pub off_floor : N → Option N → N
  off_floor value none = value
  off_floor value (some floor) =
      if positive floor then n.max_of (n.sub value floor) nought else value

  unfoldable pub subtract_network_floor_ns : N → Sample N → N
  subtract_network_floor_ns value sample = off_floor value sample.network_floor_ns

  abbrev pub after_floor : Bool → N → Sample N → N
  after_floor subtract value sample =
      if subtract then subtract_network_floor_ns value sample else value

  abbrev pub positive_or : Option N → N → N
  positive_or none other = other
  positive_or (some x) other = if positive x then x else other

  unfoldable pub raw_network_ns : Sample N → N
  raw_network_ns sample = positive_or sample.raw_network_ns (value_or sample.network_ns nought)

  unfoldable pub effective_speed_bump_ns : Sample N → N
  effective_speed_bump_ns sample =
      if is_extended_taker sample.venue sample.order_type
      then extended_speed_bump
      else if positive_at sample.speed_bump_ns
          && not (is_extended_non_taker sample.venue sample.order_type)
      then value_or sample.speed_bump_ns nought
      else nought

  unfoldable pub adjusted_network_ns : Sample N → N
  adjusted_network_ns sample =
      let speed_bump = effective_speed_bump_ns sample in
      let adjusted = n.max_of (n.sub (raw_network_ns sample) speed_bump) nought in
      if n.same speed_bump (value_or sample.speed_bump_ns nought)
      then positive_or sample.adjusted_network_ns adjusted
      else adjusted

  unfoldable pub confirm_sample_ms : Sample N → Bool → N
  confirm_sample_ms sample subtract =
      ns_to_ms
        (after_floor subtract (positive_or sample.confirm_ns (adjusted_network_ns sample)) sample)

  unfoldable pub is_cancel_cleanup : Sample N → Bool
  unfolding has_infix to_lower
  is_cancel_cleanup sample = elim sample.cleanup [
    | none ↦ false
    | some cleanup ↦ cleanup.ok && elim cleanup.description [
      | none ↦ false
      | some description ↦ has_infix (txt "cancel") (to_lower description)
    ]
  ]

  abbrev cleanup_confirmation_of : Option (CleanupResult N) → Option Text
  cleanup_confirmation_of none = none
  cleanup_confirmation_of (some cleanup) =
      or_option cleanup.cleanup_confirmation (metadata_confirmation cleanup.metadata)

  unfoldable pub is_account_feed_cancel_cleanup : Sample N → Bool
  unfolding is_cancel_cleanup ◌===◌
  is_account_feed_cancel_cleanup sample =
      value_or sample.cleanup_account_feed false
      || is_cancel_cleanup sample
        && equals_at (cleanup_confirmation_of sample.cleanup) (txt "account_feed")

  abbrev cleanup_duration : Option (CleanupResult N) → Option N
  cleanup_duration none = none
  cleanup_duration (some cleanup) = cleanup.duration_ns

  -- The duration that `cancelSampleMs` shows, before the floor is taken off.
  abbrev pub cancel_ns : Sample N → Option N
  cancel_ns sample =
      if value_or sample.cleanup_account_feed false && positive_at sample.cleanup_confirm_ns
      then sample.cleanup_confirm_ns
      else if is_account_feed_cancel_cleanup sample && positive_at (cleanup_duration sample.cleanup)
      then cleanup_duration sample.cleanup
      else none

  abbrev pub shown_cancel : Option N → Sample N → Bool → Option N
  shown_cancel none sample subtract = none
  shown_cancel (some ns) sample subtract = some (ns_to_ms (after_floor subtract ns sample))

  unfoldable pub cancel_sample_ms : Sample N → Bool → Option N
  cancel_sample_ms sample subtract = shown_cancel (cancel_ns sample) sample subtract

  unfoldable pub summary_speed_bump_ms : SummaryRow N → Option N
  summary_speed_bump_ms row =
      if is_extended_taker row.venue (some row.order_type)
      then none
      else if positive_at row.speed_bump_ms
          && not (is_extended_non_taker row.venue (some row.order_type))
      then row.speed_bump_ms
      else none

  abbrev finite_or : Option N → N → N
  finite_or none other = other
  finite_or (some x) other = if n.is_finite x then x else other

  unfoldable pub adjusted_summary_latency : N → SummaryRow N → Option N → N
  adjusted_summary_latency value row raw_value =
      if is_extended_taker row.venue (some row.order_type) && not (positive_at row.speed_bump_ms)
      then n.max_of (n.sub (finite_or raw_value value) extended_speed_bump) nought
      else value

  unfoldable pub summary_latency : SummaryRow N → N → Option N → Option N → Bool → N
  summary_latency row value raw_value network_adjusted_value subtract =
      if subtract
      then positive_or network_adjusted_value (adjusted_summary_latency value row raw_value)
      else adjusted_summary_latency value row raw_value

  unfoldable pub confirm_p50 : SummaryRow N → Bool → N
  unfolding summary_latency
  confirm_p50 row = summary_latency row row.p50_ms row.raw_p50_ms row.network_adjusted_p50_ms

  unfoldable pub confirm_p95 : SummaryRow N → Bool → N
  unfolding summary_latency
  confirm_p95 row = summary_latency row row.p95_ms row.raw_p95_ms row.network_adjusted_p95_ms

  unfoldable pub confirm_p99 : SummaryRow N → Bool → N
  unfolding summary_latency
  confirm_p99 row = summary_latency row row.p99_ms row.raw_p99_ms row.network_adjusted_p99_ms

  unfoldable pub confirm_p999 : SummaryRow N → Bool → N
  unfolding summary_latency
  confirm_p999 row = summary_latency row row.p999_ms row.raw_p999_ms row.network_adjusted_p999_ms

  -- `positiveMetric(adjusted) ?? positiveMetric(plain)` where the floor is taken off.
  abbrev cancel_metric : Bool → Option N → Option N → Option N
  cancel_metric subtract adjusted plain =
      if subtract
      then or_option (positive_metric adjusted) (positive_metric plain)
      else positive_metric plain

  unfoldable pub cancel_p50 : SummaryRow N → Bool → Option N
  unfolding positive_metric
  cancel_p50 row subtract =
      cancel_metric subtract row.network_adjusted_cleanup_p50_ms row.cleanup_p50_ms

  unfoldable pub cancel_p95 : SummaryRow N → Bool → Option N
  unfolding positive_metric
  cancel_p95 row subtract =
      cancel_metric subtract row.network_adjusted_cleanup_p95_ms row.cleanup_p95_ms

  unfoldable pub cancel_p99 : SummaryRow N → Bool → Option N
  unfolding positive_metric
  cancel_p99 row subtract =
      cancel_metric subtract row.network_adjusted_cleanup_p99_ms row.cleanup_p99_ms

  unfoldable pub cancel_p999 : SummaryRow N → Bool → Option N
  unfolding positive_metric
  cancel_p999 row subtract =
      cancel_metric subtract row.network_adjusted_cleanup_p999_ms row.cleanup_p999_ms
