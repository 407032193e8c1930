-- ===== src/Proxy/Shape.antt =====
-- What the proxy passes on of an answer (frontend/src/api/bench.server.ts): hidden venues are
-- filtered out and samples are cut down to the fields that the dashboard reads.
pub mod Visible
pub mod Throughput
pub mod Compact
use perps_latency_benchmark.Prelude.{
  ℕ, Bool, true, false, not, ◌&&◌, ◌||◌, Option, none, some, List, [], ◌∷◌, map, Text, txt, ◌===◌,
  includes_text, starts_with, trim, to_lower, split_on, is_blank, keep, value_or, if◌then◌else◌,
}
use perps_latency_benchmark.Json
use perps_latency_benchmark.Json.{
  Json, Items, Fields, null, bool, num, str, arr, obj, nil, cons, end, items, of_items, get, put,
  spread, omit_undefined,
}
use perps_latency_benchmark.Http.{Env, read_env}

-- `isRecord(value)` of this file: arrays are records too.
abbrev pub is_record : Json → Bool
is_record (arr _) = true
is_record (obj _) = true
is_record _ = false

unfoldable pub is_samples_path : Text → Bool
unfolding starts_with
is_samples_path path =
    starts_with (txt "/api/samples?") path
    || starts_with (txt "/api/dashboard/samples?") path
    || starts_with (txt "/api/dashboard/latency-series?") path
    || starts_with (txt "/api/dashboard/taker-cost-series?") path

unfoldable pub hidden_venue_set : Env → List Text
unfolding read_env split_on trim to_lower
hidden_venue_set env =
    keep (λ v. not (is_blank v))
      (map (λ v. to_lower (trim v))
        (split_on b',' (value_or (read_env env (txt "PERPS_BENCH_HIDDEN_VENUES")) [])))

abbrev venue_visible : List Text → Option Json → Bool
venue_visible hidden (some (str venue)) = not (includes_text hidden (to_lower venue))
venue_visible hidden _ = true

unfoldable pub is_visible_venue_row : List Text → Json → Bool
is_visible_venue_row hidden row = venue_visible hidden (get (txt "venue") row)

abbrev pub visible_rows : List Text → Items → Items
visible_rows hidden rows = of_items (keep (is_visible_venue_row hidden) (items rows))

-- `Array.isArray(value) ? value.filter(…) : value`
abbrev pub visible_or_same : List Text → Option Json → Option Json
visible_or_same hidden (some (arr rows)) = some (arr (visible_rows hidden rows))
visible_or_same hidden other = other

-- A property set to `undefined` is not written.
abbrev pub put_defined : Text → Option Json → Fields → Fields
put_defined k none fs = fs
put_defined k (some v) fs = put k v fs

-- `data.key` where it is an array.
abbrev array_of : Option Json → Option Items
array_of (some (arr rows)) = some rows
array_of _ = none

abbrev pub array_at : Text → Json → Option Items
array_at key data' = array_of (get key data')

-- `{ ...data, key: rows }`
abbrev pub with_array : Text → Json → Items → Json
with_array key data' rows = obj (put key (arr rows) (spread data'))

-- The branch taken where `data.key` is an array, else the rest of the function.
abbrev pub with_visible : Text → List Text → Json → Option Items → Json → Json
with_visible key hidden data' (some rows) other = with_array key data' (visible_rows hidden rows)
with_visible key hidden data' none other = other

unfoldable pub filter_exchange_tps : List Text → Json → Json
filter_exchange_tps hidden data' = obj (
    put_defined (txt "sources") (visible_or_same hidden (get (txt "sources") data')) (
      put_defined (txt "series") (visible_or_same hidden (get (txt "series") data'))
        (spread data')))

abbrev filter_other : List Text → Text → Json → Json
filter_other hidden path data' =
    if starts_with (txt "/api/exchange-tps?") path then filter_exchange_tps hidden data' else data'

abbrev filter_samples : List Text → Text → Json → Json
filter_samples hidden path data' =
    with_visible (txt "samples") hidden data'
      (if is_samples_path path then array_at (txt "samples") data' else none)
      (filter_other hidden path data')

abbrev filter_latest : List Text → Text → Json → Json
filter_latest hidden path data' =
    with_visible (txt "summaries") hidden data'
      (if starts_with (txt "/api/latest?") path then array_at (txt "summaries") data' else none)
      (filter_samples hidden path data')

abbrev is_empty : List Text → Bool
is_empty [] = true
is_empty (_ ∷ _) = false

unfoldable pub filter_bench_json : List Text → Text → Json → Json
filter_bench_json hidden path data' =
    if is_empty hidden || not (is_record data') then data' else filter_latest hidden path data'

abbrev keep_fields : List Text → Json → List (Text × Option Json)
keep_fields [] v = []
keep_fields (k ∷ ks) v = (k, get k v) ∷ keep_fields ks v

-- `isRecord(value) ? omitUndefined({ … }) : undefined`
abbrev pub compact_with : (Json → List (Text × Option Json)) → Option Json → Option Json
compact_with fields none = none
compact_with fields (some v) = if is_record v then some (obj (omit_undefined (fields v))) else none

unfoldable pub compact_cleanup_metadata : Option Json → Option Json
compact_cleanup_metadata = compact_with (keep_fields (txt "cleanup_confirmation" ∷ []))

abbrev cleanup_fields : Json → List (Text × Option Json)
cleanup_fields cleanup =
    (txt "cleanup_confirmation", get (txt "cleanup_confirmation") cleanup)
    ∷ (txt "description", get (txt "description") cleanup)
    ∷ (txt "duration_ns", get (txt "duration_ns") cleanup)
    ∷ (txt "metadata", compact_cleanup_metadata (get (txt "metadata") cleanup))
    ∷ (txt "ok", get (txt "ok") cleanup)
    ∷ []

unfoldable pub compact_cleanup : Option Json → Option Json
compact_cleanup = compact_with cleanup_fields

unfoldable pub compact_expected_fill : Option Json → Option Json
compact_expected_fill = compact_with (
    keep_fields
      (txt "book_sufficient" ∷ txt "expected_price" ∷ txt "side" ∷ txt "top_sufficient" ∷ []))

unfoldable pub compact_metadata : Option Json → Option Json
compact_metadata =
    compact_with (keep_fields (txt "native_batch_endpoint" ∷ txt "submission_model" ∷ []))

abbrev pub sample_fields : Json → List (Text × Option Json)
sample_fields sample =
    (txt "adjusted_network_ns", get (txt "adjusted_network_ns") sample)
    ∷ (txt "batch_submission", get (txt "batch_submission") sample)
    ∷ (txt "batch_size", get (txt "batch_size") sample)
    ∷ (txt "cleanup", compact_cleanup (get (txt "cleanup") sample))
    ∷ (txt "completed_at", get (txt "completed_at") sample)
    ∷ (txt "cost", get (txt "cost") sample)
    ∷ (txt "expected_entry_fill", compact_expected_fill (get (txt "expected_entry_fill") sample))
    ∷ (txt "expected_exit_fill", compact_expected_fill (get (txt "expected_exit_fill") sample))
    ∷ (txt "measurement_mode", get (txt "measurement_mode") sample)
    ∷ (txt "metadata", compact_metadata (get (txt "metadata") sample))
    ∷ (txt "network_floor_ns", get (txt "network_floor_ns") sample)
    ∷ (txt "network_ns", get (txt "network_ns") sample)
    ∷ (txt "ok", get (txt "ok") sample)
    ∷ (txt "order_type", get (txt "order_type") sample)
    ∷ (txt "raw_network_ns", get (txt "raw_network_ns") sample)
    ∷ (txt "scenario", get (txt "scenario") sample)
    ∷ (txt "scheduled_at", get (txt "scheduled_at") sample)
    ∷ (txt "sent_at", get (txt "sent_at") sample)
    ∷ (txt "speed_bump_ns", get (txt "speed_bump_ns") sample)
    ∷ (txt "submission_ns", get (txt "submission_ns") sample)
    ∷ (txt "venue", get (txt "venue") sample)
    ∷ (txt "warmup", get (txt "warmup") sample)
    ∷ []

unfoldable pub compact_sample : Json → Json
compact_sample sample =
    if is_record sample then obj (omit_undefined (sample_fields sample)) else sample

abbrev compact_rows : Items → Items
compact_rows rows = of_items (map compact_sample (items rows))

-- The branch taken where `filtered.samples` is an array.
abbrev compact_if : Option Items → Json → Json
compact_if (some rows) filtered = with_array (txt "samples") filtered (compact_rows rows)
compact_if none filtered = filtered

unfoldable pub shape_bench_json : List Text → Text → Json → Json
shape_bench_json hidden path data' =
    let filtered = filter_bench_json hidden path data' in
    compact_if
      (if starts_with (txt "/api/samples?") path then array_at (txt "samples") filtered else none)
      filtered

abbrev is_non_empty : Option Items → Bool
is_non_empty (some (cons _ _)) = true
is_non_empty _ = false

abbrev pub has_non_empty_array : Json → Text → Bool
has_non_empty_array data' key = is_non_empty (array_at key data')

abbrev is_true : Option Json → Bool
is_true (some (bool b)) = b
is_true _ = false

unfoldable pub should_cache_bench_data : Text → Json → Bool
should_cache_bench_data path data' =
    if starts_with (txt "/api/latest?") path
    then has_non_empty_array data' (txt "summaries")
    else if is_samples_path path
    then has_non_empty_array data' (txt "samples")
    else if path === txt "/api/health"
    then is_true (get (txt "ok") data')
    else true
