-- ===== src/Chart/Labels.antt =====
-- The names of venues and of series (formatVenueLabel of frontend/src/components/dashboard/venue-logo.tsx,
-- batchSubmission and seriesLabel of frontend/src/components/charts/latency-timeseries-chart.tsx).
-- `toUpperCase` is modelled on the ASCII letters.
use mathlib.Core.List.{reverse}
use perps_latency_benchmark.Prelude.{
  to_lower, ℕ, ◌-◌, true, false, not, ◌&&◌, ◌||◌, Option, none, some, List, [], ◌∷◌, ◌++◌, map,
  Text, txt, ◌===◌, leb, ◌==◌, if◌then◌else◌,
}
use perps_latency_benchmark.Csv.{join}
use perps_latency_benchmark.Json.{Fields, bool, str, lookup}
use perps_latency_benchmark.Data.{Sample}

abbrev to_upper_unit : ℕ → ℕ
to_upper_unit c = if leb b'a' c && leb c b'z' then c - 32 else c

-- `part.charAt(0).toUpperCase() + part.slice(1)`
abbrev capitalized : Text → Text
capitalized [] = []
capitalized (c ∷ part) = to_upper_unit c ∷ part

-- `value.split(/[_-]/)`, with the code units of the piece so far, the last one first.
abbrev split_label : Text → Text → List Text
split_label piece [] = reverse piece ∷ []
split_label piece (c ∷ value) =
    let closed = split_label [] value in
    let longer = split_label (c ∷ piece) value in
    if c == b'_' || c == b'-' then reverse piece ∷ closed else longer

unfoldable pub format_venue_label : Text → Text
unfolding ◌===◌ to_lower
format_venue_label value =
    if to_lower value === txt "lighter_free"
    then txt "Lighter Free"
    else if to_lower value === txt "nado_direct"
    then txt "Nado Direct"
    else join b' ' (map capitalized (split_label [] value))

unfoldable pub series_label : Text → Text → Text
unfolding format_venue_label ◌===◌
series_label venue batch_kind =
    let label = format_venue_label venue in
    if batch_kind === txt "manual"
    then label ++ txt " (manual)"
    else if batch_kind === txt "native"
    then label ++ txt " (native)"
    else label

-- What the metadata of a sample says of its batch.
abbrev submission_of_metadata : Option Fields → Text
submission_of_metadata none = txt "native"
submission_of_metadata (some metadata) = elim (lookup (txt "native_batch_endpoint") metadata) [
  | some (bool false) ↦ txt "manual"
  | some (bool true) ↦ txt "native"
  | _ ↦ elim (lookup (txt "submission_model") metadata) [
    | some (str model) ↦ txt "manual"
    | _ ↦ txt "native"
  ]
]

abbrev declared_submission : Option Text → Text → Text
declared_submission none otherwise = otherwise
declared_submission (some kind) otherwise =
    if kind === txt "manual" || kind === txt "native" then kind else otherwise

unfoldable pub batch_submission_of : {N : Type 0} → Sample N → Text
unfolding ◌===◌ lookup
batch_submission_of sample =
    if not (sample.scenario === txt "batch")
    then []
    else declared_submission sample.batch_submission (submission_of_metadata sample.metadata)
