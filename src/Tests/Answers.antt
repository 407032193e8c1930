-- ===== src/Tests/Answers.antt =====
-- What the proxy makes of an answer (frontend/src/api/bench.server.ts), at rows of a shown venue and
-- of a hidden one.
use perps_latency_benchmark.Proxy.Fetch.Fallback.{try_paths-eq-done_iff, Answered}
use perps_latency_benchmark.Json.{nil, Json, cons}
use perps_latency_benchmark.Proxy.Fetch.{
  bench_api_error, failed, done, other_error, try_paths, Fetched,
}
use perps_latency_benchmark.Proxy.Shape.Visible.{shape_bench_json-IsShown_samples, IsShown}
use perps_latency_benchmark.Proxy.Shape.{
  array_at, compact_sample, shape_bench_json, is_samples_path, hidden_venue_set,
}
use perps_latency_benchmark.Prelude.{
  starts_with, ℕ, ◌≡◌, refl, ◌↔◌, inl, inr, true, false, Option, none, some, List, [], ◌∷◌, Text,
  txt, ◌++◌, ◌===◌, if◌then◌else◌,
}
use perps_latency_benchmark.Proxy.Shape.Throughput.{shape_bench_json-IsShown_tps}
use perps_latency_benchmark.Tests.Fixtures.{env, row_of, rows_under}

-- The hidden venues of the environment, and what is left of the rows.
hidden_tests :
    (hidden_venue_set env ≡ txt "ghost" ∷ [])
    × (array_at (txt "summaries") (
          shape_bench_json
            (txt "ghost" ∷ [])
            (txt "/api/latest?window=24h")
            (rows_under (txt "summaries")))
        ≡ some (cons (row_of (txt "alpha")) nil))
unfolding hidden_venue_set shape_bench_json ◌===◌ perps_latency_benchmark.Json.get starts_with
    perps_latency_benchmark.Proxy.Shape.filter_bench_json perps_latency_benchmark.Json.put
    perps_latency_benchmark.Json.spread perps_latency_benchmark.Proxy.Shape.is_visible_venue_row
    perps_latency_benchmark.Prelude.includes_text
hidden_tests = (refl, refl)

shape_bench_json-IsShown_samples_example :
    IsShown (txt "ghost" ∷ []) (txt "samples") (
      shape_bench_json (txt "ghost" ∷ []) (txt "/api/samples?limit=1") (rows_under (txt "samples")))
unfolding is_samples_path starts_with
shape_bench_json-IsShown_samples_example =
    shape_bench_json-IsShown_samples (txt "ghost" ∷ []) (txt "/api/samples?limit=1")
      (rows_under (txt "samples")) refl

shape_bench_json-IsShown_tps_example :
    let shown =
      shape_bench_json
        (txt "ghost" ∷ [])
        (txt "/api/exchange-tps?" ++ txt "bucket=1m")
        (rows_under (txt "series")) in
    IsShown (txt "ghost" ∷ []) (txt "series") shown
    × IsShown (txt "ghost" ∷ []) (txt "sources") shown
shape_bench_json-IsShown_tps_example =
    shape_bench_json-IsShown_tps (txt "ghost" ∷ []) (txt "bucket=1m") (rows_under (txt "series"))

-- The first candidate is not there, the second is, the third cannot be reached.
abbrev answers : Text → Fetched Json
answers path =
    if path === txt "/a"
    then failed (bench_api_error path 404)
    else if path === txt "/b"
    then done (row_of (txt "alpha"))
    else failed (other_error (txt "down"))

try_paths_tests :
    (try_paths answers (other_error []) (txt "/a" ∷ txt "/b" ∷ txt "/c" ∷ [])
      ≡ done (row_of (txt "alpha"), txt "/b"))
    × (try_paths answers (other_error []) (txt "/c" ∷ txt "/b" ∷ [])
        ≡ failed (other_error (txt "down")))
    × (try_paths answers (other_error []) (txt "/a" ∷ []) ≡ failed (bench_api_error (txt "/a") 404))
unfolding try_paths ◌===◌
try_paths_tests = (refl, refl, refl)

try_paths-eq-done_iff_example :
    (try_paths answers (other_error []) (txt "/a" ∷ txt "/b" ∷ txt "/c" ∷ [])
      ≡ done (row_of (txt "alpha"), txt "/b"))
    ↔ Answered answers (txt "/a" ∷ txt "/b" ∷ txt "/c" ∷ []) (row_of (txt "alpha")) (txt "/b")
try_paths-eq-done_iff_example =
    try_paths-eq-done_iff answers (other_error []) (txt "/a" ∷ txt "/b" ∷ txt "/c" ∷ [])
      (row_of (txt "alpha")) (txt "/b")
