-- ===== src/Proxy/Serve.antt =====
-- Serving a path through the response cache (frontend/src/api/bench.server.ts). The cache is the
-- platform's: a list of the stored responses by request URL, or nothing where there is none.
pub mod Invariant
pub mod Repeat
pub mod Hidden
use perps_latency_benchmark.Prelude.{
  ℕ, Bool, true, false, ◌&&◌, Option, none, some, List, [], ◌∷◌, ◌++◌, Text, txt, ◌===◌, value_or,
  decimal, if◌then◌else◌,
}
use perps_latency_benchmark.Json.{Json, Fields, obj, str, num, bool, field, end}
use perps_latency_benchmark.Http.{Env, read_env, Response}
use perps_latency_benchmark.Proxy.Shape.{
  shape_bench_json, should_cache_bench_data, hidden_venue_set,
}
use perps_latency_benchmark.Proxy.Fetch.{
  Platform, FetchError, bench_api_error, other_error, Fetched, done, failed, trim_trailing_slash,
  fetch_bench_json_with_fallback,
}

abbrev pub cache_status_header : Text
cache_status_header = txt "x-perps-bench-cache"

abbrev pub cache_control_header : Text
cache_control_header = txt "public, max-age=0, s-maxage=60"

abbrev pub Cache : Type 0
Cache = Option (List (Text × Response))

pub data CacheStatus : Type 0 where
  miss bypass : CacheStatus

abbrev cache_status_text : CacheStatus → Text
cache_status_text miss = txt "MISS"
cache_status_text bypass = txt "BYPASS"

abbrev pub cache_headers : CacheStatus → List (Text × Text)
cache_headers status =
    (txt "Cache-Control", cache_control_header)
    ∷ (cache_status_header, cache_status_text status)
    ∷ []

unfoldable pub public_site_url : Env → Text
public_site_url env =
    trim_trailing_slash (
      value_or (read_env env (txt "PERPS_BENCH_PUBLIC_SITE_URL")) (txt "https://perps-bench.local"))

unfoldable pub cache_request : Env → Text → Text
cache_request env path = public_site_url env ++ (txt "/__bench-api-cache" ++ path)

-- `cache.match` and `cache.put`.
unfoldable pub cache_match : Text → List (Text × Response) → Option Response
cache_match url [] = none
cache_match url ((u, r) ∷ entries) = if u === url then some r else cache_match url entries

unfoldable pub cache_put : Text → Response → List (Text × Response) → List (Text × Response)
cache_put url r [] = (url, r) ∷ []
cache_put url r ((u, s) ∷ entries) =
    if u === url then (u, r) ∷ entries else (u, s) ∷ cache_put url r entries

-- `headers.set`.
unfoldable pub set_header : Text → Text → List (Text × Text) → List (Text × Text)
set_header name value [] = (name, value) ∷ []
set_header name value ((n, v) ∷ headers) =
    if n === name then (n, value) ∷ headers else (n, v) ∷ set_header name value headers

abbrev pub as_hit : Response → Response
as_hit r = record r {
  headers =
      set_header cache_status_header (txt "HIT")
        (set_header (txt "Cache-Control") cache_control_header r.headers);
}

abbrev pub hit_of : Option Response → Option Response
hit_of none = none
hit_of (some r) = some (as_hit r)

unfoldable pub read_cached_bench_response : Env → Text → Cache → Option Response
read_cached_bench_response env path none = none
read_cached_bench_response env path (some entries) =
    hit_of (cache_match (cache_request env path) entries)

unfoldable pub write_cached_bench_response : Env → Text → Response → Cache → Cache
write_cached_bench_response env path r none = none
write_cached_bench_response env path r (some entries) =
    some (cache_put (cache_request env path) r entries)

unfoldable pub bench_api_error_body : Text → FetchError → Json
bench_api_error_body path (bench_api_error _ status) = obj (
    field (txt "ok") (bool false)
      (field (txt "path") (str path) (field (txt "upstream_status") (num (decimal status)) end)))
bench_api_error_body path (other_error message) = obj (
    field (txt "ok") (bool false)
      (field (txt "path") (str path) (field (txt "error") (str message) end)))

abbrev pub error_response : Text → FetchError → Response
error_response path error = record {
  status = 502;
  headers = (cache_status_header, txt "ERROR") ∷ [];
  body = bench_api_error_body path error;
}

abbrev pub json_response : CacheStatus → Json → Response
json_response status v = record { status = 200; headers = cache_headers status; body = v }

-- What is served of an answer, and whether it is cached.
abbrev pub serve_fetched : Env → Text → Fetched (Json × Text) → Cache → Response × Cache
serve_fetched env path (failed error) cache = (error_response path error, cache)
serve_fetched env path (done (v, fetched_path)) cache =
    let shaped = shape_bench_json (hidden_venue_set env) fetched_path v in
    if should_cache_bench_data path shaped
    then (
      json_response miss shaped,
      write_cached_bench_response env path (json_response miss shaped) cache,
    )
    else (json_response bypass shaped, cache)

-- By what the cache has for the path.
abbrev pub serve_cached :
    Env → Platform → Text → List Text → Cache → Option Response → Response × Cache
serve_cached env platform path fallback cache (some response) = (response, cache)
serve_cached env platform path fallback cache none =
    serve_fetched env path (fetch_bench_json_with_fallback env platform path fallback) cache

unfoldable pub proxy_bench_json_with_fallback :
    Env → Platform → Text → List Text → Cache → Response × Cache
proxy_bench_json_with_fallback env platform path fallback cache =
    serve_cached env platform path fallback cache (read_cached_bench_response env path cache)

unfoldable pub proxy_bench_json : Env → Platform → Text → Cache → Response × Cache
unfolding proxy_bench_json_with_fallback
proxy_bench_json env platform path cache = proxy_bench_json_with_fallback env platform path [] cache
