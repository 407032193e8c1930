-- ===== src/Routes.antt =====
-- The handlers of the server's routes (frontend/src/routes/api/bench/*.ts). A request's query is read
-- by the platform: `limit` is the value of `Number(…)` on it.
pub mod Bounds
pub mod Guarded
pub mod Hidden
pub mod Export
use perps_latency_benchmark.Prelude.{
  ℕ, Bool, Option, none, some, List, [], ◌∷◌, ◌++◌, Text, txt, ltb, min, decimal, includes_text,
  if◌then◌else◌,
}
use perps_latency_benchmark.Http.{Outcome, ok, thrown, ◌>>=◌, Env, Response}
use perps_latency_benchmark.Auth.{Session}
use perps_latency_benchmark.Windows.{
  exchange_tps_buckets, exchange_tps_bucket_for_window, exchange_tps_window_limit,
}
use perps_latency_benchmark.Windows.Access.{
  Resolved, granted, response, BenchWindow, SummaryWindow, resolve_bench_window,
  resolve_summary_window,
}
use perps_latency_benchmark.Proxy.Fetch.{Platform}
use perps_latency_benchmark.Proxy.Serve.{Cache, proxy_bench_json, proxy_bench_json_with_fallback}

-- A number that is an integer from 0 on, or any other (negative, with a fraction, NaN, infinite).
pub data QueryNumber : Type 0 where
  whole : ℕ → QueryNumber
  other : QueryNumber

pub record Request : Type 0 where
  pub window : Option Text
  pub limit : QueryNumber
  pub bucket : Option Text

-- What a handler reads and changes beside the request.
pub record Server : Type 0 where
  pub env : Env
  pub platform : Platform
  pub session : Session
  pub cache : Cache

-- `Number.isInteger(limit) && limit > 0 ? Math.min(limit, max) : default`
unfoldable pub safe_limit : ℕ → ℕ → QueryNumber → ℕ
safe_limit max default (whole n) = if ltb 0 n then min n max else default
safe_limit max default other = default

abbrev pub query_path : Text → Text → ℕ → Text
query_path base window limit =
    base ++ (txt "?window=" ++ (window ++ (txt "&limit=" ++ decimal limit)))

-- What a handler does with a window that was granted.
abbrev pub if_granted :
    {A : Type 0} → Cache → (A → Response × Cache) → Resolved A → Response × Cache
if_granted cache serve (response r) = (r, cache)
if_granted cache serve (granted window) = serve window

module _ (server : Server) where
  open server use {env, platform, session, cache}

  unfoldable pub get_health : Outcome (Response × Cache)
  get_health = ok (proxy_bench_json env platform (txt "/api/health") cache)

  unfoldable pub get_latest : Request → Outcome (Response × Cache)
  get_latest request = resolve_summary_window env session request.window >>= λ resolved. ok (
      if_granted cache
        (λ (w : SummaryWindow).
          proxy_bench_json env platform (query_path (txt "/api/latest") w.api_window w.limit) cache)
        resolved)

  unfoldable pub get_samples : Request → Outcome (Response × Cache)
  get_samples request =
      let limit = safe_limit 10_000 2000 request.limit in
      resolve_bench_window env session request.window >>= λ resolved. ok (
        if_granted cache
          (λ (w : BenchWindow).
            proxy_bench_json_with_fallback env platform
              (query_path (txt "/api/dashboard/samples") w.api_window limit)
              (query_path (txt "/api/samples") w.api_window limit ∷ []) cache)
          resolved)

  -- The two routes of series differ in the path that they ask first.
  abbrev get_series : Text → Request → Outcome (Response × Cache)
  get_series base request =
      let limit = safe_limit 100_000 2000 request.limit in
      resolve_bench_window env session request.window >>= λ resolved. ok (
        if_granted cache
          (λ (w : BenchWindow).
            proxy_bench_json_with_fallback env platform (query_path base w.api_window limit)
              (query_path (txt "/api/dashboard/samples") w.api_window limit
                ∷ query_path (txt "/api/samples") w.api_window limit
                ∷ [])
              cache)
          resolved)

  unfoldable pub get_latency_series : Request → Outcome (Response × Cache)
  get_latency_series request = get_series (txt "/api/dashboard/latency-series") request

  unfoldable pub get_taker_cost_series : Request → Outcome (Response × Cache)
  get_taker_cost_series request = get_series (txt "/api/dashboard/taker-cost-series") request

  -- A bucket that is none of the options is chosen by the window.
  abbrev safe_bucket : Option Text → Text → Text
  safe_bucket none window = exchange_tps_bucket_for_window window
  safe_bucket (some bucket) window =
      if includes_text exchange_tps_buckets bucket
      then bucket
      else exchange_tps_bucket_for_window window

  unfoldable pub get_exchange_tps : Request → Outcome (Response × Cache)
  get_exchange_tps request = resolve_bench_window env session request.window >>= λ resolved. ok (
      if_granted cache
        (λ (w : BenchWindow).
          let bucket = safe_bucket request.bucket w.window in
          let limit =
            safe_limit 100_000 (exchange_tps_window_limit w.window bucket) request.limit in
          proxy_bench_json env platform
            (txt "/api/exchange-tps?window="
              ++ (w.api_window ++ (txt "&bucket=" ++ (bucket ++ (txt "&limit=" ++ decimal limit)))))
            cache)
        resolved)
