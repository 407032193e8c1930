-- ===== src/Tests/Serving.antt =====
-- Requests of a configured server, one after the other (frontend/src/api/bench.server.ts,
-- frontend/src/routes/api/bench/*.ts).
use perps_latency_benchmark.Http.{ok}
use perps_latency_benchmark.Proxy.Serve.Hidden.{SamplesBySamples}
use perps_latency_benchmark.Routes.Hidden.{
  routes-StaysReachable, routes-HidesSamples, HidesSamples, StaysReachable, Ends,
}
use perps_latency_benchmark.Windows.Access.{granted, resolve_bench_window}
use perps_latency_benchmark.Routes.{
  get_exchange_tps, get_taker_cost_series, get_latency_series, get_latest, get_samples, get_health,
  whole, Request, Server,
}
use perps_latency_benchmark.Proxy.Serve.Invariant.{
  serve, Reachable-IsSound, next, fresh, IsSound, Reachable,
}
use perps_latency_benchmark.Proxy.Shape.{
  is_visible_venue_row, filter_bench_json, hidden_venue_set, should_cache_bench_data,
  shape_bench_json, is_samples_path,
}
use perps_latency_benchmark.Proxy.Serve.{
  write_cached_bench_response, cache_request, cache_put, cache_match, read_cached_bench_response,
  proxy_bench_json_with_fallback, Cache,
}
use perps_latency_benchmark.Proxy.Fetch.{answered, fetch_bench_json_with_fallback, Platform}
use perps_latency_benchmark.Prelude.{
  includes_text, ◌===◌, starts_with, ℕ, ◌≡◌, refl, inl, inr, true, false, Option, none, some, List,
  [], ◌∷◌, Text, txt, MemText,
}
use perps_latency_benchmark.Json.{spread, put, get}
use perps_latency_benchmark.Tests.Fixtures.{env, platform}

abbrev path : Text
path = txt "/api/samples?limit=1"

-- The platform answers later requests with an error.
abbrev later : Platform
later = record {
  fetch = λ url authorization. answered 500 none;
  base64 = λ t. t;
  invalid_json = txt "invalid";
}

abbrev second_cache : Cache
second_cache = (proxy_bench_json_with_fallback env platform path [] (some [])).1

itself : (p : Text) → MemText p (path ∷ []) → SamplesBySamples path p
unfolding is_samples_path starts_with
itself p (inl e) = λ h. rw (← e) refl
itself p (inr x) = elim x [ ]

all_samples : (p : Text) → MemText p (path ∷ []) → is_samples_path p ≡ true
unfolding is_samples_path starts_with
all_samples p (inl e) = rw (← e) refl
all_samples p (inr x) = elim x [ ]

reached : Reachable env SamplesBySamples second_cache
reached = next fresh (serve platform path [] itself (some []))

-- A request that finds the path in the cache is not sent to the platform.
second_tests :
    ((proxy_bench_json_with_fallback env later path [] second_cache).0.status ≡ 200)
    × ((proxy_bench_json_with_fallback env later path [] (some [])).0.status ≡ 502)
unfolding proxy_bench_json_with_fallback read_cached_bench_response cache_match cache_put
    cache_request fetch_bench_json_with_fallback ◌===◌ should_cache_bench_data starts_with
    is_samples_path get shape_bench_json filter_bench_json hidden_venue_set put spread
    is_visible_venue_row includes_text write_cached_bench_response
    perps_latency_benchmark.Proxy.Serve.public_site_url perps_latency_benchmark.Prelude.last_unit
second_tests = (refl, refl)

Reachable-IsSound_example : IsSound env SamplesBySamples second_cache
Reachable-IsSound_example = Reachable-IsSound env SamplesBySamples reached

-- A request for a day, which is open to all.
abbrev server : Server
server = record { env = env; platform = platform; session = none; cache = some [] }

abbrev day : Request
day = record { window = some (txt "24h"); limit = whole 5; bucket = none }

day_window :
    resolve_bench_window env none (some (txt "24h"))
    ≡ ok (granted (record { api_window = txt "24h"; window = txt "24h" }))
unfolding resolve_bench_window perps_latency_benchmark.Windows.is_public_window_option
    perps_latency_benchmark.Windows.is_window_option
    perps_latency_benchmark.Windows.bench_window_to_api_param
day_window = refl

routes-StaysReachable_example :
    Ends (StaysReachable server fresh) (get_health server)
    × Ends (StaysReachable server fresh) (get_latest server day)
    × Ends (StaysReachable server fresh) (get_samples server day)
    × Ends (StaysReachable server fresh) (get_latency_series server day)
    × Ends (StaysReachable server fresh) (get_taker_cost_series server day)
    × Ends (StaysReachable server fresh) (get_exchange_tps server day)
routes-StaysReachable_example = routes-StaysReachable server fresh day

routes-HidesSamples_example :
    Ends (HidesSamples server fresh) (get_samples server day)
    × Ends (HidesSamples server fresh) (get_latency_series server day)
    × Ends (HidesSamples server fresh) (get_taker_cost_series server day)
routes-HidesSamples_example =
    routes-HidesSamples server fresh day (record { api_window = txt "24h"; window = txt "24h" })
      day_window
