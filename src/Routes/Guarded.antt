-- ===== src/Routes/Guarded.antt =====
-- Which requests reach the benchmark API (frontend/src/routes/api/bench/*.ts,
-- frontend/src/api/bench-window.server.ts).
use perps_latency_benchmark.Prelude.{◌≡◌, refl, false}
use perps_latency_benchmark.Http.{Outcome, ok, thrown, Response}
use perps_latency_benchmark.Auth.{is_advanced_authenticated}
use perps_latency_benchmark.Windows.{is_public_window_option}
use perps_latency_benchmark.Windows.Access.{
  bench_window_of, resolve_bench_window, resolve_bench_window-Answers, response,
}
use perps_latency_benchmark.Proxy.Serve.{Cache}
use perps_latency_benchmark.Routes.{
  Request, Server, get_samples, get_latency_series, get_taker_cost_series, get_exchange_tps,
}

-- The handler answers 401 and leaves the cache alone: nothing was fetched or read from the cache.
abbrev pub IsDenied : Cache → Outcome (Response × Cache) → Type 0
IsDenied cache (thrown m) = ⊥
IsDenied cache (ok (r, c)) = (r.status ≡ 401) × (c ≡ cache)

module _ (server : Server) (request : Request) where
  denied-response :
      is_public_window_option (bench_window_of request.window) ≡ false
      → is_advanced_authenticated server.env server.session ≡ ok false
      → (r : Response) × (resolve_bench_window server.env server.session request.window
          ≡ ok (response r))
        × (r.status ≡ 401)
  denied-response advanced anonymous =
      let (_, answers) = resolve_bench_window-Answers server.env server.session request.window in
      rw (advanced, anonymous) at answers

  -- A session that is not authenticated gets nothing of an advanced window, from none of the routes
  -- that take one: each answers 401, with the cache as it was.
  pub advanced_window-IsDenied :
      is_public_window_option (bench_window_of request.window) ≡ false
      → is_advanced_authenticated server.env server.session ≡ ok false
      → IsDenied server.cache (get_samples server request)
        × IsDenied server.cache (get_latency_series server request)
        × IsDenied server.cache (get_taker_cost_series server request)
        × IsDenied server.cache (get_exchange_tps server request)
  unfolding get_samples get_latency_series get_taker_cost_series get_exchange_tps
  advanced_window-IsDenied advanced anonymous =
      let (r, e, status) = denied-response advanced anonymous in
      rw e ((status, refl), (status, refl), (status, refl), (status, refl))
