-- ===== src/Routes/Hidden.antt =====
-- The routes keep the cache reachable and send no sample of a hidden venue
-- (frontend/src/routes/api/bench/*.ts).
use perps_latency_benchmark.Prelude.{
  ℕ, ◌≡◌, refl, true, List, [], ◌∷◌, Text, txt, MemText, inl, inr,
}
use perps_latency_benchmark.Http.{Outcome, ok, thrown, ◌>>=◌, Response}
use perps_latency_benchmark.Windows.Access.{
  BenchWindow, Resolved, granted, response, resolve_bench_window, resolve_summary_window,
}
use perps_latency_benchmark.Proxy.Shape.{is_samples_path, hidden_venue_set}
use perps_latency_benchmark.Proxy.Shape.Visible.{IsShown}
use perps_latency_benchmark.Proxy.Serve.{Cache, proxy_bench_json, proxy_bench_json_with_fallback}
use perps_latency_benchmark.Proxy.Serve.Invariant.{Reachable, next, serve}
use perps_latency_benchmark.Proxy.Serve.Hidden.{SamplesBySamples, served-IsShown}
use perps_latency_benchmark.Routes.{
  Request, Server, query_path, if_granted, get_health, get_latest, get_samples, get_latency_series,
  get_taker_cost_series, get_exchange_tps,
}

-- What holds of an answer, whether it was made or an error was thrown.
abbrev pub Ends : (Response → Cache → Type 0) → Outcome (Response × Cache) → Type 0
Ends P (thrown m) = Unit
Ends P (ok (r, c)) = P r c

Ends-granted :
    {A : Type 0} (P : Response → Cache → Type 0) (cache : Cache) (handle : A → Response × Cache)
    → ((r : Response) → P r cache)
    → ((w : A) → P (handle w).0 (handle w).1)
    → (o : Outcome (Resolved A)) → Ends P (o >>= λ resolved. ok (if_granted cache handle resolved))
Ends-granted P cache handle denied served (thrown m) = tt
Ends-granted P cache handle denied served (ok (response r)) = denied r
Ends-granted P cache handle denied served (ok (granted w)) = served w

AllSamples : List Text → Type 0
AllSamples paths = (p : Text) → MemText p paths → is_samples_path p ≡ true

samples-AllSamples :
    (window : Text) (limit : ℕ)
    → AllSamples (
        query_path (txt "/api/dashboard/samples") window limit
        ∷ query_path (txt "/api/samples") window limit
        ∷ [])
unfolding AllSamples is_samples_path
samples-AllSamples window limit p (inl e) = rw (← e) refl
samples-AllSamples window limit p (inr (inl e)) = rw (← e) refl
samples-AllSamples window limit p (inr (inr e)) = absurd e

series-AllSamples :
    (base window : Text) (limit : ℕ)
    → is_samples_path (query_path base window limit) ≡ true
    → AllSamples (
        query_path base window limit
        ∷ query_path (txt "/api/dashboard/samples") window limit
        ∷ query_path (txt "/api/samples") window limit
        ∷ [])
unfolding AllSamples
series-AllSamples base window limit is p (inl e) = rw (← e) is
series-AllSamples base window limit is p (inr m) = samples-AllSamples window limit p m

latency-AllSamples :
    (window : Text) (limit : ℕ)
    → AllSamples (
        query_path (txt "/api/dashboard/latency-series") window limit
        ∷ query_path (txt "/api/dashboard/samples") window limit
        ∷ query_path (txt "/api/samples") window limit
        ∷ [])
unfolding is_samples_path
latency-AllSamples window limit =
    series-AllSamples (txt "/api/dashboard/latency-series") window limit refl

taker-AllSamples :
    (window : Text) (limit : ℕ)
    → AllSamples (
        query_path (txt "/api/dashboard/taker-cost-series") window limit
        ∷ query_path (txt "/api/dashboard/samples") window limit
        ∷ query_path (txt "/api/samples") window limit
        ∷ [])
unfolding is_samples_path
taker-AllSamples window limit =
    series-AllSamples (txt "/api/dashboard/taker-cost-series") window limit refl

module _ (server : Server) (reached : Reachable server.env SamplesBySamples server.cache) where
  open server use {env, platform, session, cache}

  abbrev pub StaysReachable : Response → Cache → Type 0
  StaysReachable r c = Reachable env SamplesBySamples c

  proxy-StaysReachable :
      (path : Text) → Reachable env SamplesBySamples (proxy_bench_json env platform path cache).1
  unfolding proxy_bench_json
  proxy-StaysReachable path = next reached (serve platform path [] (λ p m h. only p m h) cache)
    where
      only :
          (p : Text)
          → MemText p (path ∷ [])
          → is_samples_path path ≡ true
          → is_samples_path p ≡ true
      only p (inl e) h = rw (← e) h
      only p (inr e) h = absurd e

  fallback-StaysReachable :
      (path : Text) (fallback : List Text)
      → AllSamples (path ∷ fallback)
      → Reachable env SamplesBySamples
          (proxy_bench_json_with_fallback env platform path fallback cache).1
  unfolding AllSamples
  fallback-StaysReachable path fallback all =
      next reached (serve platform path fallback (λ p m h. all p m) cache)

  -- Every route leaves a cache that can be reached, so what holds of reachable caches holds for good.
  pub routes-StaysReachable :
      (request : Request)
      → Ends StaysReachable (get_health server)
        × Ends StaysReachable (get_latest server request)
        × Ends StaysReachable (get_samples server request)
        × Ends StaysReachable (get_latency_series server request)
        × Ends StaysReachable (get_taker_cost_series server request)
        × Ends StaysReachable (get_exchange_tps server request)
  unfolding get_health get_latest get_samples get_latency_series get_taker_cost_series
      get_exchange_tps
  routes-StaysReachable request = (
    proxy-StaysReachable (txt "/api/health"),
    Ends-granted StaysReachable cache _ (λ r. reached) (λ w. proxy-StaysReachable _)
        (resolve_summary_window env session request.window),
    Ends-granted StaysReachable cache _ (λ r. reached)
        (λ w. fallback-StaysReachable _ _ (samples-AllSamples w.api_window _))
        (resolve_bench_window env session request.window),
    Ends-granted StaysReachable cache _ (λ r. reached)
        (λ w. fallback-StaysReachable _ _ (latency-AllSamples w.api_window _))
        (resolve_bench_window env session request.window),
    Ends-granted StaysReachable cache _ (λ r. reached)
        (λ w. fallback-StaysReachable _ _ (taker-AllSamples w.api_window _))
        (resolve_bench_window env session request.window),
    Ends-granted StaysReachable cache _ (λ r. reached) (λ w. proxy-StaysReachable _)
        (resolve_bench_window env session request.window),
  )

  abbrev pub HidesSamples : Response → Cache → Type 0
  HidesSamples r c = IsShown (hidden_venue_set env) (txt "samples") r.body

  fallback-HidesSamples :
      (path : Text) (fallback : List Text)
      → AllSamples (path ∷ fallback)
      → IsShown
          (hidden_venue_set env)
          (txt "samples")
          (proxy_bench_json_with_fallback env platform path fallback cache).0.body
  unfolding AllSamples
  fallback-HidesSamples path fallback all =
      served-IsShown env cache platform path fallback (all path (inl refl)) all reached

  -- From a cache that any requests and evictions led to, the three routes of samples answer a window
  -- that was granted with no sample of a hidden venue, fresh, cut down or from the cache.
  pub routes-HidesSamples :
      (request : Request) (w : BenchWindow)
      → resolve_bench_window env session request.window ≡ ok (granted w)
      → Ends HidesSamples (get_samples server request)
        × Ends HidesSamples (get_latency_series server request)
        × Ends HidesSamples (get_taker_cost_series server request)
  unfolding get_samples get_latency_series get_taker_cost_series
  routes-HidesSamples request w e = rw e (
    fallback-HidesSamples _ _ (samples-AllSamples w.api_window _),
    fallback-HidesSamples _ _ (latency-AllSamples w.api_window _),
    fallback-HidesSamples _ _ (taker-AllSamples w.api_window _),
  )
