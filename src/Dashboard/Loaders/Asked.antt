-- ===== src/Dashboard/Loaders/Asked.antt =====
-- The server's answer to the windows that the page offers for its exports, and what the exports hold: the
-- load functions of frontend/src/components/dashboard/dashboard-page.tsx against
-- frontend/src/routes/api/bench/latency-series.ts and taker-cost-series.ts.
use perps_latency_benchmark.Prelude.{
  ◌≡◌, refl, ap, true, false, not, ◌&&◌, none, some, List, [], ◌∷◌, keep, Text, txt,
}
use perps_latency_benchmark.Prelude.{includes_text_iff, MemText}
use perps_latency_benchmark.Http.{Outcome, ok, thrown, ◌>>=◌, Response}
use perps_latency_benchmark.Data.{Sample, SamplesResponse}
use perps_latency_benchmark.Auth
use perps_latency_benchmark.Windows.{
  public_window_options, is_public_window_option, bench_window_to_api_param,
}
use perps_latency_benchmark.Windows.Access.{BenchWindow, granted, resolve_bench_window}
use perps_latency_benchmark.Windows.Fetch.{Reply}
use perps_latency_benchmark.TakerCost.{is_taker_order}
use perps_latency_benchmark.Proxy.Serve.{proxy_bench_json_with_fallback, Cache}
use perps_latency_benchmark.Routes.{
  if_granted, Server, Request, whole, query_path, safe_limit, get_latency_series,
  get_taker_cost_series,
}
use perps_latency_benchmark.Dashboard.{
  Dashboard, is_batch, is_post_only_order, visible_samples, filter_samples,
  post_only_source_samples, batch_post_only_source_samples, taker_source_samples,
  CancelChartScenario, single, batch, is_advanced_authenticated, offered_windows, post_only_samples,
  batch_post_only_samples, taker_samples, taker_cost_samples, cancel_samples,
}
use perps_latency_benchmark.Dashboard.Session.{offered-IsKnown}
use perps_latency_benchmark.Dashboard.Served.{needs_session, resolve-granted}
use perps_latency_benchmark.Dashboard.Loaders.{
  series_url, fetch_dashboard_json, load_latency_export_samples, load_post_only_export_samples,
  load_batch_post_only_export_samples, load_taker_export_samples, load_cancel_export_samples,
  load_taker_cost_export_samples,
}

-- A window that is offered without a session is open to all.
offered-IsPublic :
    (d : Dashboard) (window : Text)
    → MemText window (offered_windows d)
    → is_advanced_authenticated d ≡ false
    → is_public_window_option window ≡ true
unfolding is_public_window_option
offered-IsPublic d window h e = (includes_text_iff public_window_options window).1 (rw e at h)

-- The request of `?window=${window}&limit=100000`.
abbrev pub export_request : Text → Request
export_request window = record { window = some window; limit = whole 100_000; bucket = none }

-- The two routes that the exports ask answer a request with the limit of 100,000 by asking the benchmark
-- service for the window and all of that limit.
abbrev pub IsAsked : Server → Text → Text → Outcome (Response × Cache) → Type 0
IsAsked server base window answer =
    answer
    ≡ ok (
        proxy_bench_json_with_fallback server.env server.platform
          (query_path base (bench_window_to_api_param window) 100_000)
          (query_path (txt "/api/dashboard/samples") (bench_window_to_api_param window) 100_000
            ∷ query_path (txt "/api/samples") (bench_window_to_api_param window) 100_000
            ∷ [])
          server.cache)

series-IsAsked :
    (server : Server) (window base : Text) (serve : Request → Outcome (Response × Cache))
    → ((request : Request)
        → serve request ≡ (
            resolve_bench_window server.env server.session request.window >>= λ resolved. ok (
              if_granted server.cache
                (λ (w : BenchWindow).
                  proxy_bench_json_with_fallback server.env server.platform
                    (query_path base w.api_window (safe_limit 100_000 2000 request.limit))
                    (query_path
                        (txt "/api/dashboard/samples")
                        w.api_window
                        (safe_limit 100_000 2000 request.limit)
                      ∷ query_path
                          (txt "/api/samples")
                          w.api_window
                          (safe_limit 100_000 2000 request.limit)
                      ∷ [])
                    server.cache)
                resolved)))
    → resolve_bench_window server.env server.session (some window)
      ≡ ok (granted record { api_window = bench_window_to_api_param window; window = window })
    → IsAsked server base window (serve (export_request window))
unfolding safe_limit
series-IsAsked server window base serve e g = rw (e (export_request window), g) refl

-- Every window that the page offers for an export is granted by the two routes of samples, if the server
-- takes the session to be authenticated where the page does, and the benchmark service is asked for 100,000
-- samples of it, the limit that the exports ask for.
pub offered-IsAsked :
    (server : Server) (d : Dashboard) (window : Text)
    → (is_advanced_authenticated d ≡ true
        → Auth.is_advanced_authenticated server.env server.session ≡ ok true)
    → MemText window (offered_windows d)
    → IsAsked server
        (txt "/api/dashboard/latency-series")
        window
        (get_latency_series server (export_request window))
      × IsAsked server
          (txt "/api/dashboard/taker-cost-series")
          window
          (get_taker_cost_series server (export_request window))
unfolding get_latency_series get_taker_cost_series
offered-IsAsked server d window h m =
    let g =
      resolve-granted server.env server.session window (offered-IsKnown d window m)
        (needs_session (is_advanced_authenticated d) _ _ h (offered-IsPublic d window m)) in
    (
      series-IsAsked server window (txt "/api/dashboard/latency-series") (get_latency_series server)
          (λ request. refl) g,
      series-IsAsked server window (txt "/api/dashboard/taker-cost-series")
          (get_taker_cost_series server) (λ request. refl) g,
    )

module _ {N : Type 0} (fetch : Text → Outcome (Reply (SamplesResponse N))) (d : Dashboard)
    (window : Text) where
  -- The samples of the answer to a request, or its error.
  abbrev samples_of : Text → (List (Sample N) → List (Sample N)) → Outcome (List (Sample N))
  samples_of base shown =
      fetch_dashboard_json fetch (series_url base window) >>= λ answer. ok (shown answer.samples)

  then-then :
      (o : Outcome (SamplesResponse N)) (f g h : List (Sample N) → List (Sample N))
      → ((samples : List (Sample N)) → g (f samples) ≡ h samples)
      → (o >>= (λ answer. ok (f answer.samples)) >>= λ samples. ok (g samples))
        ≡ (o >>= λ answer. ok (h answer.samples))
  then-then (ok answer) f g h e = ap ok (e answer.samples)
  then-then (thrown message) f g h e = refl

  load_post_only-chart :
      load_post_only_export_samples fetch d.filters window
      ≡ samples_of (txt "/api/bench/latency-series") (post_only_samples d)
  unfolding load_post_only_export_samples load_latency_export_samples post_only_samples
      post_only_source_samples
  load_post_only-chart =
      then-then (fetch_dashboard_json fetch (series_url (txt "/api/bench/latency-series") window))
        visible_samples
        (λ samples.
          filter_samples d.filters
            (keep (λ (s : Sample N). not (is_batch s) && is_post_only_order s.order_type) samples))
        (post_only_samples d) (λ samples. refl)

  load_batch-chart :
      load_batch_post_only_export_samples fetch d.filters window
      ≡ samples_of (txt "/api/bench/latency-series") (batch_post_only_samples d)
  unfolding load_batch_post_only_export_samples load_latency_export_samples batch_post_only_samples
      batch_post_only_source_samples
  load_batch-chart =
      then-then (fetch_dashboard_json fetch (series_url (txt "/api/bench/latency-series") window))
        visible_samples
        (λ samples.
          filter_samples d.filters
            (keep (λ (s : Sample N). is_batch s && is_post_only_order s.order_type) samples))
        (batch_post_only_samples d) (λ samples. refl)

  load_taker-chart :
      load_taker_export_samples fetch d.filters window
      ≡ samples_of (txt "/api/bench/latency-series") (taker_samples d)
  unfolding load_taker_export_samples load_latency_export_samples taker_samples taker_source_samples
  load_taker-chart =
      then-then (fetch_dashboard_json fetch (series_url (txt "/api/bench/latency-series") window))
        visible_samples
        (λ samples.
          filter_samples d.filters (keep (λ (s : Sample N). is_taker_order s.order_type) samples))
        (taker_samples d) (λ samples. refl)

  load_cancel-chart :
      (scenario : CancelChartScenario)
      → d.cancel_chart_scenario ≡ scenario
      → load_cancel_export_samples fetch scenario d.filters window
        ≡ samples_of (txt "/api/bench/latency-series") (cancel_samples d)
  unfolding load_cancel_export_samples cancel_samples
  load_cancel-chart batch e = rw e load_batch-chart
  load_cancel-chart single e = rw e load_post_only-chart

  -- Each export holds what its chart shows of the samples that the answer has, and fails where the request
  -- fails.
  exports-charts :
      (load_post_only_export_samples fetch d.filters window
        ≡ samples_of (txt "/api/bench/latency-series") (post_only_samples d))
      × (load_batch_post_only_export_samples fetch d.filters window
          ≡ samples_of (txt "/api/bench/latency-series") (batch_post_only_samples d))
      × (load_taker_export_samples fetch d.filters window
          ≡ samples_of (txt "/api/bench/latency-series") (taker_samples d))
      × (load_cancel_export_samples fetch d.cancel_chart_scenario d.filters window
          ≡ samples_of (txt "/api/bench/latency-series") (cancel_samples d))
      × (load_taker_cost_export_samples fetch d.filters window
          ≡ samples_of (txt "/api/bench/taker-cost-series") (taker_cost_samples d))
  unfolding load_taker_cost_export_samples taker_cost_samples
  exports-charts = (
    load_post_only-chart,
    load_batch-chart,
    load_taker-chart,
    load_cancel-chart d.cancel_chart_scenario refl,
    refl,
  )
