-- ===== src/Proxy/Serve/Hidden.antt =====
-- No client is sent a sample of a hidden venue, also not from the cache
-- (frontend/src/api/bench.server.ts).
use perps_latency_benchmark.Prelude.{◌≡◌, true, List, ◌∷◌, Text, txt, MemText, inl, inr, subst, sym}
use perps_latency_benchmark.Http.{Env, Response}
use perps_latency_benchmark.Json.{get, lookup}
use perps_latency_benchmark.Prelude.{◌===◌}
use perps_latency_benchmark.Proxy.Shape.{is_samples_path, hidden_venue_set}
use perps_latency_benchmark.Proxy.Shape.Visible.{IsShown, shape_bench_json-IsShown_samples}
use perps_latency_benchmark.Proxy.Fetch.{Platform, FetchError, bench_api_error, other_error}
use perps_latency_benchmark.Proxy.Serve.{
  Cache, proxy_bench_json_with_fallback, bench_api_error_body,
}
use perps_latency_benchmark.Proxy.Serve.Invariant.{Reachable}
use perps_latency_benchmark.Proxy.Serve.Repeat.{IsShaped, served-IsShaped}

-- A path of samples is only ever answered by a path of samples.
abbrev pub SamplesBySamples : Text → Text → Type 0
SamplesBySamples path p = is_samples_path path ≡ true → is_samples_path p ≡ true

error-IsShown :
    (hidden : List Text) (path : Text) (e : FetchError)
    → IsShown hidden (txt "samples") (bench_api_error_body path e)
unfolding bench_api_error_body get lookup ◌===◌
error-IsShown hidden path (bench_api_error q n) rows h = cc
error-IsShown hidden path (other_error m) rows h = cc

-- Whatever was requested, answered and evicted before, what is sent for a path of samples, fresh or
-- from the cache, holds no sample of a hidden venue, as long as paths of samples only fall back to
-- paths of samples.
pub served-IsShown :
    (env : Env) (cache : Cache) (platform : Platform) (path : Text) (fallback : List Text)
    → is_samples_path path ≡ true
    → ((p : Text) → MemText p (path ∷ fallback) → is_samples_path p ≡ true)
    → Reachable env SamplesBySamples cache
    → IsShown
        (hidden_venue_set env)
        (txt "samples")
        (proxy_bench_json_with_fallback env platform path fallback cache).0.body
served-IsShown env cache platform path fallback is all r =
    go _ (served-IsShaped env SamplesBySamples cache platform path fallback (λ p m _. all p m) r)
  where
    go :
        (response : Response)
        → IsShaped env (SamplesBySamples path) response
        → IsShown (hidden_venue_set env) (txt "samples") response.body
    go response (inl (e, p, same)) =
        subst (λ (x : Response). IsShown (hidden_venue_set env) (txt "samples") x.body) (sym same)
          (error-IsShown (hidden_venue_set env) p e)
    go response (inr (p, v, candidate, status, body)) =
        subst (λ x. IsShown (hidden_venue_set env) (txt "samples") x) (sym body)
          (shape_bench_json-IsShown_samples (hidden_venue_set env) p v (candidate is))
