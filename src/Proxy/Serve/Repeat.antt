-- ===== src/Proxy/Serve/Repeat.antt =====
-- What a request is answered (frontend/src/api/bench.server.ts): from the cache, or freshly.
use perps_latency_benchmark.Prelude.{
  subst, ◌∙◌, sym, ◌≡◌, refl, ap, ◌⊎◌, inl, inr, Option, none, some, List, [], ◌∷◌, Text, txt,
  ◌===◌, ===_iff, MemText, All, Bool-cases,
}
use mathlib.Core.List.{append_cancel_left}
use mathlib.Core.Option.{some-injective}
use perps_latency_benchmark.Json.{Json}
use perps_latency_benchmark.Http.{Env, Response}
use perps_latency_benchmark.Proxy.Shape.{
  shape_bench_json, should_cache_bench_data, hidden_venue_set,
}
use perps_latency_benchmark.Proxy.Fetch.{Platform, FetchError, Fetched, done, failed}
use perps_latency_benchmark.Proxy.Serve.{
  hit_of, Cache, public_site_url, cache_request, cache_match, as_hit, read_cached_bench_response,
  error_response, serve_fetched, proxy_bench_json_with_fallback, serve_cached,
}
use perps_latency_benchmark.Proxy.Serve.Invariant.{
  IsStored, Candidates, Reachable, Reachable-IsSound, fetched-Allowed,
}

-- What a request is answered: an error, or the shaped answer of a candidate path.
abbrev pub IsShaped : Env → (Text → Type 0) → Response → Type 0
IsShaped env IsCandidate r =
    ((e : FetchError) × (path : Text) × (r ≡ error_response path e))
    ⊎ ((p : Text) × (v : Json) × IsCandidate p
        × (r.status ≡ 200)
        × (r.body ≡ shape_bench_json (hidden_venue_set env) p v))

cache_request_injective :
    (env : Env) (p q : Text) → cache_request env p ≡ cache_request env q → p ≡ q
unfolding cache_request
cache_request_injective env p q h =
    append_cancel_left (txt "/__bench-api-cache") p q
      (append_cancel_left (public_site_url env) _ _ h)

module _ (env : Env) (Allowed : Candidates) where
  cache_match-IsShaped :
      (path : Text) (entries : List (Text × Response)) (r : Response)
      → All (IsStored env Allowed) entries
      → cache_match (cache_request env path) entries ≡ some r
      → IsShaped env (Allowed path) (as_hit r)
  unfolding cache_match
  cache_match-IsShaped path [] r k h = cc
  cache_match-IsShaped path ((u, s) ∷ entries) r (k, ks) h =
      elim (Bool-cases (u === cache_request env path)) [
        | inr e ↦ cache_match-IsShaped path entries r ks (rw e at h)
        | inl e ↦
            let same : k.path ≡ path =
              cache_request_injective env k.path path (sym k.url ∙ (===_iff u _).0 e) in
            let kept : s ≡ r = some-injective _ _ (rw e at h) in
            inr (
              k.fetched_path,
              k.answer,
              subst (λ p. Allowed p k.fetched_path) same k.candidate,
              ap (λ (x : Response). x.status) (sym kept ∙ k.response),
              ap (λ (x : Response). x.body) (sym kept ∙ k.response),
            )
      ]

  serve_fetched-IsShaped :
      (path : Text) (o : Fetched (Json × Text)) (cache : Cache)
      → ((v : Json) (p : Text) → o ≡ done (v, p) → Allowed path p)
      → IsShaped env (Allowed path) (serve_fetched env path o cache).0
  serve_fetched-IsShaped path (failed e) cache h = inl (e, path, refl)
  serve_fetched-IsShaped path (done (v, p)) cache h =
      elim (Bool-cases
        (should_cache_bench_data path (shape_bench_json (hidden_venue_set env) p v))) [
          | inl yes' ↦ rw yes' (inr (p, v, h v p refl, refl, refl))
          | inr no' ↦ rw no' (inr (p, v, h v p refl, refl, refl))
        ]

  -- Whatever was requested, answered and evicted before, a request is answered an error or, fresh or
  -- from the cache, the shaped answer of an allowed candidate for its path.
  pub served-IsShaped :
      (cache : Cache) (platform : Platform) (path : Text) (fallback : List Text)
      → ((p : Text) → MemText p (path ∷ fallback) → Allowed path p)
      → Reachable env Allowed cache
      → IsShaped env
          (Allowed path)
          (proxy_bench_json_with_fallback env platform path fallback cache).0
  unfolding proxy_bench_json_with_fallback
  served-IsShaped none platform path fallback allowed r =
      unfold read_cached_bench_response in
      serve_fetched-IsShaped path _ none
        (fetched-Allowed env Allowed platform path fallback allowed)
  served-IsShaped (some entries) platform path fallback allowed r =
      unfold read_cached_bench_response in go (cache_match (cache_request env path) entries) refl
    where
      go :
          (o : Option Response)
          → cache_match (cache_request env path) entries ≡ o
          → IsShaped env
              (Allowed path)
              (serve_cached env platform path fallback (some entries) (hit_of o)).0
      go none e =
          serve_fetched-IsShaped path _ (some entries)
            (fetched-Allowed env Allowed platform path fallback allowed)
      go (some s) e = cache_match-IsShaped path entries s (Reachable-IsSound env Allowed r) e
