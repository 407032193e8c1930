-- ===== src/Proxy/Serve/Invariant.antt =====
-- What the cache holds, whatever is requested and evicted (frontend/src/api/bench.server.ts).
use perps_latency_benchmark.Prelude.{
  sym, subst, ◌≡◌, refl, inl, inr, Bool, true, Option, none, some, List, [], ◌∷◌, ◌++◌, Text, txt,
  ◌===◌, ===_iff, MemText, All, keep, arith, Bool-cases,
}
use perps_latency_benchmark.Json.{Json}
use perps_latency_benchmark.Http.{Env, Response}
use perps_latency_benchmark.Proxy.Shape.{
  shape_bench_json, should_cache_bench_data, hidden_venue_set,
}
use perps_latency_benchmark.Proxy.Fetch.{
  other_error, fetch_bench_json, Platform, Fetched, done, failed, fetch_bench_json_with_fallback,
}
use perps_latency_benchmark.Proxy.Fetch.Fallback.{try_paths-Answered}
use perps_latency_benchmark.Proxy.Serve.{
  serve_cached, Cache, cache_request, cache_put, json_response, miss, read_cached_bench_response,
  write_cached_bench_response, serve_fetched, proxy_bench_json_with_fallback,
}

-- Which paths may be fetched in the place of which.
abbrev pub Candidates : Type 1
Candidates = Text → Text → Type 0

Mem_text-middle : (p : Text) (before after : List Text) → MemText p (before ++ p ∷ after)
Mem_text-middle p [] after = inl refl
Mem_text-middle p (x ∷ before) after = inr (Mem_text-middle p before after)

module _ (env : Env) (Allowed : Candidates) where
  -- A stored response was made for one path, of an answer to an allowed candidate, and may be
  -- cached.
  pub record IsStored (entry : Text × Response) : Type 0 where
    pub path : Text
    pub fetched_path : Text
    pub answer : Json
    pub url : entry.0 ≡ cache_request env path
    pub candidate : Allowed path fetched_path
    pub response :
        entry.1 ≡ json_response miss (shape_bench_json (hidden_venue_set env) fetched_path answer)
    pub cacheable :
        should_cache_bench_data path (shape_bench_json (hidden_venue_set env) fetched_path answer)
        ≡ true

  abbrev pub IsSound : Cache → Type 0
  IsSound none = Unit
  IsSound (some entries) = All IsStored entries

  All-cache_put :
      (url : Text) (r : Response) (entries : List (Text × Response))
      → IsStored (url, r)
      → All IsStored entries
      → All IsStored (cache_put url r entries)
  unfolding cache_put
  All-cache_put url r [] h k = (h, tt)
  All-cache_put url r ((u, s) ∷ entries) h (k, ks) = elim (Bool-cases (u === url)) [
    | inl e ↦ rw e (rw ((===_iff u url).0 e) (h, ks))
    | inr e ↦ rw e (k, All-cache_put url r entries h ks)
  ]

  All-keep-IsStored :
      (p : Text × Response → Bool) (entries : List (Text × Response))
      → All IsStored entries
      → All IsStored (keep p entries)
  All-keep-IsStored p [] h = tt
  All-keep-IsStored p (e ∷ entries) (h, hs) = ground (arith, All-keep-IsStored p entries)

  write-IsSound :
      (path : Text) (r : Response) (cache : Cache)
      → IsStored (cache_request env path, r)
      → IsSound cache
      → IsSound (write_cached_bench_response env path r cache)
  unfolding write_cached_bench_response
  write-IsSound path r none h k = tt
  write-IsSound path r (some entries) h k = All-cache_put (cache_request env path) r entries h k

  -- What is fetched for a path comes from a candidate that is allowed for it.
  pub fetched-Allowed :
      (platform : Platform) (path : Text) (fallback : List Text)
      → ((p : Text) → MemText p (path ∷ fallback) → Allowed path p)
      → (v : Json) (p : Text)
      → fetch_bench_json_with_fallback env platform path fallback ≡ done (v, p)
      → Allowed path p
  unfolding fetch_bench_json_with_fallback
  fetched-Allowed platform path fallback allowed v p h =
      let a =
        try_paths-Answered (fetch_bench_json env platform) (other_error (txt "undefined"))
          (path ∷ fallback) v p h in
      allowed p (subst (λ ps. MemText p ps) (sym a.in_order) (Mem_text-middle p a.before a.after))

  serve_fetched-IsSound :
      (path : Text) (o : Fetched (Json × Text)) (cache : Cache)
      → ((v : Json) (p : Text) → o ≡ done (v, p) → Allowed path p)
      → IsSound cache
      → IsSound (serve_fetched env path o cache).1
  serve_fetched-IsSound path (failed error) cache h k = k
  serve_fetched-IsSound path (done (v, p)) cache h k =
      let shaped = shape_bench_json (hidden_venue_set env) p v in
      elim (Bool-cases (should_cache_bench_data path shaped)) [
        | inr no' ↦ rw no' k
        | inl yes' ↦ rw yes' (
            write-IsSound path (json_response miss shaped) cache
              (record {
                path = path;
                fetched_path = p;
                answer = v;
                url = refl;
                candidate = h v p refl;
                response = refl;
                cacheable = yes';
              })
              k)
      ]

  serve-IsSound :
      (platform : Platform) (path : Text) (fallback : List Text)
      → ((p : Text) → MemText p (path ∷ fallback) → Allowed path p)
      → (cache : Cache) → IsSound cache
      → IsSound (proxy_bench_json_with_fallback env platform path fallback cache).1
  unfolding proxy_bench_json_with_fallback
  serve-IsSound platform path fallback allowed cache k =
      go (read_cached_bench_response env path cache)
    where
      go : (o : Option Response) → IsSound (serve_cached env platform path fallback cache o).1
      go (some r) = k
      go none =
          serve_fetched-IsSound path _ cache (fetched-Allowed platform path fallback allowed) k

  -- A request, answered by the platform as it likes, or an eviction of any entries.
  pub data CacheStep : Cache → Cache → Type 0 where
    serve :
        (platform : Platform) (path : Text) (fallback : List Text)
        → ((p : Text) → MemText p (path ∷ fallback) → Allowed path p)
        → (cache : Cache)
        → CacheStep cache (proxy_bench_json_with_fallback env platform path fallback cache).1
    evict :
        (kept : Text × Response → Bool) (entries : List (Text × Response))
        → CacheStep (some entries) (some (keep kept entries))

  pub data Reachable : Cache → Type 0 where
    absent : Reachable none
    fresh : Reachable (some [])
    next : {c d : Cache} → Reachable c → CacheStep c d → Reachable d

  step-IsSound : {c d : Cache} → CacheStep c d → IsSound c → IsSound d
  step-IsSound (serve platform path fallback allowed cache) k =
      serve-IsSound platform path fallback allowed cache k
  step-IsSound (evict kept entries) k = All-keep-IsStored kept entries k

  -- Whatever was requested, answered and evicted, every stored response is that of a request: it was
  -- made of an answer to an allowed candidate for the path, without the hidden venues, and passed
  -- the test of what may be cached.
  pub Reachable-IsSound : {c : Cache} → Reachable c → IsSound c
  Reachable-IsSound absent = tt
  Reachable-IsSound fresh = tt
  Reachable-IsSound (next r s) = step-IsSound s (Reachable-IsSound r)
