-- ===== src/Proxy/Fetch.antt =====
-- Fetching from the benchmark API, with fallback paths (frontend/src/api/bench.server.ts). The
-- platform's `fetch` and `btoa` are the fields of `Platform`.
pub mod Fallback
use perps_latency_benchmark.Prelude.{
  ◌≡◌, ℕ, Bool, true, false, ◌&&◌, Option, none, some, List, [], ◌∷◌, ◌++◌, Text, txt, leb, ◌==◌,
  length, value_or, ends_with_unit, drop_last, if◌then◌else◌,
}
use perps_latency_benchmark.Json.{Json}
use perps_latency_benchmark.Http.{Outcome, ok, thrown, Env, read_env}

-- What a request is answered: a status and the body's JSON (`none` where the body is no JSON), or an
-- error of the network.
pub data Reply : Type 0 where
  answered : ℕ → Option Json → Reply
  unreachable : Text → Reply

-- `fetch url authorization`, the Base64 of a text, and the message of a body that is no JSON.
pub record Platform : Type 0 where
  pub fetch : Text → Option Text → Reply
  pub base64 : Text → Text
  pub invalid_json : Text

pub data FetchError : Type 0 where
  bench_api_error : (path : Text) (upstream_status : ℕ) → FetchError
  other_error : Text → FetchError

pub data Fetched (A : Type 0) : Type 0 where
  done : A → Fetched A
  failed : FetchError → Fetched A

unfoldable pub trim_trailing_slash : Text → Text
unfolding drop_last
trim_trailing_slash value = if ends_with_unit b'/' value then drop_last value else value

unfoldable pub bench_api_url : Env → Outcome Text
unfolding read_env trim_trailing_slash
bench_api_url env = elim (read_env env (txt "PERPS_BENCH_API_URL")) [
  | none ↦ thrown (txt "PERPS_BENCH_API_URL is not configured")
  | some url ↦ ok (trim_trailing_slash url)
]

module _ (env : Env) (platform : Platform) where
  unfoldable pub bench_api_headers : Option Text
  unfolding read_env
  bench_api_headers = elim (read_env env (txt "PERPS_BENCH_API_PASSWORD")) [
    | none ↦ none
    | some password ↦
        let user = value_or (read_env env (txt "PERPS_BENCH_API_USER")) (txt "bench") in
        some (txt "Basic " ++ platform.base64 (user ++ (b':' ∷ password)))
  ]

  -- `response.ok` is a status from 200 to 299.
  abbrev read_reply : Text → Reply → Fetched Json
  read_reply path (unreachable message) = failed (other_error message)
  read_reply path (answered status body) =
      if leb 200 status && leb status 299
      then elim body [ none ↦ failed (other_error platform.invalid_json) | some v ↦ done v ]
      else failed (bench_api_error path status)

  unfoldable pub fetch_bench_json : Text → Fetched Json
  unfolding bench_api_url bench_api_headers
  fetch_bench_json path = elim (bench_api_url env) [
    | thrown message ↦ failed (other_error message)
    | ok url ↦ read_reply path (platform.fetch (url ++ path) bench_api_headers)
  ]

-- `!(error instanceof BenchAPIError) || error.upstreamStatus !== 404`, negated.
abbrev pub is_not_found : FetchError → Bool
is_not_found (bench_api_error path status) = status == 404
is_not_found (other_error message) = false

-- One round of the loop: return, go on to the next candidate after a 404, or throw.
abbrev pub after_reply :
    Text → Fetched Json → (FetchError → Fetched (Json × Text)) → Fetched (Json × Text)
after_reply candidate (done v) next = done (v, candidate)
after_reply candidate (failed error) next = elim (is_not_found error) [
  | true ↦ next error
  | false ↦ failed error
]

-- The loop over the candidates, by what fetching each gives.
unfoldable pub try_paths : (Text → Fetched Json) → FetchError → List Text → Fetched (Json × Text)
try_paths fetch last [] = failed last
try_paths fetch last (candidate ∷ rest) =
    after_reply candidate (fetch candidate) (λ error. try_paths fetch error rest)

unfoldable pub fetch_bench_json_with_fallback :
    Env → Platform → Text → List Text → Fetched (Json × Text)
unfolding fetch_bench_json try_paths
fetch_bench_json_with_fallback env platform path fallback =
    try_paths (fetch_bench_json env platform) (other_error (txt "undefined")) (path ∷ fallback)

abbrev pub IsNotFound : Fetched Json → Type 0
IsNotFound (done v) = ⊥
IsNotFound (failed error) = is_not_found error ≡ true
