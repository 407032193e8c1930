-- ===== src/Windows/Queries.antt =====
-- The queries of the browser and their cache keys (frontend/src/api/bench.ts). The query client
-- keeps one result for each key.
use perps_latency_benchmark.Prelude.{
  ℕ, ◌≡◌, Option, none, some, List, [], ◌∷◌, ◌++◌, Text, txt, decimal, arith,
}
use perps_latency_benchmark.Windows.{series_window_limit, exchange_tps_window_limit}

-- One constructor for each function `…QueryOptions`.
pub data Query : Type 0 where
  health advanced_auth_session : Query
  latest samples latency_series taker_cost_series : Text → Query
  exchange_tps : (window bucket : Text) → Query

pub record QueryOptions : Type 0 where
  pub query_key : List Text
  pub path : Text
  pub refetch_interval : Option ℕ
  pub stale_time : Option ℕ

abbrev series_path : Text → Text → ℕ → Text
series_path name window limit =
    txt "/api/bench/" ++ (name ++ (txt "?window=" ++ (window ++ (txt "&limit=" ++ decimal limit))))

unfoldable pub query_options : Query → QueryOptions
query_options health = record {
  query_key = txt "bench-health" ∷ [];
  path = txt "/api/bench/health";
  refetch_interval = some 10_000;
  stale_time = none;
}
query_options advanced_auth_session = record {
  query_key = txt "bench-advanced-auth-session" ∷ [];
  path = txt "/api/bench/auth/session";
  refetch_interval = none;
  stale_time = some 60_000;
}
query_options (latest window) = record {
  query_key = txt "bench-latest" ∷ window ∷ [];
  path = txt "/api/bench/latest?window=" ++ window;
  refetch_interval = some 5_000;
  stale_time = none;
}
query_options (samples window) = record {
  query_key = txt "bench-samples" ∷ window ∷ [];
  path = series_path (txt "samples") window 10_000;
  refetch_interval = some 30_000;
  stale_time = some 20_000;
}
query_options (latency_series window) = record {
  query_key = txt "bench-latency-series" ∷ window ∷ [];
  path = series_path (txt "latency-series") window (series_window_limit window);
  refetch_interval = some 30_000;
  stale_time = some 20_000;
}
query_options (taker_cost_series window) = record {
  query_key = txt "bench-taker-cost-series" ∷ window ∷ [];
  path = series_path (txt "taker-cost-series") window (series_window_limit window);
  refetch_interval = some 30_000;
  stale_time = some 20_000;
}
query_options (exchange_tps window bucket) = record {
  query_key = txt "bench-exchange-tps" ∷ window ∷ bucket ∷ [];
  path =
      txt "/api/bench/exchange-tps?window="
      ++ (window
          ++ (txt "&bucket="
              ++ (bucket ++ (txt "&limit=" ++ decimal (exchange_tps_window_limit window bucket)))));
  refetch_interval = some 30_000;
  stale_time = some 20_000;
}

-- A key determines the request: two queries that share a cached result are the same query.
pub query_options-query_key_injective :
    (p q : Query) → (query_options p).query_key ≡ (query_options q).query_key → p ≡ q
unfolding query_options
query_options-query_key_injective p q h = ground arith
