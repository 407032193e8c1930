-- ===== src/Tests/Access.antt =====
-- Who may see what (frontend/src/api/advanced-auth.server.ts, frontend/src/api/bench-window.server.ts,
-- frontend/src/routes/api/bench/*.ts), at a configured server.
use perps_latency_benchmark.Numbers.Integers.{ℤ}
use perps_latency_benchmark.Data.{ExchangeTpsResponse}
use perps_latency_benchmark.Proxy.Fetch.{done, Fetched}
use perps_latency_benchmark.Json.{lookup, get}
use perps_latency_benchmark.Auth.Compare.{constant_time_equal_iff}
use perps_latency_benchmark.Http.{ok, read_env}
use perps_latency_benchmark.Routes.Guarded.{advanced_window-IsDenied, IsDenied}
use perps_latency_benchmark.Windows.{is_window_option, is_public_window_option}
use perps_latency_benchmark.Routes.{
  get_exchange_tps, get_taker_cost_series, get_latency_series, get_samples, other, Request, Server,
}
use perps_latency_benchmark.Windows.Access.{bench_window_of}
use perps_latency_benchmark.Windows.Hours.{bench_window_to_api_param-IsExact, IsExact}
use perps_latency_benchmark.Auth.Grants.{run_auth-GrantedBy, GrantedBy}
use perps_latency_benchmark.Auth.{
  advanced_auth_configured, fallback_dev_secret, password_of, advanced_session_config,
  is_advanced_authenticated, create_advanced_logout_response, create_advanced_login_response,
  constant_time_equal,
}
use perps_latency_benchmark.Auth.Sessions.{logout, status, login, handle_auth, run_auth}
use perps_latency_benchmark.Prelude.{
  Text, is_space, trim_start, trim, ◌===◌, includes_text, ◌≡◌, refl, ◌↔◌, inl, inr, none, some,
  true, false, [], ◌∷◌, txt,
}
use perps_latency_benchmark.Tests.Fixtures.{tps_row, env, platform, login_body}

-- Bodies, by the session that they leave.
run_auth_tests :
    (run_auth env none (login (login_body (txt "hunter2")) ∷ status ∷ []) ≡ some true)
    × (run_auth env none (login (login_body (txt "hunter")) ∷ []) ≡ none)
    × (run_auth env none (login none ∷ []) ≡ none)
    × (run_auth env none (login (login_body (txt "hunter2")) ∷ logout ∷ []) ≡ none)
unfolding run_auth handle_auth create_advanced_login_response create_advanced_logout_response
    read_env trim trim_start is_space password_of get lookup ◌===◌ constant_time_equal
    advanced_session_config fallback_dev_secret advanced_auth_configured
run_auth_tests = (refl, refl, refl, refl)

constant_time_equal_iff_example :
    (constant_time_equal (txt "hunter2") (txt "hunter2") ≡ true) ↔ (txt "hunter2" ≡ txt "hunter2")
constant_time_equal_iff_example = constant_time_equal_iff (txt "hunter2") (txt "hunter2")

run_auth-GrantedBy_example : GrantedBy env (login (login_body (txt "hunter2")) ∷ status ∷ [])
run_auth-GrantedBy_example =
    run_auth-GrantedBy env (login (login_body (txt "hunter2")) ∷ status ∷ []) (run_auth_tests.0)

bench_window_to_api_param-IsExact_example : IsExact (txt "7d")
bench_window_to_api_param-IsExact_example =
    bench_window_to_api_param-IsExact (txt "7d") (inr (inr (inr (inl refl))))

-- An anonymous request for a week.
abbrev server : Server
server = record { env = env; platform = platform; session = none; cache = some [] }

abbrev week : Request
week = record { window = some (txt "7d"); limit = other; bucket = none }

week_tests :
    (is_public_window_option (bench_window_of (some (txt "7d"))) ≡ false)
    × (is_advanced_authenticated env none ≡ ok false)
unfolding is_public_window_option is_window_option includes_text ◌===◌ is_advanced_authenticated
    advanced_session_config read_env trim trim_start is_space
week_tests = (refl, refl)

advanced_window-IsDenied_example :
    IsDenied (some []) (get_samples server week)
    × IsDenied (some []) (get_latency_series server week)
    × IsDenied (some []) (get_taker_cost_series server week)
    × IsDenied (some []) (get_exchange_tps server week)
advanced_window-IsDenied_example =
    advanced_window-IsDenied server week (week_tests.0) (week_tests.1)

-- The API answers every path with one row of throughput.
abbrev tps_answer : Text → Fetched (ExchangeTpsResponse ℤ)
tps_answer p = done (record {
  updated_at = txt "now";
  bucket = txt "1m";
  window = txt "24h";
  series = tps_row ∷ [];
  sources = [];
})
