-- ===== src/Routes/Export.antt =====
-- The handler of the CSV export (frontend/src/routes/api/bench/exchange-tps-export.ts). The answer of
-- the benchmark API is taken to be of the type that the source casts it to: `fetch` is `fetchBenchJSON`
-- at that type, and `show` prints a number.
use perps_latency_benchmark.Csv.{selected_venues, filtered_series, exchange_tps_csv}
use perps_latency_benchmark.Auth.{is_advanced_authenticated, Session}
use perps_latency_benchmark.Windows.{
  is_public_window_option, exchange_tps_window_limit, exchange_tps_bucket_for_window,
}
use perps_latency_benchmark.Windows.Access.{
  resolve_bench_window-Answers, bench_window_of, granted, response, resolve_bench_window, Resolved,
  BenchWindow,
}
use perps_latency_benchmark.Proxy.Fetch.{
  failed, other_error, done, bench_api_error, Fetched, FetchError,
}
use perps_latency_benchmark.Prelude.{ap, ◌≡◌, false, Option, ◌++◌, Text, txt, decimal}
use perps_latency_benchmark.Http.{Outcome, ok, thrown, ◌>>=◌, Env, Response}
use perps_latency_benchmark.Data.{ExchangeTpsResponse}

-- A file to download; its type is text/csv in UTF-8.
pub record FileReply : Type 0 where
  pub filename : Text
  pub content : Text

-- The message of a failed fetch.
abbrev pub error_message : FetchError → Text
error_message (bench_api_error path status) =
    txt "Benchmark API request failed with status " ++ decimal status
error_message (other_error message) = message

abbrev pub fetched_or_thrown : {A : Type 0} → Fetched A → Outcome A
fetched_or_thrown (done a) = ok a
fetched_or_thrown (failed error) = thrown (error_message error)

abbrev pub export_path : BenchWindow → Text
export_path w =
    let bucket = exchange_tps_bucket_for_window w.window in
    txt "/api/exchange-tps?window="
    ++ (w.api_window
        ++ (txt "&bucket="
            ++ (bucket ++ (txt "&limit=" ++ decimal (exchange_tps_window_limit w.window bucket)))))

abbrev pub export_filename : BenchWindow → Text
export_filename w =
    txt "exchange-tps-"
    ++ (w.window ++ (txt "-" ++ (exchange_tps_bucket_for_window w.window ++ txt ".csv")))

module _ {N : Type 0} (show : N → Text) (fetch : Text → Fetched (ExchangeTpsResponse N)) (env : Env)
    (session : Session) where
  -- The file for a window that was granted, by the venues that are selected.
  abbrev pub export_file : Option Text → BenchWindow → Outcome FileReply
  export_file venues w = fetched_or_thrown (fetch (export_path w)) >>= λ data'. ok (record {
    filename = export_filename w;
    content = exchange_tps_csv show (filtered_series (selected_venues venues) data'.series);
  })

  abbrev pub export_resolved : Option Text → Resolved BenchWindow → Outcome (Resolved FileReply)
  export_resolved venues (response r) = ok (response r)
  export_resolved venues (granted w) = export_file venues w >>= λ file. ok (granted file)

  unfoldable pub get_exchange_tps_export :
      (window venues : Option Text) → Outcome (Resolved FileReply)
  get_exchange_tps_export window venues =
      resolve_bench_window env session window >>= export_resolved venues

  -- A session that is not authenticated is answered 401 for an advanced window, whatever venues it
  -- selects and whatever the API would answer.
  pub get_exchange_tps_export-IsDenied :
      (window venues : Option Text)
      → is_public_window_option (bench_window_of window) ≡ false
      → is_advanced_authenticated env session ≡ ok false
      → (r : Response) × (get_exchange_tps_export window venues ≡ ok (response r))
        × (r.status ≡ 401)
  unfolding get_exchange_tps_export
  get_exchange_tps_export-IsDenied window venues advanced anonymous =
      let (_, answers) = resolve_bench_window-Answers env session window in
      let (r, e, status) = rw (advanced, anonymous) at answers in
      (r, ap (λ o. o >>= export_resolved venues) e, status)
