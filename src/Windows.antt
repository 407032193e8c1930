-- ===== src/Windows.antt =====
-- The time windows of the dashboard and the queries of the browser (frontend/src/api/bench.ts), and
-- the translation of a window for the benchmark API (frontend/src/api/bench-window.server.ts).
pub mod Fetch
pub mod Hours
pub mod Access
pub mod Queries
use perps_latency_benchmark.Prelude.{
  ℕ, Bool, true, ◌||◌, Option, none, some, List, [], ◌∷◌, ◌++◌, Text, txt, ◌===◌, includes_text,
  is_blank, not, ◌&&◌, decimal, if◌then◌else◌,
}

abbrev pub public_window_options : List Text
public_window_options = txt "6h" ∷ txt "12h" ∷ txt "24h" ∷ []

abbrev pub advanced_window_options : List Text
advanced_window_options = txt "7d" ∷ txt "30d" ∷ txt "90d" ∷ txt "365d" ∷ []

abbrev pub window_options : List Text
window_options = public_window_options ++ advanced_window_options

abbrev pub public_summary_window_options : List Text
public_summary_window_options = public_window_options ++ txt "all" ∷ []

abbrev pub summary_window_options : List Text
summary_window_options = public_window_options ++ (advanced_window_options ++ txt "all" ∷ [])

abbrev pub default_window : Text
default_window = txt "12h"

abbrev pub default_summary_window : Text
default_summary_window = txt "24h"

abbrev pub exchange_tps_buckets : List Text
exchange_tps_buckets = txt "1m" ∷ txt "1h" ∷ []

abbrev pub default_exchange_tps_bucket : Text
default_exchange_tps_bucket = txt "1m"

abbrev pub exchange_tps_series_limit : ℕ
exchange_tps_series_limit = 100_000

unfoldable pub is_window_option : Text → Bool
unfolding includes_text ◌===◌
is_window_option value = includes_text window_options value

unfoldable pub is_summary_window_option : Text → Bool
unfolding includes_text ◌===◌
is_summary_window_option value = includes_text summary_window_options value

unfoldable pub is_public_window_option : Text → Bool
unfolding includes_text ◌===◌
is_public_window_option value = includes_text public_window_options value

unfoldable pub is_public_summary_window_option : Text → Bool
unfolding includes_text ◌===◌
is_public_summary_window_option value = includes_text public_summary_window_options value

unfoldable pub series_window_limit : Text → ℕ
unfolding is_public_window_option
series_window_limit window = if is_public_window_option window then 10_000 else 100_000

unfoldable pub is_long_chart_window : Text → Bool
unfolding ◌===◌
is_long_chart_window window = window === txt "30d" || window === txt "90d" || window === txt "365d"

unfoldable pub exchange_tps_bucket_for_window : Text → Text
unfolding is_long_chart_window
exchange_tps_bucket_for_window window =
    if is_long_chart_window window then txt "1h" else default_exchange_tps_bucket

unfoldable pub exchange_tps_window_limit : Text → Text → ℕ
exchange_tps_window_limit _window _bucket = exchange_tps_series_limit

unfoldable pub bench_window_to_api_param : Text → Text
unfolding ◌===◌
bench_window_to_api_param window =
    if window === txt "7d"
    then txt "168h"
    else if window === txt "30d"
    then txt "720h"
    else if window === txt "90d"
    then txt "2160h"
    else if window === txt "365d"
    then txt "8760h"
    else window

unfoldable pub summary_window_to_api_param : Text → Text
unfolding bench_window_to_api_param ◌===◌
summary_window_to_api_param window =
    if window === txt "all" then txt "all" else bench_window_to_api_param window

unfoldable pub summary_window_limit : Text → ℕ
unfolding ◌===◌
summary_window_limit window = if window === txt "all" then 1_000_000 else 100_000

-- `value && isOption(value) ? value : default`, for a query parameter that may be missing.
abbrev pub option_or : (Text → Bool) → Text → Option Text → Text
option_or is_option default none = default
option_or is_option default (some value) =
    if not (is_blank value) && is_option value then value else default
