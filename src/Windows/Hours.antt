-- ===== src/Windows/Hours.antt =====
-- The window parameter that the benchmark API is sent (frontend/src/api/bench-window.server.ts).
-- The API reads Go durations, which have no unit for a day.
use perps_latency_benchmark.Prelude.{
  ℕ, ◌+◌, ◌-◌, ◌*◌, ◌≤◌, ◌≡◌, refl, ◌↔◌, Bool, true, false, Option, none, some, [], ◌∷◌, Text, leb,
  arith, ◌&&◌, inl, inr, if◌then◌else◌, MemText, ◌==◌,
}
use perps_latency_benchmark.Windows.{
  window_options, is_public_window_option, bench_window_to_api_param,
}

-- A decimal number of hours or, where days are allowed, of days, as hours.
abbrev duration_from : Bool → ℕ → Text → Option ℕ
duration_from days n [] = none
duration_from days n (c ∷ []) =
    if c == b'h' then some n else if days && c == b'd' then some (24 * n) else none
duration_from days n (c ∷ d ∷ rest) =
    let more = duration_from days (n * 10 + (c - 48)) (d ∷ rest) in
    if leb 48 c && leb c 57 then more else none

-- The hours of a Go duration in whole hours, and those of a window option.
abbrev pub go_hours : Text → Option ℕ
go_hours = duration_from false 0

abbrev pub window_hours : Text → Option ℕ
window_hours = duration_from true 0

-- The parameter is a Go duration of as many hours as the window has, and the windows open to all
-- are those of at most a day.
abbrev pub IsExact : Text → Type 0
IsExact w =
    (hours : ℕ) × (go_hours (bench_window_to_api_param w) ≡ some hours)
    × (window_hours w ≡ some hours)
    × ((is_public_window_option w ≡ true) ↔ (hours ≤ 24))

-- For every window option the API is sent a Go duration of as many hours as the window's name says,
-- and the window is open to all exactly when these are at most a day.
pub bench_window_to_api_param-IsExact : (w : Text) → MemText w window_options → IsExact w
unfolding bench_window_to_api_param is_public_window_option
bench_window_to_api_param-IsExact w (inl e) = rw (← e) (6, refl, refl, ground arith)
bench_window_to_api_param-IsExact w (inr (inl e)) = rw (← e) (12, refl, refl, ground arith)
bench_window_to_api_param-IsExact w (inr (inr (inl e))) = rw (← e) (24, refl, refl, ground arith)
bench_window_to_api_param-IsExact w (inr (inr (inr (inl e)))) =
    rw (← e) (168, refl, refl, ground arith)
bench_window_to_api_param-IsExact w (inr (inr (inr (inr (inl e))))) =
    rw (← e) (720, refl, refl, ground arith)
bench_window_to_api_param-IsExact w (inr (inr (inr (inr (inr (inl e)))))) =
    rw (← e) (2160, refl, refl, ground arith)
bench_window_to_api_param-IsExact w (inr (inr (inr (inr (inr (inr (inl e))))))) =
    rw (← e) (8760, refl, refl, ground arith)
bench_window_to_api_param-IsExact w (inr (inr (inr (inr (inr (inr (inr e))))))) = absurd e
