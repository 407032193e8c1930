-- ===== src/Tests/Pages.antt =====
-- What the page and the latency chart show (frontend/src/components/dashboard/dashboard-page.tsx,
-- frontend/src/components/charts/latency-timeseries-chart.tsx), at a few samples and choices.
use perps_latency_benchmark.Prelude.{
  ℕ, ◌≤◌, ◌≡◌, refl, inl, inr, Bool, true, false, ◌&&◌, none, some, List, [], ◌∷◌, ◌++◌, map, arith,
  length, keep, All, txt,
}
use mathlib.Core.List.{Perm}
use mathlib.Core.Option
use perps_latency_benchmark.Prelude.Sorting.{IsSorted}
use perps_latency_benchmark.Data.{Sample, SummaryRow}
use perps_latency_benchmark.Numbers.Integers.{ℤ, pos, integers, ℤ-IsOrdered}
use perps_latency_benchmark.Chart.{Point, of_sample, not_after}
use perps_latency_benchmark.Chart.Trend.{Trend, rolling_trend}
use perps_latency_benchmark.Chart.Trend.Reference.{reference_trend, rolling_trend-reference}
use perps_latency_benchmark.Chart.Trend.Length.{rolling_trend-length}
use perps_latency_benchmark.Dashboard.{
  is_advanced_authenticated, Dashboard, initial_dashboard, run_effects, post_only_samples,
  batch_post_only_samples, taker_samples, is_post_only_order, with_windows,
}
use perps_latency_benchmark.Dashboard.Session.{
  Reachable, opened, drawn, choose_window, session_answered,
}
use perps_latency_benchmark.Dashboard.Served.{IsServed, Reachable-IsServed}
use perps_latency_benchmark.Dashboard.Selection.{charts-partition, is_shown}
use perps_latency_benchmark.Latency.{confirm_p50, confirm_p95}
use perps_latency_benchmark.Dashboard.Stats.{get_stats}
use perps_latency_benchmark.Dashboard.Least.{
  IsFastest, ranked_post_only, ranked_taker, get_stats-AreFastest,
}
use perps_latency_benchmark.TakerCost.{is_taker_order}
use perps_latency_benchmark.Tests.Fixtures.{env, sample, summary}

abbrev point_at : ℕ → ℤ → Point ℤ
point_at date ms = record { date = date; kind = of_sample; ms = ms; sample_count = none }

-- Two points half an hour apart.
abbrev points : List (Point ℤ)
points = point_at 600_000 (pos 40) ∷ point_at 2_400_000 (pos 80) ∷ []

points-IsSorted : IsSorted not_after points
points-IsSorted = ((refl, tt), (tt, tt))

rolling_trend-reference_example :
    rolling_trend (pos 0) points ≡ some (reference_trend (pos 0) points)
rolling_trend-reference_example = rolling_trend-reference (pos 0) points points-IsSorted

trend_tests :
    Option.map
      (λ (t : Trend ℤ). map (λ (p : Point ℤ). p.date) t.line_points)
      (rolling_trend (pos 0) points)
    ≡ some (600_000 ∷ 900_000 ∷ 1_200_000 ∷ 1_500_000 ∷ 1_800_000 ∷ 2_100_000 ∷ 2_400_000 ∷ [])
unfolding rolling_trend
trend_tests = refl

rolling_trend-length_example :
    (result : Trend ℤ) × (rolling_trend (pos 0) points ≡ some result)
    × (length result.line_points ≤ 902)
rolling_trend-length_example = rolling_trend-length (pos 0) points points-IsSorted (omega arith)

-- A week is chosen with a session, and then the session is gone.
abbrev with_session : Bool → Dashboard → Dashboard
with_session authenticated d = record {
  filters = d.filters;
  chart_scale = d.chart_scale;
  cancel_chart_scenario = d.cancel_chart_scenario;
  summary_window = d.summary_window;
  advanced_auth = some record { authenticated = authenticated; enabled = true };
}

unfoldable signed_in : Dashboard
signed_in = run_effects (with_session true (run_effects initial_dashboard))

unfoldable week_chosen : Dashboard
week_chosen = run_effects (with_windows (txt "7d") signed_in.summary_window signed_in)

signed_in-Reachable : Reachable signed_in
unfolding signed_in run_effects
signed_in-Reachable =
    drawn opened (session_answered _ (some record { authenticated = true; enabled = true }))

week_chosen-Reachable : Reachable week_chosen
unfolding signed_in week_chosen run_effects is_advanced_authenticated
week_chosen-Reachable =
    drawn signed_in-Reachable (choose_window signed_in (txt "7d") (inr (inr (inr (inl refl)))))

Reachable-IsServed_example : IsServed env none (run_effects (with_session false week_chosen))
unfolding run_effects is_advanced_authenticated
Reachable-IsServed_example =
    Reachable-IsServed env none
      (drawn week_chosen-Reachable
        (session_answered week_chosen (some record { authenticated = false; enabled = true })))
      λ h. ground (arith, h)

charts-partition_example :
    Perm
      (post_only_samples initial_dashboard (sample ∷ [])
        ++ batch_post_only_samples initial_dashboard (sample ∷ []))
      (keep
        (λ (s : Sample ℤ). is_shown initial_dashboard s && is_post_only_order s.order_type)
        (sample ∷ []))
    × (taker_samples initial_dashboard (sample ∷ [])
        ≡ keep
            (λ (s : Sample ℤ). is_shown initial_dashboard s && is_taker_order s.order_type)
            (sample ∷ []))
    × All
        (λ (s : Sample ℤ). is_post_only_order s.order_type ≡ false)
        (taker_samples initial_dashboard (sample ∷ []))
charts-partition_example = charts-partition initial_dashboard (sample ∷ [])

-- A slow and a fast post-only row, and a taker one.
abbrev summaries : List (SummaryRow ℤ)
summaries =
    record summary { order_type = txt "post_only"; p95_ms = pos 9 }
    ∷ record summary { order_type = txt "post_only"; p95_ms = pos 4 }
    ∷ record summary { order_type = txt "market"; p95_ms = pos 2 }
    ∷ []

stats_tests :
    Option.map
      (λ (row : SummaryRow ℤ). row.p95_ms)
      (get_stats summaries false).fastest_post_only_p95
    ≡ some (pos 4)
unfolding get_stats perps_latency_benchmark.Latency.adjusted_summary_latency
    perps_latency_benchmark.Latency.is_extended_taker is_post_only_order confirm_p95
stats_tests = refl

get_stats-AreFastest_example :
    IsFastest
      (λ row. confirm_p95 row false)
      ranked_post_only
      summaries
      (get_stats summaries false).fastest_post_only_p95
    × IsFastest
        (λ row. confirm_p50 row false)
        ranked_taker
        summaries
        (get_stats summaries false).fastest_taker_p50
get_stats-AreFastest_example = get_stats-AreFastest ℤ-IsOrdered summaries false
