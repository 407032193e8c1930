-- ===== src/Tests/Drawn.antt =====
-- What the charts draw at a few points (frontend/src/components/charts/latency-timeseries-chart.tsx,
-- frontend/src/components/dashboard/taker-cost-panel.tsx).
use perps_latency_benchmark.Prelude.{
  ℕ, ◌≡◌, refl, true, false, none, List, [], ◌∷◌, keep, All, txt, min, max,
}
use perps_latency_benchmark.Numbers.Integers.{ℤ, pos, negsuc, integers, ℤ-IsOrdered, ℤ-IsRounded}
use perps_latency_benchmark.Chart.{Point, of_sample, log}
use perps_latency_benchmark.Chart.Series.{Series, DisplaySeries, nearest_hover_point}
use perps_latency_benchmark.Chart.Domain.{get_domains, drawn_points}
use perps_latency_benchmark.Chart.Domain.Inside.{Encloses, get_domains-Encloses}
use perps_latency_benchmark.Chart.Ticks.{stable_log_ticks, candidates_of, within, min_gap_of}
use perps_latency_benchmark.Chart.Ticks.Apart.{AreSelected, stable_log_ticks-AreSelected}
use perps_latency_benchmark.Chart.Hover.{IsNearest, hover_points, nearest_hover_point-IsNearest}
use perps_latency_benchmark.CostPanel.Domain.{padded_cost_domain}
use perps_latency_benchmark.CostPanel.Domain.Inside.{padded_cost_domain-encloses}

abbrev point_at : ℕ → ℤ → Point ℤ
point_at date ms = record { date = date; kind = of_sample; ms = ms; sample_count = none }

abbrev series : Series ℤ
series = record {
  color = none;
  key = txt "alpha";
  label = txt "Alpha";
  points = [];
  stroke_dasharray = none;
  venue = txt "alpha";
}

-- A series with a band, and two points.
abbrev item : DisplaySeries ℤ
item = record {
  series = series;
  band_points = record { date = 20; lower_ms = pos 5; upper_ms = pos 8 } ∷ [];
  line_points = point_at 20 (pos 6) ∷ [];
  outlier_count = 0;
  raw_points = point_at 10 (pos 90) ∷ [];
}

get_domains-Encloses_example : Encloses (drawn_points (item ∷ [])) (get_domains (item ∷ []) log)
get_domains-Encloses_example =
    get_domains-Encloses ℤ-IsOrdered ℤ-IsRounded (item ∷ []) log (refl, (refl, (refl, (refl, tt))))

-- Ticks from 1 to 200 on an axis of 10 pixels for each unit.
abbrev decades : ℤ → ℤ → List ℤ
decades min max = pos 1 ∷ pos 10 ∷ pos 100 ∷ []

abbrev position : ℤ → ℤ
position value = integers.mul (pos 10) value

stable_log_ticks-AreSelected_example :
    AreSelected position
      (min_gap_of (pos 300))
      (λ t. within (pos 1) (pos 200) t ≡ true)
      (candidates_of (pos 1) (pos 200) (decades (pos 1) (pos 200)))
      (stable_log_ticks decades (pos 1) (pos 200) position (pos 300))
stable_log_ticks-AreSelected_example =
    stable_log_ticks-AreSelected ℤ-IsRounded decades (pos 1) (pos 200) position (pos 300) refl

-- 1 and 2 have no room beside 5.
ticks_tests :
    stable_log_ticks decades (pos 1) (pos 200) position (pos 300)
    ≡ pos 5 ∷ pos 10 ∷ pos 20 ∷ pos 50 ∷ pos 100 ∷ pos 200 ∷ []
unfolding stable_log_ticks
ticks_tests = refl

nearest_hover_point-IsNearest_example :
    IsNearest
      (pos 12)
      (pos 88)
      pos
      (λ ms. ms)
      (hover_points (item ∷ []))
      (nearest_hover_point (pos 12) (pos 88) pos (λ ms. ms) (item ∷ []))
nearest_hover_point-IsNearest_example =
    nearest_hover_point-IsNearest (pos 12) (pos 88) pos (λ ms. ms) ℤ-IsOrdered (λ p h. refl)
      (item ∷ [])

padded_cost_domain-encloses_example :
    All
      (λ v.
        (integers.lt v (padded_cost_domain (pos 7 ∷ negsuc 2 ∷ [])).0 ≡ false)
        × (integers.lt (padded_cost_domain (pos 7 ∷ negsuc 2 ∷ [])).1 v ≡ false))
      (pos 0 ∷ keep (λ v. integers.is_finite v) (pos 7 ∷ negsuc 2 ∷ []))
padded_cost_domain-encloses_example =
    padded_cost_domain-encloses ℤ-IsOrdered ℤ-IsRounded (pos 7 ∷ negsuc 2 ∷ [])
