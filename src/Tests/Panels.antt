-- ===== src/Tests/Panels.antt =====
-- What the throughput panel shows (frontend/src/components/dashboard/exchange-tps-panel.tsx), at series of
-- a few points.
use perps_latency_benchmark.Prelude.{
  Any, decimal, ℕ, ◌*◌, ◌/◌, ◌≤◌, ◌≡◌, refl, inl, inr, Bool, true, false, Option, none, some, List,
  [], ◌∷◌, map, length, keep, All, Text, txt, ◌===◌, if◌then◌else◌,
}
use perps_latency_benchmark.Prelude.Sorting.{sort}
use perps_latency_benchmark.Data.{ExchangeTpsRow}
use perps_latency_benchmark.Numbers.Integers.{ℤ, pos, integers, ℤ-IsOrdered}
use perps_latency_benchmark.TakerCost.Groups.{group_by}
use perps_latency_benchmark.Throughput.{TpsPoint}
use perps_latency_benchmark.Throughput.Nearest.{nearest_date_at_x, Returns}
use mathlib.Core.Option
use perps_latency_benchmark.Throughput.{build_series}
use perps_latency_benchmark.Throughput.Plot.{TooltipPoint, TpsTooltip, show_tps_at_pointer}
use perps_latency_benchmark.Throughput.Pointer.{IsTooltip, show_tps_at_pointer-IsTooltip}
use perps_latency_benchmark.Throughput.Panel.{exchange_tps_panel, no_data}
use perps_latency_benchmark.Throughput.Downsample.{downsample_tps_points}
use perps_latency_benchmark.Throughput.Thinning.{downsample_tps_points-IsThinned}
use perps_latency_benchmark.Throughput.Peaks.{downsample_tps_points-Any}
use perps_latency_benchmark.Throughput.Averages.{
  average_rows_by_venue, average_rows_by_venue-groups, average_of, not_behind, is_averaged,
}
use perps_latency_benchmark.Tests.Fixtures.{tps_row}

abbrev point_at : ℕ → ℤ → TpsPoint ℤ
point_at date tps = record { date = date; tps = tps; tx_count = pos 1; venue = txt "alpha" }

abbrev points : List (TpsPoint ℤ)
points =
    point_at 10 (pos 5)
    ∷ point_at 20 (pos 9)
    ∷ point_at 30 (pos 1)
    ∷ point_at 40 (pos 3)
    ∷ point_at 50 (pos 7)
    ∷ []

nearest_tests :
    (nearest_date_at_x (10 ∷ 20 ∷ 30 ∷ []) 25 ≡ some (some 20))
    × (nearest_date_at_x (10 ∷ 20 ∷ 30 ∷ []) 26 ≡ some (some 30))
    × (nearest_date_at_x (10 ∷ 20 ∷ 30 ∷ []) 99 ≡ some (some 30))
    × (nearest_date_at_x [] 99 ≡ some none)
unfolding nearest_date_at_x
nearest_tests = (refl, refl, refl, refl)

-- Two venues at two dates: the pointer is nearest to the second date, at which both have a row.
abbrev row_at : Text → ℕ → ℤ → ExchangeTpsRow ℤ
row_at venue date tps = record tps_row { venue = venue; bucket_start = decimal date; tps = tps }

abbrev rows : List (ExchangeTpsRow ℤ)
rows =
    row_at (txt "alpha") 10 (pos 3)
    ∷ row_at (txt "alpha") 20 (pos 5)
    ∷ row_at (txt "beta") 20 (pos 9)
    ∷ []

abbrev read_date : Text → Option ℕ
read_date text = if text === txt "10" then some 10 else some 20

abbrev collate : Text → Text → Bool
collate left right = true

abbrev seen : TpsTooltip ℤ → ℕ × List ℤ
seen t = (t.date, map (λ (p : TooltipPoint ℤ). p.point.tps) t.points)

pointer_tests :
    Option.map (Option.map seen) (show_tps_at_pointer (build_series read_date collate rows) 17)
    ≡ some (some (20, pos 9 ∷ pos 5 ∷ []))
unfolding show_tps_at_pointer build_series decimal
pointer_tests = refl

-- With no venue selected the panel has no rows, and then it has no selector.
abbrev no_rows : List (ExchangeTpsRow ℤ)
no_rows = []

panel_tests :
    exchange_tps_panel
      (λ digits value. txt "")
      read_date
      collate
      false
      no_rows
      []
      (txt "alpha" ∷ [])
      true
    ≡ no_data
unfolding exchange_tps_panel
panel_tests = refl

show_tps_at_pointer-IsTooltip_example :
    Returns
      (show_tps_at_pointer (build_series read_date collate rows) 17)
      (IsTooltip (build_series read_date collate rows) 17)
show_tps_at_pointer-IsTooltip_example =
    show_tps_at_pointer-IsTooltip ℤ-IsOrdered read_date collate rows 17

-- Every point is drawn of itself, and the lowest and highest of the buckets.
abbrev share : ℕ → ℕ → ℕ → ℕ
share offset span count = offset * count / span

downsample_tps_points-IsThinned_example :
    All (λ (p : TpsPoint ℤ). p.venue ≡ txt "alpha") (downsample_tps_points share points 4)
    × (4 ≤ 4 → length (downsample_tps_points share points 4) ≤ 6)
downsample_tps_points-IsThinned_example =
    downsample_tps_points-IsThinned share points 4 (λ (p : TpsPoint ℤ). p.venue ≡ txt "alpha")
      (refl, (refl, (refl, (refl, (refl, tt)))))

downsample_tps_points-Any_example :
    Any (λ q. integers.lt q.tps (pos 9) ≡ false) (downsample_tps_points share points 4)
downsample_tps_points-Any_example =
    downsample_tps_points-Any ℤ-IsOrdered share points 4 (point_at 20 (pos 9)) (inr (inl refl))

average_rows_by_venue-groups_example :
    average_rows_by_venue (λ date. some 0) (λ left right. true) (tps_row ∷ tps_row ∷ [])
    ≡ sort (not_behind (λ left right. true)) (
        map average_of (
          group_by ◌===◌
            (λ (r : ExchangeTpsRow ℤ). r.venue)
            (keep (is_averaged (λ date. some 0)) (tps_row ∷ tps_row ∷ []))))
average_rows_by_venue-groups_example =
    average_rows_by_venue-groups (λ date. some 0) (λ left right. true) (tps_row ∷ tps_row ∷ [])
