-- ===== src/Tests/Controls.antt =====
-- The table, the download dialog, the theme and the series of the chart at a few values
-- (frontend/src/components/dashboard/latency-table.tsx, csv-export-button.tsx,
-- frontend/src/components/theme-provider.tsx, frontend/src/components/charts/latency-timeseries-chart.tsx).
use mathlib.Core.List.{Perm}
use perps_latency_benchmark.Prelude.{
  decimal, ℕ, ◌≡◌, refl, Bool, true, false, some, [], ◌∷◌, All, Text, txt, ◌===◌,
}
use perps_latency_benchmark.Data.{Sample}
use perps_latency_benchmark.Numbers.Integers.{ℤ, pos, negsuc, integers, ℤ-IsOrdered}
use perps_latency_benchmark.Csv.Dialog.{
  Dialog, initial_dialog, change_open, start_export, finish_export, Loaded, Step, Reachable,
  initial, next, opened_or_closed, started, ended, IsConsistent, Reachable-IsConsistent,
  failed_error,
}
use perps_latency_benchmark.Csv.Dialog
use perps_latency_benchmark.Table.{sort_rows, sort_value, row_identity, p95, desc, SortState}
use perps_latency_benchmark.Table.Ranked.{IsCollation, AreRanked, sort_rows-AreRanked}
use perps_latency_benchmark.Theme.{
  system, Root, run_theme_script, apply_theme, mounted_theme, run_theme_script-apply_theme,
}
use perps_latency_benchmark.Theme.Provider.{
  Provider, mount, set_theme, change_scheme, IsShown, Reachable-IsShown, mounted, chosen,
  scheme_changed,
}
use perps_latency_benchmark.Chart.Series.{build_series, keyed_points}
use perps_latency_benchmark.Chart.Grouped.{HasItsPoints, build_series-HasItsPoints}
use perps_latency_benchmark.Tests.Fixtures.{sample, summary}

-- An export of a day fails after the dialog was closed.
unfoldable waiting : Dialog ℕ
waiting = start_export (change_open true (initial_dialog (txt "24h")))

unfoldable failed : Dialog ℕ
failed = finish_export (txt "24h") [] Dialog.thrown (change_open false waiting)

failed-Reachable : Reachable (txt "24h") failed
unfolding failed waiting initial_dialog change_open start_export
failed-Reachable =
    next
      (next
        (next (next initial (opened_or_closed true (initial_dialog (txt "24h"))))
          (started (change_open true (initial_dialog (txt "24h"))) refl))
        (opened_or_closed false waiting))
      (ended (txt "24h") [] Dialog.thrown (change_open false waiting) refl)

Reachable-IsConsistent_example : IsConsistent failed
Reachable-IsConsistent_example = Reachable-IsConsistent failed-Reachable

-- The dialog then opens with the error of that export.
failed_tests : (change_open true failed).error ≡ failed_error
unfolding change_open failed finish_export
failed_tests = refl

abbrev all_alike : Text → Text → Bool
all_alike s t = true

all_alike-IsCollation : IsCollation all_alike
all_alike-IsCollation = record { total = λ s t h. refl; transitive = λ s t u h k. refl }

abbrev show : ℤ → Text
show (pos k) = decimal k
show (negsuc k) = txt "-"

abbrev sort_state : SortState
sort_state = record { direction = desc; key = p95 }

sort_rows-AreRanked_example :
    Perm
      (sort_rows show all_alike (summary ∷ summary ∷ []) sort_state false)
      (summary ∷ summary ∷ [])
    × AreRanked desc
        (λ r. sort_value r p95 false)
        (λ r s. all_alike (row_identity show r) (row_identity show s))
        (sort_rows show all_alike (summary ∷ summary ∷ []) sort_state false)
sort_rows-AreRanked_example =
    sort_rows-AreRanked ℤ-IsOrdered show all_alike all_alike-IsCollation (summary ∷ summary ∷ [])
      sort_state false

abbrev root : Root
root = record { classes = txt "h-full" ∷ []; color_scheme = [] }

run_theme_script-apply_theme_example :
    run_theme_script true (some (txt "purple")) system root
    ≡ apply_theme true (mounted_theme (some (txt "purple")) system) root
unfolding ◌===◌
run_theme_script-apply_theme_example =
    run_theme_script-apply_theme true (some (txt "purple")) system root (refl, tt)

build_series-HasItsPoints_example :
    All
      (HasItsPoints
        (keyed_points (λ t. some 5) (λ (s : Sample ℤ). s.network_ns) (sample ∷ sample ∷ [])))
      (build_series (λ t. some 5) all_alike (sample ∷ sample ∷ []) (λ (s : Sample ℤ). s.network_ns))
build_series-HasItsPoints_example =
    build_series-HasItsPoints (λ t. some 5) all_alike (sample ∷ sample ∷ [])
      (λ (s : Sample ℤ). s.network_ns)

-- A page that was light is set to the scheme of the platform, which then turns dark.
abbrev turned_dark : Provider
unfolding change_scheme set_theme mount
turned_dark = change_scheme true (
    set_theme system
      (mount false (some (txt "light")) system (record { classes = []; color_scheme = [] })))

theme_tests : turned_dark.root.classes ≡ txt "dark" ∷ []
unfolding turned_dark change_scheme set_theme mount
theme_tests = refl

Reachable-IsShown_example : IsShown system turned_dark
unfolding turned_dark change_scheme
Reachable-IsShown_example = Reachable-IsShown (
    scheme_changed true (
      chosen system
        (mounted false (some (txt "light")) (record { classes = []; color_scheme = [] }))))
