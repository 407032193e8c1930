-- ===== src/Throughput.antt =====
-- The series of the throughput panel (frontend/src/components/dashboard/exchange-tps-panel.tsx): one for
-- each venue, its points in order of date. Dates are in milliseconds from 1970 on; `parse_date` is
-- `new Date(text).getTime()`, and `none` where that is NaN. `collate` is whether the platform's
-- `localeCompare` puts the first text at or before the second.
pub mod Nearest
pub mod Search
pub mod Averages
pub mod Downsample
pub mod Thinning
pub mod Peaks
pub mod Tooltip
pub mod Plot
pub mod Pointer
pub mod Panel
use perps_latency_benchmark.Prelude.{
  ℕ, zero, suc, ◌+◌, ◌-◌, ◌*◌, ◌/◌, ◌%◌, ◌≤◌, ◌<◌, ◌≡◌, refl, sym, ap, ◌∙◌, subst, ◌≢◌, ◌↔◌, ◌⊎◌,
  inl, inr, Bool, true, false, not, ◌&&◌, ◌||◌, Option, none, some, List, [], ◌∷◌, ◌++◌, map, arith,
  length, get_elem?, keep, any, All, get_elem?-IsInside, Text, txt, ◌===◌, ltb, leb, ◌==◌, ==_iff,
  Bool-cases, if◌then◌else◌, value_or, min, max,
}
use perps_latency_benchmark.Prelude.Sorting.{sort}
use perps_latency_benchmark.Data.{ExchangeTpsRow}
use perps_latency_benchmark.Numbers.{Numbers}
use perps_latency_benchmark.Chart.{ScaleMode, linear, log}
use perps_latency_benchmark.Chart.Colors.{color_for_venue}
use perps_latency_benchmark.TakerCost.Groups.{group_by}

pub record TpsPoint (N : Type 0) : Type 0 where
  pub date : ℕ
  pub tps : N
  pub tx_count : N
  pub venue : Text

pub record TpsSeries (N : Type 0) : Type 0 where
  pub color : Option Text
  pub points : List (TpsPoint N)
  pub venue : Text

pub record TpsAverage (N : Type 0) : Type 0 where
  pub avg_tps : N
  pub bucket_count : ℕ
  pub color : Option Text
  pub total_seconds : N
  pub total_tx : N
  pub venue : Text

module _ {N : Type 0} ⦃n : Numbers N⦄ where
  -- The rows that the panel is made of.
  abbrev pub complete_rows : List (ExchangeTpsRow N) → List (ExchangeTpsRow N)
  complete_rows rows = keep (λ (row : ExchangeTpsRow N). row.complete && n.is_finite row.tps) rows

  unfoldable pub scale_tps : N → ScaleMode → N → N
  scale_tps value log min_positive_tps = n.max_of value min_positive_tps
  scale_tps value linear min_positive_tps = value

  abbrev pub not_after : TpsPoint N → TpsPoint N → Bool
  not_after left right = leb left.date right.date

  module _ (parse_date : Text → Option ℕ) where
    -- The points of the rows with a date that can be read and a rate that is finite.
    abbrev pub points_of : List (ExchangeTpsRow N) → List (TpsPoint N)
    points_of [] = []
    points_of (row ∷ rows) =
        let rest = points_of rows in
        elim (parse_date row.bucket_start) [
          | none ↦ rest
          | some date ↦
              if n.is_finite row.tps
              then record { date = date; tps = row.tps; tx_count = row.tx_count; venue = row.venue }
                ∷ rest
              else rest
        ]

    unfoldable pub series_of : Text × List (TpsPoint N) → TpsSeries N
    unfolding color_for_venue
    series_of (venue, points) = record {
      color = color_for_venue venue;
      points = sort not_after points;
      venue = venue;
    }

    unfoldable pub build_series :
        (Text → Text → Bool) → List (ExchangeTpsRow N) → List (TpsSeries N)
    unfolding group_by ◌===◌ series_of
    build_series collate rows =
        sort (λ (left : TpsSeries N) (right : TpsSeries N). collate left.venue right.venue)
          (map series_of (group_by ◌===◌ (λ (point : TpsPoint N). point.venue) (points_of rows)))

-- `[...new Set(values)]`
abbrev pub unique : List ℕ → List ℕ
unique [] = []
unique (v ∷ values) = v ∷ keep (λ w. not (v == w)) (unique values)

unfoldable pub unique_sorted_dates : {N : Type 0} → List (TpsPoint N) → List ℕ
unique_sorted_dates {N} points = sort leb (unique (map (λ (point : TpsPoint N). point.date) points))
