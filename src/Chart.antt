-- ===== src/Chart.antt =====
-- The latency chart (frontend/src/components/charts/latency-timeseries-chart.tsx): its points. Dates are
-- in milliseconds from 1970 on.
pub mod Colors
pub mod Labels
pub mod Series
pub mod Export
pub mod Grouped
pub mod Trend
pub mod Domain
pub mod Ticks
pub mod Hover
pub mod Paths
pub mod Frame
pub mod Controls
use perps_latency_benchmark.Prelude.{
  ℕ, zero, suc, ◌+◌, ◌-◌, ◌*◌, ◌/◌, ◌%◌, ◌≤◌, ◌<◌, ◌≡◌, refl, sym, ap, ◌∙◌, subst, ◌≢◌, ◌↔◌, ◌⊎◌,
  inl, inr, Bool, true, false, not, ◌&&◌, ◌||◌, Option, none, some, List, [], ◌∷◌, ◌++◌, map, arith,
  length, get_elem?, keep, any, All, All-map, All-imp, get_elem?-IsInside, Text, txt, ◌===◌, ltb,
  leb, ◌==◌, ==_iff, Bool-cases, if◌then◌else◌, value_or, min, max,
}
use perps_latency_benchmark.Numbers.{Numbers}

-- `LatencyScaleMode` and `LatencyDisplayMode`
pub data ScaleMode : Type 0 where
  linear log : ScaleMode

pub data DisplayMode : Type 0 where
  raw trend trend_raw : DisplayMode

pub data PointKind : Type 0 where
  of_sample rolling_median : PointKind

pub record Point (N : Type 0) : Type 0 where
  pub date : ℕ
  pub kind : PointKind
  pub ms : N
  pub sample_count : Option ℕ

pub record BandPoint (N : Type 0) : Type 0 where
  pub date : ℕ
  pub lower_ms : N
  pub upper_ms : N

module _ {N : Type 0} ⦃n : Numbers N⦄ where
  abbrev pub not_after : Point N → Point N → Bool
  not_after left right = leb left.date right.date

  -- The order of `sort((left, right) => left - right)` on finite numbers.
  abbrev pub not_above : N → N → Bool
  not_above left right = not (n.lt right left)
