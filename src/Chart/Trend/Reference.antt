-- ===== src/Chart/Trend/Reference.antt =====
-- The trend by windows that are each chosen anew among all points, and that the loop with two moving
-- indices gives the same (rollingTrend of frontend/src/components/charts/latency-timeseries-chart.tsx).
use perps_latency_benchmark.Prelude.{
  ℕ, zero, suc, ◌+◌, ◌-◌, ◌*◌, ◌/◌, ◌≤◌, ◌<◌, ◌≡◌, refl, Bool, true, ◌&&◌, some, List, [], ◌∷◌,
  arith, length, keep, All, ltb, leb, if◌then◌else◌,
}
use mathlib.Core.Option
use native.Mathlib.Nat.{lt-div-mul-add, div-mul-le_self}
use perps_latency_benchmark.Prelude.Sorting.{IsSorted}
use perps_latency_benchmark.Numbers.{Numbers}
use perps_latency_benchmark.Chart.{Point, not_after}
use perps_latency_benchmark.Chart.Trend.Steps.{trend_resolution-step_pos}
use perps_latency_benchmark.Chart.Trend.{
  Trend, no_trend, advance, slice, last_date, with_window, trend_loop, rolling_trend,
  trend_resolution, floor_to_step,
}

module _ {N : Type 0} where
  -- How many points there are before the first whose date does not pass a test.
  abbrev rank : (ℕ → Bool) → List (Point N) → ℕ
  rank test [] = 0
  rank test (p ∷ points) = let later = suc (rank test points) in if test p.date then later else 0

  rank-le-length : (test : ℕ → Bool) (points : List (Point N)) → rank test points ≤ length points
  rank-le-length test [] = ground arith
  rank-le-length test (p ∷ points) = ground (arith, rank-le-length test points)

  rank_mono :
      (test later : ℕ → Bool) (points : List (Point N))
      → ((d : ℕ) → test d ≡ true → later d ≡ true)
      → rank test points ≤ rank later points
  rank_mono test later [] h = ground arith
  rank_mono test later (p ∷ points) h = ground (arith, rank_mono test later points h, h p.date)

  advance-suc :
      (rounds : ℕ) (test : ℕ → Bool) (p : Point N) (points : List (Point N)) (index : ℕ)
      → advance rounds test (p ∷ points) (suc index) ≡ suc (advance rounds test points index)
  advance-suc zero test p points index = refl
  advance-suc (suc rounds) test p points index =
      ground (arith, advance-suc rounds test p points (index + 1))

  -- From no farther than the rank, enough rounds lead to the rank.
  advance-eq-rank :
      (test : ℕ → Bool) (points : List (Point N)) (rounds index : ℕ)
      → index ≤ rank test points
      → rank test points ≤ index + rounds
      → advance rounds test points index ≡ rank test points
  advance-eq-rank test [] zero index h k = ground (arith, h)
  advance-eq-rank test [] (suc rounds) index h k = ground (arith, h)
  advance-eq-rank test (p ∷ points) zero zero h k = ground (arith, k)
  advance-eq-rank test (p ∷ points) (suc rounds) zero h k = ground (
    arith,
    k,
    advance-suc rounds test p points 0,
    advance-eq-rank test points rounds 0 (omega arith),
  )
  advance-eq-rank test (p ∷ points) rounds (suc index) h k = ground (
    arith,
    h,
    k,
    advance-suc rounds test p points index,
    advance-eq-rank test points rounds index,
  )

  -- The points whose date is in a closed interval.
  abbrev pub within : (low high : ℕ) → Point N → Bool
  within low high p = leb low p.date && leb p.date high

  abbrev pub window_of : List (Point N) → (low high : ℕ) → List (Point N)
  window_of points low high = keep (within low high) points

  rank-of_late :
      (low d : ℕ) (points : List (Point N))
      → low ≤ d
      → All (λ (p : Point N). leb d p.date ≡ true) points
      → rank (λ date. ltb date low) points ≡ 0
  rank-of_late low d [] h k = refl
  rank-of_late low d (p ∷ points) h k = ground (arith, k.0)

  window_of_late :
      (low high d : ℕ) (points : List (Point N))
      → high < d
      → All (λ (p : Point N). leb d p.date ≡ true) points
      → window_of points low high ≡ []
  window_of_late low high d [] h k = refl
  window_of_late low high d (p ∷ points) h k =
      ground (arith, k.0, window_of_late low high d points h k.1)

module _ {N : Type 0} ⦃n : Numbers N⦄ where
  slice-window_of :
      (low high : ℕ) (points : List (Point N))
      → low ≤ high
      → IsSorted not_after points
      → slice points (rank (λ date. ltb date low) points) (rank (λ date. leb date high) points)
        ≡ window_of points low high
  slice-window_of low high [] h k = refl
  slice-window_of low high (p ∷ points) h k = ground (
    arith,
    rank-of_late low p.date points,
    window_of_late low high p.date points,
    slice-window_of low high points h k.1,
    k.0,
  )

leb-of_le : (a b : ℕ) → a ≤ b → leb a b ≡ true
leb-of_le a b h = ground (arith, h)

module _ {N : Type 0} ⦃n : Numbers N⦄ (nan : N) where
  -- The trend by `count` windows from a time on, each of all the points that are in it.
  unfoldable pub windows : ℕ → List (Point N) → (step half time : ℕ) → Trend N
  windows zero points step half time = no_trend
  windows (suc count) points step half time =
      with_window nan time (window_of points (time - half) (time + half))
        (windows count points step half (time + step))

  module _ (points : List (Point N)) (sorted : IsSorted not_after points)
      (step half end_time : ℕ) where
    trend_loop-next :
        (rounds time start end : ℕ)
        → leb time end_time ≡ true
        → trend_loop nan (suc rounds) points step half end_time time start end
          ≡ Option.map
              (with_window nan time (
                slice points
                  (advance (length points) (λ date. ltb date (time - half)) points start)
                  (advance (length points) (λ date. leb date (time + half)) points end)))
              (trend_loop nan rounds points step half end_time
                (time + step)
                (advance (length points) (λ date. ltb date (time - half)) points start)
                (advance (length points) (λ date. leb date (time + half)) points end))
    unfolding trend_loop
    trend_loop-next rounds time start end h = rw (h, trend_loop) refl

    trend_loop-end :
        (time start end : ℕ)
        → end_time < time + 0
        → trend_loop nan 1 points step half end_time time start end ≡ some no_trend
    unfolding trend_loop
    trend_loop-end time start end h = ground (arith, h)

    -- With a round more than there are times, the loop ends with all the windows.
    trend_loop-windows :
        (count time start end : ℕ)
        → end_time < time + count * step
        → time + count * step ≤ end_time + step
        → start ≤ rank (λ date. ltb date (time - half)) points
        → end ≤ rank (λ date. leb date (time + half)) points
        → trend_loop nan (suc count) points step half end_time time start end
          ≡ some (windows count points step half time)
    unfolding windows
    trend_loop-windows zero time start end h k s e =
        trend_loop-end time start end (omega (arith, h))
    trend_loop-windows (suc count) time start end h k s e =
        rw
          (
            trend_loop-next (suc count) time start end (leb-of_le time end_time (omega (arith, k))),
            advance-eq-rank (λ date. ltb date (time - half)) points (length points) start s
                (omega (arith, rank-le-length (λ date. ltb date (time - half)) points)),
            advance-eq-rank (λ date. leb date (time + half)) points (length points) end e
                (omega (arith, rank-le-length (λ date. leb date (time + half)) points)),
            slice-window_of (time - half) (time + half) points (omega arith) sorted,
            trend_loop-windows count (time + step) (rank (λ date. ltb date (time - half)) points)
                (rank (λ date. leb date (time + half)) points) (omega (arith, h)) (omega (arith, k))
                (rank_mono _ _ points (λ d t. ground (arith, t)))
                (rank_mono _ _ points (λ d t. ground (arith, t))),
          )
          refl

  last_date-le :
      (p : Point N) (points : List (Point N))
      → IsSorted not_after (p ∷ points)
      → p.date ≤ last_date p points
  last_date-le p [] h = ground arith
  last_date-le p (q ∷ points) ((h, _), hs) = ground (arith, last_date-le q points hs, h)

  -- The windows that the trend of points in order is to have: at each step from the first date on, up to
  -- the last one, the points that are no farther from it than half a window.
  unfoldable pub reference_trend : List (Point N) → Trend N
  unfolding windows trend_resolution floor_to_step
  reference_trend [] = no_trend
  reference_trend (p ∷ points) =
      let end_time = last_date p points in
      let resolution = trend_resolution p.date end_time in
      let start_time = floor_to_step p.date resolution.step_ms in
      windows (suc ((end_time - start_time) / resolution.step_ms)) (p ∷ points) resolution.step_ms
        (resolution.window_ms / 2) start_time

  -- On points in order of date the loop over the times ends, and with its two indices that only move on
  -- it gives the same trend as choosing the points of every window anew.
  pub rolling_trend-reference :
      (points : List (Point N))
      → IsSorted not_after points
      → rolling_trend nan points ≡ some (reference_trend points)
  unfolding rolling_trend reference_trend floor_to_step
  rolling_trend-reference [] h = refl
  rolling_trend-reference (p ∷ points) h =
      let end_time = last_date p points in
      let resolution = trend_resolution p.date end_time in
      let step = resolution.step_ms in
      let start = p.date / step * step in
      let q = (end_time - start) / step in
      trend_loop-windows (p ∷ points) h step (resolution.window_ms / 2) end_time (suc q) start 0 0
        (omega (
          arith,
          lt-div-mul-add {a = end_time - start} {b = step}
              (trend_resolution-step_pos p.date end_time),
        ))
        (omega (
          arith,
          div-mul-le_self (end_time - start) step,
          div-mul-le_self p.date step,
          last_date-le p points h,
        ))
        (omega arith) (omega arith)
