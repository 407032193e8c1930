-- ===== src/Chart/Ticks.antt =====
-- The ticks of the logarithmic axis (stableLogTicks of
-- frontend/src/components/charts/latency-timeseries-chart.tsx). `decades min max` are the powers of ten
-- with the whole exponents from `Math.floor(Math.log10(min))` to `Math.ceil(Math.log10(max))` in order, in
-- the platform's doubles; `position` is the scale.
pub mod Apart
use perps_latency_benchmark.Prelude.{
  ℕ, Bool, true, false, not, ◌&&◌, ◌||◌, List, [], ◌∷◌, ◌++◌, length, keep, leb, if◌then◌else◌,
}
use perps_latency_benchmark.Prelude.Sorting.{sort}
use perps_latency_benchmark.Numbers.{Numbers, positive}
use perps_latency_benchmark.Chart.{not_above}

module _ {N : Type 0} ⦃n : Numbers N⦄ where
  -- The order of `sort((left, right) => right - left)` on finite numbers.
  abbrev pub not_below : N → N → Bool
  not_below left right = not (n.lt left right)

  -- `value >= min && value <= max`, which are false of NaN.
  abbrev pub within : N → N → N → Bool
  within min max value =
      (n.lt min value || n.same min value) && (n.lt value max || n.same value max)

  abbrev pub multiples_of : N → List N
  multiples_of decade =
      n.mul (n.of_ℕ 1) decade ∷ n.mul (n.of_ℕ 2) decade ∷ n.mul (n.of_ℕ 5) decade ∷ []

  -- 1, 2 and 5 times each power of ten, as far as they are in the domain.
  abbrev pub candidates_of : N → N → List N → List N
  candidates_of min max [] = []
  candidates_of min max (decade ∷ decades) =
      keep (within min max) (multiples_of decade) ++ candidates_of min max decades

  module _ (position : N → N) (min_gap : N) where
    -- `Math.abs(position(existing) - y) >= minGap`
    abbrev pub apart : N → N → Bool
    apart existing value =
        let gap = n.abs (n.sub (position existing) (position value)) in
        n.lt min_gap gap || n.same min_gap gap

    abbrev pub has_room : List N → N → Bool
    has_room [] value = true
    has_room (existing ∷ selected) value = apart existing value && has_room selected value

    -- The values that have room beside those selected before them, in order.
    abbrev pub select_ticks : List N → List N → List N
    select_ticks selected [] = selected
    select_ticks selected (value ∷ values) =
        let more = select_ticks (selected ++ (value ∷ [])) values in
        let same = select_ticks selected values in if has_room selected value then more else same

  abbrev pub min_gap_of : N → N
  min_gap_of height = if n.lt height (n.of_ℕ 280) then n.of_ℕ 34 else n.of_ℕ 42

  -- `min <= 0 || max <= 0 || min >= max`, where neither is NaN.
  abbrev pub is_no_domain : N → N → Bool
  is_no_domain min max = not (positive min) || (not (positive max) || not (n.lt min max))

  module _ (decades : N → N → List N) where
    unfoldable pub stable_log_ticks : N → N → (N → N) → N → List N
    stable_log_ticks min max position height =
        let candidates = candidates_of min max (decades min max) in
        let selected = select_ticks position (min_gap_of height) [] (sort not_below candidates) in
        if is_no_domain min max
        then []
        else if leb (length candidates) 1
        then candidates
        else sort not_above selected
