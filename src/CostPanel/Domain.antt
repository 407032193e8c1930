-- ===== src/CostPanel/Domain.antt =====
-- The domain of the costs (costExtent, paddedCostDomain and the bars of VenueCostBars in
-- frontend/src/components/dashboard/taker-cost-panel.tsx).
pub mod Inside
use perps_latency_benchmark.Prelude.{
  ◌≡◌, refl, inl, inr, true, false, List, [], ◌∷◌, map, arith, All, All-imp, All-zip, keep,
  All-keep, Bool-cases, if◌then◌else◌,
}
use perps_latency_benchmark.Prelude.Sorting.{sort}
use perps_latency_benchmark.Numbers.{
  Numbers, IsOrdered, IsRounded, negative, max_of_all, min_of_all,
}
use perps_latency_benchmark.Numbers.Extremes.{
  AreBelow, AreAbove, AreBelow-not_above, AreAbove-not_below, max_of_all-AreBelow,
  min_of_all-AreAbove, add-AreBelow, sub-AreAbove,
}

-- `{ max, min }`
pub record Extent (N : Type 0) : Type 0 where
  pub max : N
  pub min : N

module _ {N : Type 0} ⦃n : Numbers N⦄ where
  -- 0.001
  abbrev pub least_extent : N
  least_extent = n.div (n.of_ℕ 1) (n.of_ℕ 1000)

  abbrev pub widened : N → N → Extent N
  widened min max =
      let padding = n.max_of (n.abs min) least_extent in
      if n.same min max
      then record { max = n.add max padding; min = n.sub min padding }
      else record { max = max; min = min }

  abbrev pub extent_of : List N → Extent N
  extent_of [] = record { max = least_extent; min = n.of_ℕ 0 }
  extent_of (value ∷ finite) =
      widened (min_of_all (value ∷ finite) (n.of_ℕ 0)) (max_of_all (value ∷ finite) (n.of_ℕ 0))

  unfoldable pub cost_extent : List N → Extent N
  cost_extent values = extent_of (keep (λ value. n.is_finite value) values)

  -- `Math.max(extent.max - extent.min, Math.abs(extent.max), Math.abs(extent.min), 0.001)`
  abbrev pub cost_span : Extent N → N
  cost_span extent =
      max_of_all (n.sub extent.max extent.min ∷ n.abs extent.max ∷ n.abs extent.min ∷ [])
        least_extent

  abbrev pub cost_padding : Extent N → N
  cost_padding extent = n.mul (cost_span extent) (n.div (n.of_ℕ 16) (n.of_ℕ 100))

  unfoldable pub padded_cost_domain : List N → N × N
  unfolding cost_extent
  padded_cost_domain values =
      let extent = cost_extent values in
      (
        n.min_of (n.sub extent.min (cost_padding extent)) (n.of_ℕ 0),
        n.max_of (n.add extent.max (cost_padding extent)) (n.of_ℕ 0),
      )
