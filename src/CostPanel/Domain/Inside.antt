-- ===== src/CostPanel/Domain/Inside.antt =====
-- The costs and 0 lie in the domain of the axis (paddedCostDomain of
-- frontend/src/components/dashboard/taker-cost-panel.tsx).
use perps_latency_benchmark.Prelude.{
  ◌≡◌, inl, inr, false, List, [], ◌∷◌, All, All-zip, keep, Bool-cases,
}
use perps_latency_benchmark.Numbers.{
  Numbers, IsOrdered, IsRounded, negative, max_of_all, min_of_all,
}
use perps_latency_benchmark.Numbers.Extremes.{
  AreBelow, AreAbove, AreBelow-not_above, AreAbove-not_below, max_of_all-AreBelow,
  min_of_all-AreAbove, add-AreBelow, sub-AreAbove, max_of-nonneg,
}
use perps_latency_benchmark.CostPanel.Domain.{
  Extent, least_extent, widened, extent_of, cost_extent, cost_span, cost_padding,
  padded_cost_domain,
}

module _ {N : Type 0} ⦃n : Numbers N⦄ (ordered : IsOrdered N) (rounded : IsRounded N) where
  least_extent-nonneg : negative {N = N} least_extent ≡ false
  least_extent-nonneg = ordered.div-nonneg (n.of_ℕ 1) 1000 (rounded.of_ℕ-nonneg 1)

  cost_padding-nonneg : (extent : Extent N) → negative (cost_padding extent) ≡ false
  cost_padding-nonneg extent =
      rounded.mul-nonneg (cost_span extent) (n.div (n.of_ℕ 16) (n.of_ℕ 100))
        (elim (Bool-cases (negative (cost_span extent))) [
          | inr e ↦ e
          | inl e ↦ absurd (
              cc (
                (max_of_all-AreBelow rounded
                    (n.sub extent.max extent.min ∷ n.abs extent.max ∷ n.abs extent.min ∷ [])
                    least_extent (n.of_ℕ 0) e).0,
                least_extent-nonneg,
              ))
        ])
        (ordered.div-nonneg (n.of_ℕ 16) 100 (rounded.of_ℕ-nonneg 16))

  widened-AreBelow :
      (values : List N) (min max : N) → AreBelow values max → AreBelow values (widened min max).max
  widened-AreBelow values min max h z f = elim (Bool-cases (n.same min max)) [
    | inl e ↦
        add-AreBelow rounded values max (n.max_of (n.abs min) least_extent)
          (max_of-nonneg rounded (n.abs min) least_extent least_extent-nonneg) h z (rw e at f)
    | inr e ↦ h z (rw e at f)
  ]

  widened-AreAbove :
      (values : List N) (min max : N) → AreAbove values min → AreAbove values (widened min max).min
  widened-AreAbove values min max h z f = elim (Bool-cases (n.same min max)) [
    | inl e ↦
        sub-AreAbove rounded values min (n.max_of (n.abs min) least_extent)
          (max_of-nonneg rounded (n.abs min) least_extent least_extent-nonneg) h z (rw e at f)
    | inr e ↦ h z (rw e at f)
  ]

  extent_of-AreBelow : (finite : List N) → AreBelow finite (extent_of finite).max
  extent_of-AreBelow [] z e = tt
  extent_of-AreBelow (value ∷ finite) z e =
      let all = value ∷ finite in
      widened-AreBelow all (min_of_all all (n.of_ℕ 0)) (max_of_all all (n.of_ℕ 0))
        (λ y f. (max_of_all-AreBelow rounded all (n.of_ℕ 0) y f).1) z e

  extent_of-AreAbove : (finite : List N) → AreAbove finite (extent_of finite).min
  extent_of-AreAbove [] z e = tt
  extent_of-AreAbove (value ∷ finite) z e =
      let all = value ∷ finite in
      widened-AreAbove all (min_of_all all (n.of_ℕ 0)) (max_of_all all (n.of_ℕ 0))
        (λ y f. (min_of_all-AreAbove rounded all (n.of_ℕ 0) y f).1) z e

  -- On numbers in order that are rounded, neither 0 nor any finite cost is outside the domain of the axis.
  pub padded_cost_domain-encloses :
      (values : List N)
      → All
          (λ v.
            (n.lt v (padded_cost_domain values).0 ≡ false)
            × (n.lt (padded_cost_domain values).1 v ≡ false))
          (n.of_ℕ 0 ∷ keep (λ v. n.is_finite v) values)
  unfolding padded_cost_domain cost_extent
  padded_cost_domain-encloses values =
      let finite = keep (λ v. n.is_finite v) values in
      let all = n.of_ℕ 0 ∷ finite in
      let extent = extent_of finite in
      let padding = cost_padding extent in
      let p = cost_padding-nonneg extent in
      let lo = n.sub extent.min padding in
      let hi = n.add extent.max padding in
      All-zip (λ v. n.lt v (n.min_of lo (n.of_ℕ 0)) ≡ false)
        (λ v. n.lt (n.max_of hi (n.of_ℕ 0)) v ≡ false) all
        (AreAbove-not_below ordered all (n.min_of lo (n.of_ℕ 0)) λ z e.
          let (a, b) = rounded.lt-min lo (n.of_ℕ 0) z e in
          (b, sub-AreAbove rounded finite extent.min padding p (extent_of-AreAbove finite) z a))
        (AreBelow-not_above ordered all (n.max_of hi (n.of_ℕ 0)) λ z e.
          let (a, b) = rounded.max-lt hi (n.of_ℕ 0) z e in
          (b, add-AreBelow rounded finite extent.max padding p (extent_of-AreBelow finite) z a))
