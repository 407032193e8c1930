-- ===== src/CostPanel/Running.antt =====
-- The panel's cumulative costs and the running costs of frontend/src/lib/taker-cost.ts
-- (buildCostSeries of frontend/src/components/dashboard/taker-cost-panel.tsx, cumulativeVenueSeries).
use perps_latency_benchmark.Prelude.{
  ◌≡◌, refl, ap, ◌∙◌, Bool, List, [], ◌∷◌, map, All, All-map, All-imp, Text, ◌===◌, ===_iff,
}
use perps_latency_benchmark.Prelude.Sorting.{sort, All-sort}
use perps_latency_benchmark.Numbers.{Numbers}
use perps_latency_benchmark.TakerCost.{TakerCostRecord}
use perps_latency_benchmark.TakerCost.Groups.{group_by, with_key, IsWhole, group_by-IsWhole}
use perps_latency_benchmark.TakerCost.Series.{
  VenuePoint, cumulative_venue_series, series_from, running_get, running_set,
}
use perps_latency_benchmark.CostPanel.{
  CostPoint, CostSeries, total, cumulative, cost_value, point_of, points_from, not_after, series_of,
  build_cost_series,
}

module _ {N : Type 0} ⦃n : Numbers N⦄ where
  -- The point that the panel has for one of the running costs.
  abbrev pub drawn_point : VenuePoint N → CostPoint N
  drawn_point p = point_of p.record_of p.value

  points_from-series_from :
      (running : List (Text × N)) (records : List (TakerCostRecord N))
      → points_from total cumulative running records ≡ map drawn_point (series_from running records)
  unfolding cost_value
  points_from-series_from running [] = refl
  points_from-series_from running (r ∷ records) =
      ap
        (λ (l : List (CostPoint N)).
          point_of r (n.add (running_get r.venue running) r.trade_cost_usd) ∷ l)
        (points_from-series_from
          (running_set r.venue (n.add (running_get r.venue running) r.trade_cost_usd) running)
          records)

  -- The points of a venue among the running costs, in order of date.
  abbrev pub HasRunningCosts : List (TakerCostRecord N) → CostSeries N → Type 0
  HasRunningCosts records item =
      item.points
      ≡ sort not_after (
          with_key ◌===◌ (λ (p : CostPoint N). p.venue) item.venue
            (map drawn_point (cumulative_venue_series records)))

  -- With whole costs added up, the series of each venue is its points among the running costs, in order
  -- of date.
  pub build_cost_series-HasRunningCosts :
      (collate : Text → Text → Bool) (records : List (TakerCostRecord N))
      → All (HasRunningCosts records) (build_cost_series collate records total cumulative)
  unfolding build_cost_series cumulative_venue_series
  build_cost_series-HasRunningCosts collate records =
      let points = points_from total cumulative [] records in
      let groups = group_by ◌===◌ (λ (p : CostPoint N). p.venue) points in
      All-sort _ (HasRunningCosts records) (map series_of groups) (
        (All-map (HasRunningCosts records) series_of groups).1 (
          All-imp (IsWhole ◌===◌ (λ (p : CostPoint N). p.venue) points) _ groups
            (λ (venue, group) h. ap (sort not_after) (
              h
              ∙ ap (with_key ◌===◌ (λ (p : CostPoint N). p.venue) venue)
                  (points_from-series_from [] records)))
            (group_by-IsWhole ◌===◌ (λ (p : CostPoint N). p.venue) ===_iff points)))
