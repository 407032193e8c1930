-- ===== src/Dashboard/Stats.antt =====
-- The figures on top of the page (getStats and minBy of
-- frontend/src/components/dashboard/dashboard-page.tsx).
use perps_latency_benchmark.Prelude.{
  ◌≡◌, Bool, true, false, ◌&&◌, Option, none, some, List, [], ◌∷◌, map, keep, All, if◌then◌else◌,
}
use mathlib.Core.List.{Mem}
use perps_latency_benchmark.Data.{SummaryRow}
use perps_latency_benchmark.Numbers.{Numbers, positive}
use perps_latency_benchmark.Latency.{confirm_p50, confirm_p95}
use perps_latency_benchmark.TakerCost.{is_taker_order}
use perps_latency_benchmark.TakerCost.Series.{sum}
use perps_latency_benchmark.Dashboard.{is_post_only_order}

pub record Stats (N : Type 0) : Type 0 where
  pub fastest_post_only_p95 : Option (SummaryRow N)
  pub fastest_taker_p50 : Option (SummaryRow N)
  pub measurement_count : N

abbrev pub item_of : {T N : Type 0} → Option (T × N) → Option T
item_of none = none
item_of (some (best, best_score)) = some best

module _ {N : Type 0} ⦃n : Numbers N⦄ where
  module _ {T : Type 0} (score : T → N) where
    -- `best` and `bestScore`: every finite score is below the first one, Infinity.
    abbrev pub is_better : Option (T × N) → N → Bool
    is_better none item_score = n.is_finite item_score
    is_better (some (best, best_score)) item_score =
        n.is_finite item_score && n.lt item_score best_score

    abbrev pub min_from : Option (T × N) → List T → Option (T × N)
    min_from best [] = best
    min_from best (item ∷ items) =
        let taken = min_from (some (item, score item)) items in
        let passed = min_from best items in if is_better best (score item) then taken else passed

    unfoldable pub min_by : List T → Option T
    min_by items = item_of (min_from none items)

    -- An item with a finite score, and no item has a finite score below it; or no score is finite.
    abbrev pub IsLeast : List T → Option T → Type 0
    IsLeast items none = All (λ item. n.is_finite (score item) ≡ false) items
    IsLeast items (some best) =
        Mem best items
        × (n.is_finite (score best) ≡ true)
        × All (λ item. n.is_finite (score item) ≡ true → n.lt (score item) (score best) ≡ false)
            items

  unfoldable pub is_rankable_summary_row : SummaryRow N → Bool
  unfolding confirm_p50
  is_rankable_summary_row row =
      positive row.ok && n.is_finite (confirm_p50 row false) && positive (confirm_p50 row false)

  unfoldable pub get_stats : List (SummaryRow N) → Bool → Stats N
  unfolding sum min_by is_rankable_summary_row
  get_stats rows subtract_network_floor =
      let ranked = keep is_rankable_summary_row rows in
      record {
        fastest_post_only_p95 =
            min_by (λ (row : SummaryRow N). confirm_p95 row subtract_network_floor)
              (keep (λ (row : SummaryRow N). is_post_only_order (some row.order_type)) ranked);
        fastest_taker_p50 =
            min_by (λ (row : SummaryRow N). confirm_p50 row subtract_network_floor)
              (keep (λ (row : SummaryRow N). is_taker_order (some row.order_type)) ranked);
        measurement_count = sum (map (λ (row : SummaryRow N). row.count) rows);
      }
