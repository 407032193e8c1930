-- ===== src/TakerCost/Summary.antt =====
-- The slippage of each venue (summarizeSlippage of frontend/src/lib/taker-cost.ts).
pub mod Percentile
use perps_latency_benchmark.Prelude.{
  ℕ, zero, suc, ◌+◌, ◌-◌, ◌*◌, ◌/◌, ◌%◌, ◌≤◌, ◌<◌, ◌≡◌, refl, sym, ap, ◌∙◌, subst, ◌≢◌, ◌↔◌, ◌⊎◌,
  inl, inr, Bool, true, false, not, ◌&&◌, ◌||◌, Option, none, some, List, [], ◌∷◌, ◌++◌, map, arith,
  length, get_elem?, keep, any, All, All-map, All-imp, get_elem?-IsInside, Text, txt, ◌===◌,
  ===_iff, ltb, leb, ◌==◌, ==_iff, Bool-cases, if◌then◌else◌, value_or, min, max,
}
use perps_latency_benchmark.Prelude.Sorting.{sort}
use perps_latency_benchmark.Numbers.{Numbers, nought}
use perps_latency_benchmark.TakerCost.{TakerCostRecord}
use perps_latency_benchmark.TakerCost.Groups.{group_by}
use perps_latency_benchmark.TakerCost.Series.{sum}

pub record VenueSlippageSummary (N : Type 0) : Type 0 where
  pub clean_count : ℕ
  pub cost_gap_mean_usd : Option N
  pub entry_mean_bps : Option N
  pub exit_mean_bps : Option N
  pub fee_mean_per_fill_usd : N
  pub mean_cost_usd : N
  pub mean_fill_cost_usd : N
  pub price_move_mean_usd : N
  pub sample_count : ℕ
  pub total_cost_usd : N
  pub total_slippage_mean_bps : Option N
  pub total_slippage_p95_bps : Option N
  pub venue : Text

-- `Math.min(count - 1, Math.max(0, Math.ceil(count * 0.95) - 1))`
abbrev pub percentile_index : ℕ → ℕ
percentile_index count = min (count - 1) ((95 * count + 99) / 100 - 1)

module _ {N : Type 0} ⦃n : Numbers N⦄ where
  -- The order of `sort((left, right) => left - right)` on finite numbers.
  abbrev pub not_above : N → N → Bool
  not_above left right = not (n.lt right left)

  abbrev pub finite_values : List (Option N) → List N
  finite_values [] = []
  finite_values (none ∷ rest) = finite_values rest
  finite_values (some value ∷ rest) =
      let later = finite_values rest in if n.is_finite value then value ∷ later else later

  abbrev pub values : List (TakerCostRecord N) → (TakerCostRecord N → Option N) → List N
  values records get_value = finite_values (map get_value records)

  unfoldable pub mean : List N → Option N
  unfolding sum
  mean [] = none
  mean (v ∷ values) = some (n.div (sum (v ∷ values)) (n.of_ℕ (length (v ∷ values))))

  -- At 0.95.
  unfoldable pub percentile : List N → Option N
  percentile [] = none
  percentile (v ∷ values) =
      get_elem? (sort not_above (v ∷ values)) (percentile_index (length (v ∷ values)))

  -- `count > 0 ? total / divisor : 0`
  abbrev per : ℕ → N → ℕ → N
  per zero total divisor = nought
  per (suc count) total divisor = n.div total (n.of_ℕ divisor)

  unfoldable pub summary_of : Text × List (TakerCostRecord N) → VenueSlippageSummary N
  unfolding sum mean percentile
  summary_of (venue, records) =
      let clean = keep (λ (r : TakerCostRecord N). r.clean) records in
      let count = length clean in
      let total_cost = sum (map (λ (r : TakerCostRecord N). r.trade_cost_usd) clean) in
      let total_fees =
        sum (map (λ (r : TakerCostRecord N). n.add r.entry_fee_usd r.exit_fee_usd) clean) in
      let slippage = values clean (λ r. r.total_slippage_bps) in
      record {
        clean_count = count;
        cost_gap_mean_usd = mean (values clean (λ r. r.actual_cost_gap_usd));
        entry_mean_bps = mean (values clean (λ r. r.entry_slippage_bps));
        exit_mean_bps = mean (values clean (λ r. r.exit_slippage_bps));
        fee_mean_per_fill_usd = per count total_fees (count * 2);
        mean_cost_usd = per count total_cost count;
        mean_fill_cost_usd = per count total_cost (count * 2);
        price_move_mean_usd =
            value_or (mean (values clean (λ r. some r.price_move_cost_usd))) nought;
        sample_count = length records;
        total_cost_usd = total_cost;
        total_slippage_mean_bps = mean slippage;
        total_slippage_p95_bps = percentile (map n.abs slippage);
        venue = venue;
      }

  -- `rightScore - leftScore`, of which a missing one is -Infinity: below every other.
  abbrev pub not_lower : Option N → Option N → Bool
  not_lower left none = true
  not_lower none (some right) = false
  not_lower (some left) (some right) = not (n.lt left right)

  abbrev pub worst_first : VenueSlippageSummary N → VenueSlippageSummary N → Bool
  worst_first left right = not_lower left.total_slippage_p95_bps right.total_slippage_p95_bps

  unfoldable pub summarize_slippage : List (TakerCostRecord N) → List (VenueSlippageSummary N)
  unfolding group_by summary_of ◌===◌
  summarize_slippage records =
      sort worst_first
        (map summary_of (group_by ◌===◌ (λ (r : TakerCostRecord N). r.venue) records))
