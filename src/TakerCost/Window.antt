-- ===== src/TakerCost/Window.antt =====
-- The stable window of the costs (stableCostWindow of frontend/src/lib/taker-cost.ts): from the first
-- minute in which every venue has a clean record. A minute is its first millisecond since 1970; the
-- source orders the ISO texts of the minutes, which for the years 1970 to 9999 is the order in time.
-- `collate` is whether the platform's `localeCompare` puts the first text at or before the second.
pub mod Stable
use mathlib.Core.Option.{some-injective}
use perps_latency_benchmark.Prelude.{
  All-zip, ◌<◌, subst, ℕ, ◌-◌, ◌%◌, ◌≤◌, ◌≡◌, refl, Bool, true, false, not, ◌&&◌, Bool-cases, inl,
  inr, Option, none, some, List, [], ◌∷◌, map, keep, length, Text, MemText, includes_text,
  includes_text_iff, leb, ◌==◌, ==_iff, All, if◌then◌else◌, arith,
}
use perps_latency_benchmark.Prelude.Sorting.{All-sort_inv, sort-IsSorted, IsSorted, sort, All-sort}
use perps_latency_benchmark.TakerCost.{TakerCostRecord}
use perps_latency_benchmark.TakerCost.Groups.{
  group_by-covers, find_group, group_by, with_key, IsWhole, group_by-IsWhole,
}

abbrev pub cycle_key : ℕ → ℕ
cycle_key date = date - date % 60_000

-- `[...new Set(values)]`
abbrev pub unique : List Text → List Text
unique [] = []
unique (v ∷ values) = v ∷ keep (λ w. not (includes_text (v ∷ []) w)) (unique values)

unfoldable pub unique_sorted : (Text → Text → Bool) → List Text → List Text
unique_sorted collate values = sort collate (unique values)

-- `requiredVenues.every((venue) => cleanVenues.has(venue))`
abbrev pub has_venues : List Text → List Text → Bool
has_venues [] venues = true
has_venues (required ∷ rest) venues = includes_text venues required && has_venues rest venues

module _ {N : Type 0} where
  abbrev pub clean_venues : List (TakerCostRecord N) → List Text
  clean_venues records =
      map (λ (r : TakerCostRecord N). r.venue) (keep (λ (r : TakerCostRecord N). r.clean) records)

  abbrev pub minute_records : ℕ → List (TakerCostRecord N) → List (TakerCostRecord N)
  minute_records start records =
      with_key ◌==◌ (λ (r : TakerCostRecord N). cycle_key r.date) start records

  abbrev pub first_complete : List Text → List (ℕ × List (TakerCostRecord N)) → Option ℕ
  first_complete required [] = none
  first_complete required ((key, records) ∷ cycles) =
      let later = first_complete required cycles in
      if has_venues required (clean_venues records) then some key else later

  abbrev pub not_later : ℕ × List (TakerCostRecord N) → ℕ × List (TakerCostRecord N) → Bool
  not_later (left, _) (right, _) = leb left right

  abbrev pub cycles_of : List (TakerCostRecord N) → List (ℕ × List (TakerCostRecord N))
  cycles_of records =
      sort not_later (group_by ◌==◌ (λ (r : TakerCostRecord N). cycle_key r.date) records)

  unfoldable pub first_complete_clean_cycle : List (TakerCostRecord N) → List Text → Option ℕ
  unfolding group_by
  first_complete_clean_cycle records [] = none
  first_complete_clean_cycle records (v ∷ required) =
      first_complete (v ∷ required) (cycles_of records)

  -- `record.clean && (!stableStart || record.date >= stableStart)`
  abbrev pub is_stable : Option ℕ → TakerCostRecord N → Bool
  is_stable none r = r.clean
  is_stable (some start) r = r.clean && leb start r.date

  abbrev pub first_date : List (TakerCostRecord N) → Option ℕ
  first_date [] = none
  first_date (r ∷ records) = some r.date

  abbrev pub last_date : List (TakerCostRecord N) → Option ℕ
  last_date [] = none
  last_date (r ∷ []) = some r.date
  last_date (r ∷ s ∷ records) = last_date (s ∷ records)

pub record StableCostWindow (N : Type 0) : Type 0 where
  pub dirty_count : ℕ
  pub end : Option ℕ
  pub required_venues : List Text
  pub records : List (TakerCostRecord N)
  pub start : Option ℕ

module _ {N : Type 0} (collate : Text → Text → Bool) where
  unfoldable pub stable_cost_window : List (TakerCostRecord N) → StableCostWindow N
  stable_cost_window records =
      let required = unique_sorted collate (map (λ (r : TakerCostRecord N). r.venue) records) in
      let stable = keep (is_stable (first_complete_clean_cycle records required)) records in
      record {
        dirty_count = length (keep (λ (r : TakerCostRecord N). not r.clean) records);
        end = last_date stable;
        required_venues = required;
        records = stable;
        start = first_date stable;
      }
