-- ===== src/TakerCost/Window/Stable.antt =====
-- Where the stable window of the costs starts (stableCostWindow of frontend/src/lib/taker-cost.ts).
use mathlib.Core.Option.{some-injective}
use perps_latency_benchmark.Prelude.{
  All-zip, ◌<◌, subst, ℕ, ◌≤◌, ◌≡◌, refl, Bool, true, false, ◌&&◌, Bool-cases, inl, inr, some, List,
  [], ◌∷◌, keep, Text, MemText, includes_text, includes_text_iff, leb, ◌==◌, ==_iff, All, arith,
}
use perps_latency_benchmark.Prelude.Sorting.{All-sort_inv, sort-IsSorted, IsSorted, All-sort}
use perps_latency_benchmark.TakerCost.{TakerCostRecord}
use perps_latency_benchmark.TakerCost.Groups.{
  group_by-covers, find_group, group_by, IsWhole, group_by-IsWhole,
}
use perps_latency_benchmark.TakerCost.Window.{
  cycle_key, has_venues, clean_venues, minute_records, first_complete, not_later, cycles_of,
  first_complete_clean_cycle, is_stable, stable_cost_window,
}

-- Every required venue is among the given ones.
has_venues-All :
    (required venues : List Text)
    → has_venues required venues ≡ true
    → All (λ v. MemText v venues) required
has_venues-All [] venues h = tt
has_venues-All (v ∷ required) venues h =
    ((includes_text_iff venues v).0 (ground arith), has_venues-All required venues (ground arith))

module _ {N : Type 0} where
  -- In the minute that starts at `start` every required venue has a clean record.
  abbrev pub IsCompleteMinute : List (TakerCostRecord N) → List Text → ℕ → Type 0
  IsCompleteMinute records required start =
      All (λ v. MemText v (clean_venues (minute_records start records))) required

  first_complete-IsCompleteMinute :
      (records : List (TakerCostRecord N)) (required : List Text)
      → (cycles : List (ℕ × List (TakerCostRecord N))) (start : ℕ)
      → All (IsWhole ◌==◌ (λ (r : TakerCostRecord N). cycle_key r.date) records) cycles
      → first_complete required cycles ≡ some start
      → IsCompleteMinute records required start
  first_complete-IsCompleteMinute records required [] start w h = cc
  first_complete-IsCompleteMinute records required ((key, group) ∷ cycles) start (w, ws) h =
      elim (Bool-cases (has_venues required (clean_venues group))) [
        | inl e ↦
            subst (λ k. IsCompleteMinute records required k) (some-injective key start (rw e at h))
              (has_venues-All required _
                (subst (λ g. has_venues required (clean_venues g) ≡ true) w e))
        | inr e ↦ first_complete-IsCompleteMinute records required cycles start ws (rw e at h)
      ]

  first_complete_clean_cycle-IsCompleteMinute :
      (records : List (TakerCostRecord N)) (required : List Text) (start : ℕ)
      → first_complete_clean_cycle records required ≡ some start
      → IsCompleteMinute records required start
  unfolding first_complete_clean_cycle
  first_complete_clean_cycle-IsCompleteMinute records [] start h = cc
  first_complete_clean_cycle-IsCompleteMinute records (v ∷ required) start h =
      first_complete-IsCompleteMinute records (v ∷ required) (cycles_of records) start
        (All-sort not_later _ _
          (group_by-IsWhole ◌==◌ (λ (r : TakerCostRecord N). cycle_key r.date) ==_iff records))
        h

  -- A minute in which not every required venue has a clean record.
  abbrev pub IsIncomplete : List (TakerCostRecord N) → List Text → ℕ → Type 0
  IsIncomplete records required minute =
      has_venues required (clean_venues (minute_records minute records)) ≡ false

  abbrev IsPassed : List Text → ℕ → ℕ × List (TakerCostRecord N) → Type 0
  IsPassed required start cycle =
      cycle.0 < start → has_venues required (clean_venues cycle.1) ≡ false

  none-IsPassed :
      (required : List Text) (start : ℕ) (group : List (TakerCostRecord N))
      → (cycles : List (ℕ × List (TakerCostRecord N)))
      → All (λ cycle. not_later (start, group) cycle ≡ true) cycles
      → All (IsPassed required start) cycles
  none-IsPassed required start group [] h = tt
  none-IsPassed required start group (cycle ∷ cycles) (h, hs) =
      (λ earlier. ground arith, none-IsPassed required start group cycles hs)

  first_complete-IsPassed :
      (required : List Text) (cycles : List (ℕ × List (TakerCostRecord N))) (start : ℕ)
      → IsSorted not_later cycles
      → first_complete required cycles ≡ some start
      → All (IsPassed required start) cycles
  first_complete-IsPassed required [] start sorted h = cc
  first_complete-IsPassed required ((key, group) ∷ cycles) start (before, sorted) h =
      elim (Bool-cases (has_venues required (clean_venues group))) [
        | inl e ↦
            subst (λ k. All (IsPassed required k) ((key, group) ∷ cycles))
              (some-injective key start (rw e at h))
              (
                λ (earlier : key < key). let absurd : ⊥ = omega arith in elim absurd [ ],
                none-IsPassed required key group cycles before,
              )
        | inr e ↦ (λ earlier. e, first_complete-IsPassed required cycles start sorted (rw e at h))
      ]

  first_complete_clean_cycle-first :
      (records : List (TakerCostRecord N)) (required : List Text) (start minute : ℕ)
      → first_complete_clean_cycle records required ≡ some start
      → minute < start
      → IsIncomplete records required minute
  unfolding first_complete_clean_cycle includes_text
  first_complete_clean_cycle-first records [] start minute h earlier = cc
  first_complete_clean_cycle-first records (v ∷ required) start minute h earlier =
      let key = λ (r : TakerCostRecord N). cycle_key r.date in
      let groups = group_by ◌==◌ key records in
      let sorted =
        sort-IsSorted not_later (λ x y e. ground arith) (λ x y z e f. ground arith) groups in
      let passed =
        All-sort_inv not_later (IsPassed (v ∷ required) start) groups
          (first_complete-IsPassed (v ∷ required) (cycles_of records) start sorted h) in
      elim (find_group ◌==◌ key ==_iff
        (λ cycle. IsWhole ◌==◌ key records cycle × IsPassed (v ∷ required) start cycle) minute
        groups (All-zip _ _ groups (group_by-IsWhole ◌==◌ key ==_iff records) passed)) [
          | inl n ↦ rw (group_by-covers ◌==◌ key ==_iff records minute n) refl
          | inr (group, (whole, incomplete)) ↦
              subst (λ g. has_venues (v ∷ required) (clean_venues g) ≡ false) whole
                (incomplete earlier)
        ]

  All-keep-is_stable :
      (start : ℕ) (records : List (TakerCostRecord N))
      → All
          (λ (r : TakerCostRecord N). (r.clean ≡ true) × (start ≤ r.date))
          (keep (is_stable (some start)) records)
  All-keep-is_stable start [] = tt
  All-keep-is_stable start (r ∷ records) = elim (Bool-cases (r.clean && leb start r.date)) [
    | inl e ↦ rw e ((ground arith, ground arith), All-keep-is_stable start records)
    | inr e ↦ rw e (All-keep-is_stable start records)
  ]

module _ {N : Type 0} (collate : Text → Text → Bool) where
  -- Where a minute is found that the stable window starts from, every venue has a clean record in it
  -- and in no earlier minute do all venues have one, and the records of the window are clean and none
  -- of them is before that minute.
  pub stable_cost_window-IsStable :
      (records : List (TakerCostRecord N)) (start : ℕ)
      → let window = stable_cost_window collate records in
        first_complete_clean_cycle records window.required_venues ≡ some start
        → IsCompleteMinute records window.required_venues start
          × ((minute : ℕ) → minute < start → IsIncomplete records window.required_venues minute)
          × All (λ (r : TakerCostRecord N). (r.clean ≡ true) × (start ≤ r.date)) window.records
  unfolding stable_cost_window first_complete_clean_cycle
  stable_cost_window-IsStable records start h = (
    first_complete_clean_cycle-IsCompleteMinute records _ start h,
    λ minute earlier. first_complete_clean_cycle-first records _ start minute h earlier,
    rw h (All-keep-is_stable start records),
  )
