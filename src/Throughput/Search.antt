-- ===== src/Throughput/Search.antt =====
-- The point of a series at a date (findPointAtTime of
-- frontend/src/components/dashboard/exchange-tps-panel.tsx). `high` is one above the `high` of the source,
-- which can be -1. A loop that runs out of fuel, or that reads beyond the points, gives `none`.
use perps_latency_benchmark.Prelude.{
  ℕ, zero, suc, ◌+◌, ◌-◌, ◌/◌, ◌≤◌, ◌<◌, ◌≡◌, refl, ◌≢◌, true, false, Option, none, some, List, [],
  ◌∷◌, arith, length, get_elem?, All, get_elem?-IsInside, ltb, leb, ◌==◌,
}
use perps_latency_benchmark.Prelude.Sorting.{sort, IsSorted, sort-IsSorted}
use perps_latency_benchmark.Numbers.{Numbers}
use perps_latency_benchmark.Throughput.{TpsPoint, not_after}
use perps_latency_benchmark.Throughput.Nearest.{Returns}

module _ {N : Type 0} where
  unfoldable pub find_loop :
      ℕ → List (TpsPoint N) → (target low high : ℕ) → Option (Option (TpsPoint N))
  find_loop zero points target low high = none
  find_loop (suc fuel) points target low high =
      let mid = (low + high - 1) / 2 in
      elim (ltb low high) [
        | false ↦ some none
        | true ↦ elim (get_elem? points mid) [
          | none ↦ none
          | some point ↦ elim (point.date == target) [
            | true ↦ some (some point)
            | false ↦ elim (ltb point.date target) [
              | true ↦ find_loop fuel points target (mid + 1) high
              | false ↦ find_loop fuel points target low mid
            ]
          ]
        ]
      ]

  -- The inner `none` is `null`.
  unfoldable pub find_point_at_time : List (TpsPoint N) → ℕ → Option (Option (TpsPoint N))
  unfolding find_loop
  find_point_at_time points target = find_loop (suc (length points)) points target 0 (length points)

  abbrev pub date_of : Option (TpsPoint N) → ℕ
  date_of none = 0
  date_of (some point) = point.date

  abbrev pub date_at : List (TpsPoint N) → ℕ → ℕ
  date_at points i = date_of (get_elem? points i)

  abbrev pub IsInOrder : List (TpsPoint N) → Type 0
  IsInOrder points = (i j : ℕ) → i ≤ j → j < length points → date_at points i ≤ date_at points j

  pub record Occurs (points : List (TpsPoint N)) (point : TpsPoint N) : Type 0 where
    pub index : ℕ
    pub found : get_elem? points index ≡ some point

  abbrev OccursAt : List (TpsPoint N) → Option (TpsPoint N) → Type 0
  OccursAt points none = Unit
  OccursAt points (some point) = Occurs points point

  get_elem?-Occurs :
      (points : List (TpsPoint N)) (i : ℕ) (o : Option (TpsPoint N))
      → get_elem? points i ≡ o
      → OccursAt points o
  get_elem?-Occurs points i none h = tt
  get_elem?-Occurs points i (some point) h = record { index = i; found = h }

  -- What an answer says of the point at `i`, from `low` up to `high`.
  abbrev Explains :
      List (TpsPoint N) → (target low high i : ℕ) → Option (Option (TpsPoint N)) → Type 0
  Explains points target low high i none = ⊥
  Explains points target low high i (some none) = low ≤ i → i < high → date_at points i ≢ target
  Explains points target low high i (some (some point)) =
      (point.date ≡ target) × Occurs points point

  module _ (points : List (TpsPoint N)) (target : ℕ) (ordered : IsInOrder points) where
    find_loop-Explains :
        (fuel low high i : ℕ)
        → low ≤ high
        → high < low + fuel
        → high ≤ length points
        → Explains points target low high i (find_loop fuel points target low high)
    unfolding find_loop
    find_loop-Explains zero low high i o h k = ground arith
    find_loop-Explains (suc fuel) low high i o h k = ground (
      arith,
      get_elem?-IsInside points ((low + high - 1) / 2),
      get_elem?-Occurs points ((low + high - 1) / 2) _ refl,
      ordered i ((low + high - 1) / 2),
      ordered ((low + high - 1) / 2) i,
      find_loop-Explains fuel ((low + high - 1) / 2 + 1) high i,
      find_loop-Explains fuel low ((low + high - 1) / 2) i,
    )

  -- What the search is to give: a point of the series at the date, or `null` where no point is at it.
  abbrev pub IsPointAt : List (TpsPoint N) → ℕ → Option (TpsPoint N) → Type 0
  IsPointAt points target none = (i : ℕ) → i < length points → date_at points i ≢ target
  IsPointAt points target (some point) = (point.date ≡ target) × Occurs points point

  Explains-IsPointAt :
      (points : List (TpsPoint N)) (target : ℕ) (answer : Option (Option (TpsPoint N)))
      → ((i : ℕ) → Explains points target 0 (length points) i answer)
      → Returns answer (IsPointAt points target)
  Explains-IsPointAt points target none h = h 0
  Explains-IsPointAt points target (some none) h = λ i. h i (omega arith)
  Explains-IsPointAt points target (some (some point)) h = h 0

  -- On points in order of date the search ends after at most one round more than there are points,
  -- reads none beyond them, and gives a point of the series at the date if there is one, else `null`.
  pub find_point_at_time-IsPointAt :
      (points : List (TpsPoint N)) (target : ℕ)
      → IsInOrder points
      → Returns (find_point_at_time points target) (IsPointAt points target)
  unfolding find_point_at_time
  find_point_at_time-IsPointAt points target ordered = Explains-IsPointAt points target _ λ i.
      find_loop-Explains points target ordered (suc (length points)) 0 (length points) i
        (omega arith) (omega arith) (omega arith)

module _ {N : Type 0} ⦃n : Numbers N⦄ where
  All-date_at :
      (d : ℕ) (points : List (TpsPoint N)) (i : ℕ)
      → All (λ (p : TpsPoint N). leb d p.date ≡ true) points
      → i < length points
      → d ≤ date_at points i
  All-date_at d [] i h k = ground (arith, k)
  All-date_at d (p ∷ points) zero h k = ground (arith, h.0)
  All-date_at d (p ∷ points) (suc i) h k = All-date_at d points i h.1 (omega arith)

  IsSorted-IsInOrder : (points : List (TpsPoint N)) → IsSorted not_after points → IsInOrder points
  IsSorted-IsInOrder [] h i j k l = ground (arith, l)
  IsSorted-IsInOrder (p ∷ points) h zero zero k l = omega arith
  IsSorted-IsInOrder (p ∷ points) h zero (suc j) k l = All-date_at p.date points j h.0 (omega arith)
  IsSorted-IsInOrder (p ∷ points) h (suc i) zero k l = ground (arith, k)
  IsSorted-IsInOrder (p ∷ points) h (suc i) (suc j) k l =
      IsSorted-IsInOrder points h.1 i j (omega arith) (omega arith)

  -- The points of a series are in order.
  pub sort-IsInOrder : (points : List (TpsPoint N)) → IsInOrder (sort not_after points)
  sort-IsInOrder points =
      IsSorted-IsInOrder (sort not_after points)
        (sort-IsSorted not_after (λ x y h. ground arith) (λ x y z h k. ground arith) points)
