-- ===== src/Throughput/Tooltip.antt =====
-- What the tooltip of the panel is about (showTPSAtPointer of
-- frontend/src/components/dashboard/exchange-tps-panel.tsx): the date of the points that is nearest to the
-- pointer.
use perps_latency_benchmark.Prelude.{
  All-keep_of, ℕ, zero, suc, ◌≤◌, ◌<◌, ◌≡◌, refl, subst, inl, inr, Bool, true, not, Option, none,
  some, List, [], ◌∷◌, map, arith, length, keep, any, All, All-map, All-imp, leb, ◌==◌, ==_iff,
  Bool-cases,
}
use perps_latency_benchmark.Prelude.Sorting.{
  insert_sorted, sort, IsSorted, sort-IsSorted, All-sort, All-sort_inv,
}
use perps_latency_benchmark.Throughput.{TpsPoint, unique, unique_sorted_dates}
use perps_latency_benchmark.Throughput.Nearest.{
  nearest_date_at_x, nearest_date_at_x-IsNearest, Returns, IsAnswer, IsAscending, distance, ◌!◌,
}

All-at : (P : ℕ → Type 0) (xs : List ℕ) (i : ℕ) → All P xs → i < length xs → P (xs ! i)
All-at P [] i h k = ground (arith, k)
All-at P (x ∷ xs) zero h k = h.0
All-at P (x ∷ xs) (suc i) h k = All-at P xs i h.1 (omega arith)

All-of_at : (P : ℕ → Type 0) (xs : List ℕ) → ((i : ℕ) → i < length xs → P (xs ! i)) → All P xs
All-of_at P [] h = tt
All-of_at P (x ∷ xs) h = (h 0 (omega arith), All-of_at P xs λ i k. h (suc i) (omega (arith, k)))

IsSorted-IsAscending : (xs : List ℕ) → IsSorted leb xs → IsAscending xs
IsSorted-IsAscending [] h i j k l = ground (arith, l)
IsSorted-IsAscending (x ∷ xs) (h, hs) zero zero k l = omega arith
IsSorted-IsAscending (x ∷ xs) (h, hs) zero (suc j) k l =
    ground (arith, All-at (λ y. leb x y ≡ true) xs j h)
IsSorted-IsAscending (x ∷ xs) (h, hs) (suc i) zero k l = ground (arith, k)
IsSorted-IsAscending (x ∷ xs) (h, hs) (suc i) (suc j) k l =
    IsSorted-IsAscending xs hs i j (omega arith) (omega arith)

All-unique : (P : ℕ → Type 0) (xs : List ℕ) → All P xs → All P (unique xs)
All-unique P [] h = tt
All-unique P (x ∷ xs) h = (h.0, All-keep_of P _ (unique xs) (All-unique P xs h.1))

-- Of a value and the others.
All-keep_inv :
    (P : ℕ → Type 0) (x : ℕ) (xs : List ℕ) → P x → All P (keep (λ y. not (x == y)) xs) → All P xs
All-keep_inv P x [] h k = tt
All-keep_inv P x (y ∷ xs) h k = elim (Bool-cases (x == y)) [
  | inl e ↦ (subst P ((==_iff x y).0 e) h, All-keep_inv P x xs h (rw e at k))
  | inr e ↦ let (l, ls) = rw e at k in (l, All-keep_inv P x xs h ls)
]

All-unique_inv : (P : ℕ → Type 0) (xs : List ℕ) → All P (unique xs) → All P xs
All-unique_inv P [] h = tt
All-unique_inv P (x ∷ xs) (h, hs) = (h, All-unique_inv P xs (All-keep_inv P x (unique xs) h hs))

insert_sorted-IsNonempty :
    (x : ℕ) (xs : List ℕ) (target : ℕ) → ¬ (IsAnswer (insert_sorted leb x xs) target none)
insert_sorted-IsNonempty x [] target h = h
insert_sorted-IsNonempty x (y ∷ xs) target h = ground (arith, h)

Returns-imp :
    {A : Type 0} {P Q : A → Type 0} (o : Option A)
    → ((a : A) → P a → Q a)
    → Returns o P
    → Returns o Q
Returns-imp none f h = h
Returns-imp (some a) f h = f a h

module _ {N : Type 0} where
  abbrev pub has_date : List (TpsPoint N) → ℕ → Bool
  has_date points date = any (λ (point : TpsPoint N). point.date == date) points

  has_date-All :
      (points : List (TpsPoint N))
      → All (λ date. has_date points date ≡ true) (map (λ (point : TpsPoint N). point.date) points)
  has_date-All [] = tt
  has_date-All (p ∷ points) = (
    ground arith,
    All-imp _ _ (map (λ (point : TpsPoint N). point.date) points) (λ x h. rw h (ground arith))
        (has_date-All points),
  )

  -- A date of the points such that no point is nearer to the target.
  abbrev pub IsTooltipDate : List (TpsPoint N) → ℕ → Option ℕ → Type 0
  IsTooltipDate points target none = points ≡ []
  IsTooltipDate points target (some date) =
      (has_date points date ≡ true)
      × All (λ (point : TpsPoint N). distance date target ≤ distance point.date target) points

  dates-IsAscending : (points : List (TpsPoint N)) → IsAscending (unique_sorted_dates points)
  unfolding unique_sorted_dates
  dates-IsAscending points = IsSorted-IsAscending _ (
      sort-IsSorted leb (λ x y h. ground arith) (λ x y z h k. ground arith)
        (unique (map (λ (point : TpsPoint N). point.date) points)))

  IsAnswer-IsTooltipDate :
      (points : List (TpsPoint N)) (target : ℕ) (answer : Option ℕ)
      → IsAnswer (unique_sorted_dates points) target answer
      → IsTooltipDate points target answer
  unfolding unique_sorted_dates
  IsAnswer-IsTooltipDate points target (some best) h =
      let dates = map (λ (point : TpsPoint N). point.date) points in
      (
        subst (λ date. has_date points date ≡ true) h.found
            (All-at (λ date. has_date points date ≡ true) (sort leb (unique dates)) h.index
              (All-sort leb (λ date. has_date points date ≡ true) (unique dates)
                (All-unique _ dates (has_date-All points)))
              h.inside),
        (All-map (λ date. distance best target ≤ distance date target)
              (λ (point : TpsPoint N). point.date) points).0
            (All-unique_inv _ dates (
              All-sort_inv leb _ (unique dates) (All-of_at _ (sort leb (unique dates)) h.nearest))),
      )
  IsAnswer-IsTooltipDate [] target none h = refl
  IsAnswer-IsTooltipDate (p ∷ points) target none h =
      elim (insert_sorted-IsNonempty p.date
        (sort leb (
          keep (λ w. not (p.date == w)) (unique (map (λ (point : TpsPoint N). point.date) points))))
        target h) [ ]

  -- The search for the date under the pointer ends, with `null` only where the panel has no points, else
  -- with the date of a point such that no point is nearer in time to the pointer.
  pub nearest_date_at_x-IsTooltipDate :
      (points : List (TpsPoint N)) (target : ℕ)
      → Returns
          (nearest_date_at_x (unique_sorted_dates points) target)
          (IsTooltipDate points target)
  nearest_date_at_x-IsTooltipDate points target =
      Returns-imp _ (IsAnswer-IsTooltipDate points target)
        (nearest_date_at_x-IsNearest (unique_sorted_dates points) target (dates-IsAscending points))
