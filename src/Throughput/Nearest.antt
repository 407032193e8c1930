-- ===== src/Throughput/Nearest.antt =====
-- The date that the tooltip shows for a place on the time axis (nearestDateAtX of
-- frontend/src/components/dashboard/exchange-tps-panel.tsx). A loop that runs out of fuel gives `none`.
use perps_latency_benchmark.Prelude.{
  ℕ, zero, suc, ◌+◌, ◌-◌, ◌/◌, ◌≤◌, ◌<◌, ◌≡◌, refl, ◌⊎◌, inl, inr, Bool, true, false, Option, none,
  some, List, [], ◌∷◌, arith, length, get_elem?, ltb, leb, Bool-cases, if◌then◌else◌,
}

-- `times[index] < targetMs`, which is false where nothing is read.
abbrev pub is_before : Option ℕ → ℕ → Bool
is_before none target = false
is_before (some time) target = ltb time target

abbrev pub distance : ℕ → ℕ → ℕ
distance a b = (a - b) + (b - a)

unfoldable pub lower_loop : ℕ → List ℕ → (target low high : ℕ) → Option ℕ
lower_loop zero times target low high = none
lower_loop (suc fuel) times target low high =
    let mid = (low + high) / 2 in
    elim (ltb low high) [
      | false ↦ some low
      | true ↦ elim (is_before (get_elem? times mid) target) [
        | true ↦ lower_loop fuel times target (mid + 1) high
        | false ↦ lower_loop fuel times target low mid
      ]
    ]

-- `times[previous]` or `times[low]`
abbrev closer : ℕ → Option ℕ → Option ℕ → Option ℕ
closer target (some previous) (some next) =
    if leb (distance previous target) (distance next target) then some previous else some next
closer target _ _ = none

-- What is read where the loop ended.
abbrev read_nearest : List ℕ → ℕ → Option ℕ → Option (Option ℕ)
read_nearest times target none = none
read_nearest times target (some low) =
    some (closer target (get_elem? times (low - 1)) (get_elem? times low))

-- The outer `none` is a loop out of fuel, the inner one is `null`.
unfoldable pub nearest_date_at_x : List ℕ → ℕ → Option (Option ℕ)
unfolding lower_loop
nearest_date_at_x [] target = some none
nearest_date_at_x (t ∷ times) target =
    read_nearest (t ∷ times) target
      (lower_loop (length (t ∷ times)) (t ∷ times) target 0 (length times))

infix 60 ◌!◌
abbrev pub ◌!◌ : List ℕ → ℕ → ℕ
[] ! i = 0
(t ∷ times) ! zero = t
(t ∷ times) ! suc i = times ! i

get_elem?-eq-some :
    (times : List ℕ) (i : ℕ) → i < length times → get_elem? times i ≡ some (times ! i)
get_elem?-eq-some [] i h = ground (arith, h)
get_elem?-eq-some (t ∷ times) zero h = refl
get_elem?-eq-some (t ∷ times) (suc i) h = get_elem?-eq-some times i (omega arith)

abbrev pub IsAscending : List ℕ → Type 0
IsAscending times = (i j : ℕ) → i ≤ j → j < length times → times ! i ≤ times ! j

record Inv (times : List ℕ) (target low high : ℕ) : Type 0 where
  ordered : low ≤ high
  inside : high < length times
  below : (i : ℕ) → i < low → times ! i < target
  above : (i : ℕ) → high < i → i < length times → target ≤ times ! high

-- A run that ends, with a result that satisfies `P`.
abbrev pub Returns : {A : Type 0} → Option A → (A → Type 0) → Type 0
Returns none P = ⊥
Returns (some r) P = P r

module _ (times : List ℕ) (target : ℕ) (ascending : IsAscending times) where
  module _ {low high : ℕ} (inv : Inv times target low high) (h : low < high) where
    upper-Inv : times ! ((low + high) / 2) < target → Inv times target ((low + high) / 2 + 1) high
    upper-Inv c = grind (arith, ascending)

    lower-Inv : target ≤ times ! ((low + high) / 2) → Inv times target low ((low + high) / 2)
    lower-Inv c = grind arith

  lower_loop-Inv :
      (fuel low high : ℕ)
      → high < low + fuel
      → Inv times target low high
      → Returns (lower_loop fuel times target low high) (λ r. Inv times target r r)
  unfolding lower_loop
  lower_loop-Inv zero low high h inv = ground (arith, inv.ordered)
  lower_loop-Inv (suc fuel) low high h inv = ground (
    arith,
    inv.inside,
    inv.ordered,
    get_elem?-eq-some times ((low + high) / 2),
    upper-Inv inv,
    lower-Inv inv,
    lower_loop-Inv fuel ((low + high) / 2 + 1) high,
    lower_loop-Inv fuel low ((low + high) / 2),
  )

-- A date of the list that no other is nearer to the target than.
pub record IsNearest (times : List ℕ) (target best : ℕ) : Type 0 where
  pub index : ℕ
  pub inside : index < length times
  pub found : times ! index ≡ best
  pub nearest : (i : ℕ) → i < length times → distance best target ≤ distance (times ! i) target

abbrev pub IsAnswer : List ℕ → ℕ → Option ℕ → Type 0
IsAnswer times target (some best) = IsNearest times target best
IsAnswer [] target none = Unit
IsAnswer (t ∷ times) target none = ⊥

module _ (times : List ℕ) (target low : ℕ) (ascending : IsAscending times)
    (inv : Inv times target low low) where
  -- No date is nearer than both that are compared.
  distance-le :
      (i : ℕ)
      → i < length times
      → (distance (times ! (low - 1)) target ≤ distance (times ! i) target)
        ⊎ (distance (times ! low) target ≤ distance (times ! i) target)
  distance-le i h =
      ground (
        arith,
        inv.below i,
        inv.below (low - 1),
        inv.above i,
        ascending i (low - 1),
        ascending low i,
      )

  closer-IsAnswer :
      IsAnswer times target (closer target (get_elem? times (low - 1)) (get_elem? times low))
  closer-IsAnswer =
      rw
        (
          get_elem?-eq-some times (low - 1) (ground (arith, inv.inside)),
          get_elem?-eq-some times low inv.inside,
        )
        (elim (Bool-cases
          (leb (distance (times ! (low - 1)) target) (distance (times ! low) target))) [
            | inl e ↦ rw e (record {
              index = low - 1;
              inside = ground (arith, inv.inside);
              found = refl;
              nearest = λ i h. ground (arith, distance-le i h, e);
            })
            | inr e ↦ rw e (record {
              index = low;
              inside = inv.inside;
              found = refl;
              nearest = λ i h. ground (arith, distance-le i h, e);
            })
          ])

read_nearest-IsAnswer :
    (times : List ℕ) (target : ℕ) (low : Option ℕ)
    → IsAscending times
    → Returns low (λ r. Inv times target r r)
    → Returns (read_nearest times target low) (IsAnswer times target)
read_nearest-IsAnswer times target none h r = r
read_nearest-IsAnswer times target (some low) h inv = closer-IsAnswer times target low h inv

-- On dates in ascending order the search for the nearest date ends after at most as many rounds as
-- there are dates, with `null` where there are none, else with a date of the list that is nearest to the
-- target.
pub nearest_date_at_x-IsNearest :
    (times : List ℕ) (target : ℕ)
    → IsAscending times
    → Returns (nearest_date_at_x times target) (IsAnswer times target)
unfolding nearest_date_at_x
nearest_date_at_x-IsNearest [] target h = tt
nearest_date_at_x-IsNearest (t ∷ times) target h = read_nearest-IsAnswer (t ∷ times) target _ h (
    lower_loop-Inv (t ∷ times) target h (length (t ∷ times)) 0 (length times) (ground arith)
      (record {
        ordered = ground arith;
        inside = ground arith;
        below = ground arith;
        above = ground arith;
      }))
