-- ===== src/TakerCost/Summary/Percentile.antt =====
-- The 95th percentile of a venue's slippages (percentile and summarizeSlippage of
-- frontend/src/lib/taker-cost.ts).
use perps_latency_benchmark.Prelude.{
  ℕ, zero, suc, ◌+◌, ◌*◌, ◌≤◌, ◌<◌, ◌≡◌, refl, ap, subst, true, false, some, List, [], ◌∷◌, ◌++◌,
  arith, length, get_elem?, All, All-imp,
}
use mathlib.Core.List.{Perm}
use perps_latency_benchmark.Prelude.Sorting.{
  sort, IsSorted, sort-IsSorted_of, sort-perm, length-sort,
}
use perps_latency_benchmark.Numbers.{Numbers, IsOrdered}
use perps_latency_benchmark.TakerCost.Summary.{percentile, percentile_index, not_above}

module _ {N : Type 0} ⦃n : Numbers N⦄ where
  -- The values, parted at `x`: at least 95 in a hundred are `x` or before it, and fewer are before it;
  -- none before it is above it and none behind it is below it.
  pub record IsPercentile (values : List N) (x : N) : Type 0 where
    pub before : List N
    pub after : List N
    pub parted : Perm (before ++ x ∷ after) values
    pub enough : 95 * length values ≤ 100 * (length before + 1)
    pub fewer : 100 * length before < 95 * length values
    pub below : All (λ y. n.lt x y ≡ false) before
    pub above : All (λ y. n.lt y x ≡ false) after

  -- An element of a sorted list by its index.
  record IsAt (xs : List N) (i : ℕ) (x : N) : Type 0 where
    before : List N
    after : List N
    in_order : xs ≡ before ++ x ∷ after
    place : length before ≡ i
    below : All (λ y. n.lt x y ≡ false) before
    above : All (λ y. n.lt y x ≡ false) after

  not_above-All :
      (x : N) (xs : List N) → All (λ y. not_above x y ≡ true) xs → All (λ y. n.lt y x ≡ false) xs
  not_above-All x xs h = All-imp _ _ xs (λ y k. ground (arith, k)) h

  All-at :
      (P : N → Type 0) (before : List N) (x : N) (after : List N)
      → All P (before ++ x ∷ after)
      → P x
  All-at P [] x after h = h.0
  All-at P (y ∷ before) x after h = All-at P before x after h.1

  get_elem?-IsAt :
      (xs : List N) (i : ℕ)
      → IsSorted not_above xs
      → i < length xs
      → (x : N) × (get_elem? xs i ≡ some x) × IsAt xs i x
  get_elem?-IsAt [] i h k = ground (arith, k)
  get_elem?-IsAt (x ∷ xs) zero (h, hs) k = (
    x,
    refl,
    record {
      before = [];
      after = xs;
      in_order = refl;
      place = refl;
      below = tt;
      above = not_above-All x xs h;
    },
  )
  get_elem?-IsAt (x ∷ xs) (suc i) (h, hs) k =
      let (y, e, at) = get_elem?-IsAt xs i hs (omega arith) in
      (
        y,
        e,
        record {
          before = x ∷ at.before;
          after = at.after;
          in_order = ap (λ (l : List N). x ∷ l) at.in_order;
          place = ap suc at.place;
          below = (
            All-at (λ z. n.lt z x ≡ false) at.before y at.after
                (subst (All (λ z. n.lt z x ≡ false)) at.in_order (not_above-All x xs h)),
            at.below,
          );
          above = at.above;
        },
      )

  -- Of finite values, of which there is at least one, the percentile is one of them, and parts them so
  -- that at least 95 in a hundred are not above it and fewer are before it.
  pub percentile-IsPercentile :
      IsOrdered N
      → (v : N) (values : List N) → All (λ x. n.is_finite x ≡ true) (v ∷ values)
      → (x : N) × (percentile (v ∷ values) ≡ some x) × IsPercentile (v ∷ values) x
  unfolding percentile
  percentile-IsPercentile ordered v values h =
      let sorted = sort not_above (v ∷ values) in
      let count = length (v ∷ values) in
      let counted = length-sort not_above (v ∷ values) in
      let (x, e, at) =
        get_elem?-IsAt sorted (percentile_index count)
          (sort-IsSorted_of not_above (λ y. n.is_finite y ≡ true)
            (λ x y k. ground (arith, k, ordered.lt_asymm y x))
            (λ x y z f k l. ground (arith, f, k, l, ordered.lt_cotrans z y x)) (v ∷ values) h)
          (omega (arith, counted)) in
      (
        x,
        e,
        record {
          before = at.before;
          after = at.after;
          parted =
              subst (λ (l : List N). Perm l (v ∷ values)) at.in_order
                (sort-perm not_above (v ∷ values));
          enough = omega (arith, at.place);
          fewer = omega (arith, at.place);
          below = at.below;
          above = at.above;
        },
      )
