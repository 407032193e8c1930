-- ===== src/Table/Ranked.antt =====
-- The order of the rows of the table (frontend/src/components/dashboard/latency-table.tsx).
use perps_latency_benchmark.Prelude.{
  ◌≡◌, ◌≢◌, Bool, true, false, List, [], ◌∷◌, arith, All, All-imp, Text,
}
use mathlib.Core.List.{Perm}
use perps_latency_benchmark.Prelude.Sorting.{IsSorted, sort-IsSorted, sort-perm}
use perps_latency_benchmark.Data.{SummaryRow}
use perps_latency_benchmark.Numbers.{Numbers, IsOrdered}
use perps_latency_benchmark.Table.{
  SortState, SortDirection, asc, desc, tied, behind, sort_value, row_identity,
  compare_latency_values, in_direction, not_behind, may_precede, sort_rows,
}

-- What the platform's comparison of texts keeps to.
pub record IsCollation (collate : Text → Text → Bool) : Type 0 where
  pub total : (s t : Text) → collate s t ≡ false → collate t s ≡ true
  pub transitive : (s t u : Text) → collate s t ≡ true → collate t u ≡ true → collate s u ≡ true

module _ {N : Type 0} ⦃n : Numbers N⦄ where
  -- A row that may precede another: if its latency is no number, neither is the other's; and where both
  -- are numbers, it is not behind in the direction, and of two alike the text of the row decides.
  abbrev pub IsRanked : SortDirection → (x y : N) → Bool → Type 0
  IsRanked direction x y collated =
      (n.is_finite y ≡ true → n.is_finite x ≡ true)
      × (n.is_finite y ≡ true → in_direction direction x y ≢ behind)
      × (n.is_finite y ≡ true → in_direction direction x y ≡ tied → collated ≡ true)

  -- The rows below another one are ranked behind it.
  abbrev pub AreRanked : {R : Type 0} → SortDirection → (R → N) → (R → R → Bool) → List R → Type 0
  AreRanked direction value collated [] = Unit
  AreRanked direction value collated (r ∷ rows) =
      All (λ s. IsRanked direction (value r) (value s) (collated r s)) rows
      × AreRanked direction value collated rows

module _ {N : Type 0} ⦃n : Numbers N⦄ (ordered : IsOrdered N) where
  not_behind-total :
      (direction : SortDirection) (x y : N) (a b : Bool)
      → (a ≡ false → b ≡ true)
      → not_behind (compare_latency_values x y direction) a ≡ false
      → not_behind (compare_latency_values y x direction) b ≡ true
  not_behind-total asc x y a b t h = ground (arith, ordered.lt_asymm x y, t, h)
  not_behind-total desc x y a b t h = ground (arith, ordered.lt_asymm x y, t, h)

  -- The facts on three numbers that an order by them rests on.
  not_behind_trans :
      (direction : SortDirection) (x y z : N) (a b c : Bool)
      → (a ≡ true → b ≡ true → c ≡ true)
      → not_behind (compare_latency_values x y direction) a ≡ true
      → not_behind (compare_latency_values y z direction) b ≡ true
      → not_behind (compare_latency_values x z direction) c ≡ true
  not_behind_trans asc x y z a b c t h k = ground (
    arith,
    t,
    h,
    k,
    ordered.lt_trans x y z,
    ordered.lt_cotrans x z y,
    ordered.lt_cotrans y x z,
    ordered.lt_cotrans x y z,
    ordered.lt_cotrans z y x,
    ordered.lt_asymm x z,
  )
  not_behind_trans desc x y z a b c t h k = ground (
    arith,
    t,
    h,
    k,
    ordered.lt_trans z y x,
    ordered.lt_cotrans y z x,
    ordered.lt_cotrans z x y,
    ordered.lt_cotrans z y x,
    ordered.lt_cotrans x y z,
    ordered.lt_asymm z x,
  )

  not_behind-IsRanked :
      (direction : SortDirection) (x y : N) (collated : Bool)
      → not_behind (compare_latency_values x y direction) collated ≡ true
      → IsRanked direction x y collated
  not_behind-IsRanked asc x y collated h = ground (arith, h)
  not_behind-IsRanked desc x y collated h = ground (arith, h)

  module _ (show : N → Text) (collate : Text → Text → Bool) (collation : IsCollation collate) where
    IsSorted-AreRanked :
        (state : SortState) (floor : Bool) (rows : List (SummaryRow N))
        → IsSorted (may_precede show collate state floor) rows
        → AreRanked state.direction
            (λ r. sort_value r state.key floor)
            (λ r s. collate (row_identity show r) (row_identity show s))
            rows
    IsSorted-AreRanked state floor [] h = tt
    IsSorted-AreRanked state floor (r ∷ rows) (h, hs) = (
      All-imp _ _ rows (λ s k. not_behind-IsRanked state.direction _ _ _ k) h,
      IsSorted-AreRanked state floor rows hs,
    )

    -- The rows are those given, in an order in which, in both directions, those without a latency come
    -- last, the others stand by their latency in the direction, and those alike by the text of the row.
    pub sort_rows-AreRanked :
        (rows : List (SummaryRow N)) (state : SortState) (floor : Bool)
        → Perm (sort_rows show collate rows state floor) rows
          × AreRanked state.direction
              (λ r. sort_value r state.key floor)
              (λ r s. collate (row_identity show r) (row_identity show s))
              (sort_rows show collate rows state floor)
    unfolding sort_rows
    sort_rows-AreRanked rows state floor = (
      sort-perm (may_precede show collate state floor) rows,
      IsSorted-AreRanked state floor _ (
          sort-IsSorted (may_precede show collate state floor)
            (λ r s. not_behind-total state.direction _ _ _ _ (collation.total _ _))
            (λ r s t.
              not_behind_trans state.direction _ (sort_value s state.key floor) _ _ _ _
                (collation.transitive _ _ _))
            rows),
    )
