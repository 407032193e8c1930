-- ===== src/Throughput/Pointer.antt =====
-- What the tooltip of the throughput chart shows (showTPSAtPointer of
-- frontend/src/components/dashboard/exchange-tps-panel.tsx).
use perps_latency_benchmark.Prelude.{
  All-keep_of, Any, ℕ, zero, suc, ◌≡◌, refl, sym, subst, ◌⊎◌, inl, inr, Bool, true, false, Option,
  none, some, List, [], ◌∷◌, ◌++◌, map, arith, get_elem?, All, All-map, All-imp, Text, ◌===◌,
  ===_iff,
}
use mathlib.Core.Option.{some-injective}
use perps_latency_benchmark.Prelude.Sorting.{sort, IsSorted, sort-IsSorted_of, All-sort, Any-sort}
use perps_latency_benchmark.Data.{ExchangeTpsRow}
use perps_latency_benchmark.Numbers.{Numbers, IsOrdered}
use perps_latency_benchmark.TakerCost.Groups.{group_by, IsWhole, group_by-IsWhole}
use perps_latency_benchmark.Throughput.{
  TpsPoint, TpsSeries, build_series, series_of, points_of, not_after,
}
use perps_latency_benchmark.Throughput.Nearest.{Returns}
use perps_latency_benchmark.Throughput.Search.{
  IsInOrder, Occurs, IsPointAt, find_point_at_time, find_point_at_time-IsPointAt, sort-IsInOrder,
}
use perps_latency_benchmark.Throughput.Tooltip.{
  has_date, IsTooltipDate, nearest_date_at_x-IsTooltipDate,
}
use perps_latency_benchmark.Throughput.Plot.{
  TooltipPoint, TpsTooltip, all_points, not_lower, joined, points_at, shown_at, tooltip_with,
  tooltip_at, show_tps_at_pointer,
}

-- What follows from an element that has one property, where all have another.
Any-All :
    {A C : Type 0} (P Q : A → Type 0) (xs : List A)
    → ((x : A) → P x → Q x → C)
    → All P xs
    → Any Q xs
    → C
Any-All P Q [] f h k = elim k [ ]
Any-All P Q (x ∷ xs) f (h, hs) (inl k) = f x h k
Any-All P Q (x ∷ xs) f (h, hs) (inr k) = Any-All P Q xs f hs k

module _ {N : Type 0} where
  null-has_date :
      (points : List (TpsPoint N)) (date : ℕ)
      → IsPointAt points date none
      → has_date points date ≡ false
  null-has_date [] date h = refl
  null-has_date (p ∷ points) date h =
      ground
        (arith, h 0 (omega arith), null-has_date points date λ i k. h (suc i) (omega (arith, k)))

  has_date-append :
      (points more : List (TpsPoint N)) (date : ℕ)
      → has_date (points ++ more) date ≡ true
      → (has_date points date ≡ true) ⊎ (has_date more date ≡ true)
  has_date-append [] more date h = inr h
  has_date-append (p ∷ points) more date h = ground (arith, h, has_date-append points more date)

  has_date-all_points :
      (series : List (TpsSeries N)) (date : ℕ)
      → has_date (all_points series) date ≡ true
      → Any (λ (item : TpsSeries N). has_date item.points date ≡ true) series
  has_date-all_points [] date h = absurd (ground (arith, h))
  has_date-all_points (item ∷ series) date h =
      elim (has_date-append item.points (all_points series) date h) [
        | inl k ↦ inl k
        | inr k ↦ inr (has_date-all_points series date k)
      ]

  All-get_elem? :
      (P : TpsPoint N → Type 0) (points : List (TpsPoint N)) (i : ℕ) (point : TpsPoint N)
      → All P points
      → get_elem? points i ≡ some point
      → P point
  All-get_elem? P [] i point h e = absurd (ground (arith, e))
  All-get_elem? P (p ∷ points) zero point h e = subst P (some-injective p point e) h.0
  All-get_elem? P (p ∷ points) (suc i) point h e = All-get_elem? P points i point h.1 e

module _ {N : Type 0} ⦃n : Numbers N⦄ where
  -- Each point is one of a series at the date and has its colour, and of every series with a point at the
  -- date one is there.
  abbrev pub ArePointsAt : ℕ → List (TpsSeries N) → List (TooltipPoint N) → Type 0
  ArePointsAt date series points =
      All
        (λ (q : TooltipPoint N).
          (q.point.date ≡ date)
          × Any (λ (item : TpsSeries N). (item.color ≡ q.color) × Occurs item.points q.point)
              series)
        points
      × All
          (λ (item : TpsSeries N).
            has_date item.points date ≡ true
            → Any (λ (q : TooltipPoint N). Occurs item.points q.point) points)
          series

  joined-ArePointsAt :
      (date : ℕ) (item : TpsSeries N) (series : List (TpsSeries N))
      (found : Option (Option (TpsPoint N))) (rest : Option (List (TooltipPoint N)))
      → Returns found (IsPointAt item.points date)
      → Returns rest (ArePointsAt date series)
      → Returns (joined item.color found rest) (ArePointsAt date (item ∷ series))
  joined-ArePointsAt date item series none rest h k = h
  joined-ArePointsAt date item series (some found) none h k = k
  joined-ArePointsAt date item series (some none) (some rest) h (ks, ls) = (
    All-imp _ _ rest (λ q (e, a). (e, inr a)) ks,
    (λ k. absurd (ground (arith, null-has_date item.points date h, k)), ls),
  )
  joined-ArePointsAt date item series (some (some point)) (some rest) (e, o) (ks, ls) = (
    ((e, inl (refl, o)), All-imp _ _ rest (λ q (e, a). (e, inr a)) ks),
    (λ k. inl o, All-imp _ _ series (λ other f k. inr (f k)) ls),
  )

  points_at-ArePointsAt :
      (date : ℕ) (series : List (TpsSeries N))
      → All (λ (item : TpsSeries N). IsInOrder item.points) series
      → Returns (points_at date series) (ArePointsAt date series)
  unfolding points_at
  points_at-ArePointsAt date [] h = (tt, tt)
  points_at-ArePointsAt date (item ∷ series) (h, hs) =
      joined-ArePointsAt date item series (find_point_at_time item.points date)
        (points_at date series) (find_point_at_time-IsPointAt item.points date h)
        (points_at-ArePointsAt date series hs)

  -- The series are in order of date, and all throughputs are finite.
  abbrev AreSeries : List (TpsSeries N) → Type 0
  AreSeries series =
      All (λ (item : TpsSeries N). IsInOrder item.points) series
      × All (λ (item : TpsSeries N). All (λ (p : TpsPoint N). n.is_finite p.tps ≡ true) item.points)
          series

  -- It is hidden only where the panel has no points; else its date is one of the points and none is nearer
  -- to the time, and its points are those of the series at that date, none below one behind it.
  abbrev pub IsTooltip : List (TpsSeries N) → ℕ → Option (TpsTooltip N) → Type 0
  IsTooltip series time none = all_points series ≡ []
  IsTooltip series time (some tooltip) =
      IsTooltipDate (all_points series) time (some tooltip.date)
      × IsSorted not_lower tooltip.points
      × ArePointsAt tooltip.date series tooltip.points

  sort-ArePointsAt :
      (date : ℕ) (series : List (TpsSeries N)) (points : List (TooltipPoint N))
      → ArePointsAt date series points
      → ArePointsAt date series (sort not_lower points)
  sort-ArePointsAt date series points (h, k) = (
    All-sort not_lower _ points h,
    All-imp _ _ series (λ item f e. Any-sort not_lower _ points (f e)) k,
  )

  module _ (ordered : IsOrdered N) where
    not_lower-total : (x y : TooltipPoint N) → not_lower x y ≡ false → not_lower y x ≡ true
    not_lower-total x y h = ground (arith, ordered.lt_asymm x.point.tps y.point.tps)

    not_lower_trans :
        (x y z : TooltipPoint N)
        → n.is_finite y.point.tps ≡ true
        → not_lower x y ≡ true
        → not_lower y z ≡ true
        → not_lower x z ≡ true
    not_lower_trans x y z f h k =
        ground (arith, ordered.lt_cotrans x.point.tps y.point.tps z.point.tps f)

    sort-IsSorted_at :
        (date : ℕ) (series : List (TpsSeries N)) (points : List (TooltipPoint N))
        → AreSeries series
        → ArePointsAt date series points
        → IsSorted not_lower (sort not_lower points)
    sort-IsSorted_at date series points s (h, _) =
        sort-IsSorted_of not_lower (λ (q : TooltipPoint N). n.is_finite q.point.tps ≡ true)
          not_lower-total not_lower_trans points
          (All-imp _ _ points
            (λ q (e, a).
              Any-All
                (λ (item : TpsSeries N).
                  All (λ (p : TpsPoint N). n.is_finite p.tps ≡ true) item.points)
                (λ (item : TpsSeries N). (item.color ≡ q.color) × Occurs item.points q.point) series
                (λ item f (c, o).
                  All-get_elem? (λ (p : TpsPoint N). n.is_finite p.tps ≡ true) item.points o.index
                    q.point f o.found)
                s.1 a)
            h)

    shown_at-IsTooltip :
        (series : List (TpsSeries N)) (time date : ℕ) (points : List (TooltipPoint N))
        → AreSeries series
        → IsTooltipDate (all_points series) time (some date)
        → ArePointsAt date series points
        → IsTooltip series time (shown_at date points)
    shown_at-IsTooltip series time date [] s d h =
        Any-All _ (λ (item : TpsSeries N). has_date item.points date ≡ true) series
          (λ item f e. absurd (elim (f e) [ ])) h.1 (has_date-all_points series date d.0)
    shown_at-IsTooltip series time date (q ∷ points) s d h = (
      d,
      sort-IsSorted_at date series (q ∷ points) s h,
      sort-ArePointsAt date series (q ∷ points) h,
    )

    tooltip_with-IsTooltip :
        (series : List (TpsSeries N)) (time date : ℕ) (points : Option (List (TooltipPoint N)))
        → AreSeries series
        → IsTooltipDate (all_points series) time (some date)
        → Returns points (ArePointsAt date series)
        → Returns (tooltip_with date points) (IsTooltip series time)
    tooltip_with-IsTooltip series time date none s d h = h
    tooltip_with-IsTooltip series time date (some points) s d h =
        shown_at-IsTooltip series time date points s d h

    tooltip_at-IsTooltip :
        (series : List (TpsSeries N)) (time : ℕ) (date : Option (Option ℕ))
        → AreSeries series
        → Returns date (IsTooltipDate (all_points series) time)
        → Returns (tooltip_at series date) (IsTooltip series time)
    unfolding tooltip_at
    tooltip_at-IsTooltip series time none s d = d
    tooltip_at-IsTooltip series time (some none) s d = d
    tooltip_at-IsTooltip series time (some (some date)) s d =
        tooltip_with-IsTooltip series time date (points_at date series) s d
          (points_at-ArePointsAt date series s.0)

  points_of-finite :
      (parse_date : Text → Option ℕ) (rows : List (ExchangeTpsRow N))
      → All (λ (p : TpsPoint N). n.is_finite p.tps ≡ true) (points_of parse_date rows)
  points_of-finite parse_date [] = tt
  points_of-finite parse_date (row ∷ rows) = ground (arith, points_of-finite parse_date rows)

  -- What sorting gives every series from points with finite throughputs.
  build_series-All :
      (parse_date : Text → Option ℕ) (collate : Text → Text → Bool) (rows : List (ExchangeTpsRow N))
      (P : List (TpsPoint N) → Type 0)
      → ((group : List (TpsPoint N))
          → All (λ (p : TpsPoint N). n.is_finite p.tps ≡ true) group
          → P (sort not_after group))
      → All (λ (item : TpsSeries N). P item.points) (build_series parse_date collate rows)
  unfolding build_series series_of
  build_series-All parse_date collate rows P f =
      let points = points_of parse_date rows in
      let key = λ (point : TpsPoint N). point.venue in
      let finite = λ (p : TpsPoint N). n.is_finite p.tps ≡ true in
      All-sort _ _ (map (series_of parse_date) (group_by ◌===◌ key points)) (
        (All-map _ (series_of parse_date) (group_by ◌===◌ key points)).1 (
          All-imp (IsWhole ◌===◌ key points) _ (group_by ◌===◌ key points)
            (λ g w. f g.1 (
              subst (All finite) (sym w)
                (All-keep_of finite _ points (points_of-finite parse_date rows))))
            (group_by-IsWhole ◌===◌ key ===_iff points)))

  build_series-AreSeries :
      (parse_date : Text → Option ℕ) (collate : Text → Text → Bool) (rows : List (ExchangeTpsRow N))
      → AreSeries (build_series parse_date collate rows)
  build_series-AreSeries parse_date collate rows = (
    build_series-All parse_date collate rows IsInOrder (λ group h. sort-IsInOrder group),
    build_series-All parse_date collate rows (All (λ (p : TpsPoint N). n.is_finite p.tps ≡ true))
        (λ group h. All-sort not_after _ group h),
  )

  -- With an order of the numbers, whatever the rows and wherever the pointer is, the searches of the tooltip
  -- end, and it is hidden only where no row is drawn. Else its date is one of the points such that none is
  -- nearer to the pointer, and its points, none below one behind it, are at that date with the colours of
  -- their series, one of every series that has a point at the date.
  pub show_tps_at_pointer-IsTooltip :
      (ordered : IsOrdered N) (parse_date : Text → Option ℕ) (collate : Text → Text → Bool)
      (rows : List (ExchangeTpsRow N)) (time : ℕ)
      → Returns
          (show_tps_at_pointer (build_series parse_date collate rows) time)
          (IsTooltip (build_series parse_date collate rows) time)
  unfolding show_tps_at_pointer
  show_tps_at_pointer-IsTooltip ordered parse_date collate rows time =
      let series = build_series parse_date collate rows in
      tooltip_at-IsTooltip ordered series time _ (build_series-AreSeries parse_date collate rows)
        (nearest_date_at_x-IsTooltipDate (all_points series) time)
