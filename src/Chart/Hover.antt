-- ===== src/Chart/Hover.antt =====
-- The point under the pointer is the nearest one (nearestHoverPoint of
-- frontend/src/components/charts/latency-timeseries-chart.tsx).
use perps_latency_benchmark.Prelude.{
  ℕ, ◌*◌, ◌≡◌, refl, sym, subst, ap, ◌⊎◌, inl, inr, Bool, true, false, not, ◌&&◌, Option, none,
  some, List, [], ◌∷◌, ◌++◌, map, arith, All, Any, Any-imp, ◌≢◌, Bool-cases, if◌then◌else◌,
}
use perps_latency_benchmark.Numbers.{Numbers, IsOrdered}
use perps_latency_benchmark.Chart.{Point}
use perps_latency_benchmark.Chart.Series.{
  DisplaySeries, ScaledHoverPoint, scaled, distance_of, can_hover, consider_points, consider_series,
  nearest_hover_point,
}

module _ {N : Type 0} ⦃n : Numbers N⦄ where
  -- The points that the pointer can be at, each with its series.
  abbrev pub hover_points : List (DisplaySeries N) → List (DisplaySeries N × Point N)
  hover_points [] = []
  hover_points (item ∷ series) =
      map (λ p. (item, p)) item.raw_points
      ++ (map (λ p. (item, p)) item.line_points ++ hover_points series)

  module _ (plot_x plot_y : N) (x_scale : ℕ → N) (y_scale : N → N) where
    abbrev pub distance : Point N → N
    distance p = distance_of plot_x plot_y x_scale y_scale p

    abbrev pub hovers : Point N → Bool
    hovers p = can_hover plot_x plot_y x_scale y_scale p

    abbrev consider :
        List (DisplaySeries N × Point N)
        → Option (ScaledHoverPoint N) × N
        → Option (ScaledHoverPoint N) × N
    consider [] best = best
    consider ((item, p) ∷ pairs) (nearest, d) =
        let taken =
          consider pairs (some (scaled plot_x plot_y x_scale y_scale item p), distance p) in
        let passed = consider pairs (nearest, d) in
        if hovers p && not (n.lt d (distance p)) then taken else passed

    consider-append :
        (xs ys : List (DisplaySeries N × Point N)) (best : Option (ScaledHoverPoint N) × N)
        → consider (xs ++ ys) best ≡ consider ys (consider xs best)
    consider-append [] ys best = refl
    consider-append ((item, p) ∷ xs) ys (nearest, d) =
        elim (Bool-cases (hovers p && not (n.lt d (distance p)))) [
          | inl e ↦ rw e (consider-append xs ys _)
          | inr e ↦ rw e (consider-append xs ys _)
        ]

    consider_points-eq :
        (item : DisplaySeries N) (points : List (Point N)) (best : Option (ScaledHoverPoint N) × N)
        → consider_points plot_x plot_y x_scale y_scale item points best
          ≡ consider (map (λ p. (item, p)) points) best
    consider_points-eq item [] best = refl
    consider_points-eq item (p ∷ points) (nearest, d) =
        elim (Bool-cases (hovers p && not (n.lt d (distance p)))) [
          | inl e ↦ rw e (consider_points-eq item points _)
          | inr e ↦ rw e (consider_points-eq item points _)
        ]

    consider_series-eq :
        (series : List (DisplaySeries N)) (best : Option (ScaledHoverPoint N) × N)
        → consider_series plot_x plot_y x_scale y_scale series best
          ≡ consider (hover_points series) best
    consider_series-eq [] best = refl
    consider_series-eq (item ∷ series) best =
        rw
          (
            consider_series-eq series,
            consider_points-eq item item.line_points,
            consider_points-eq item item.raw_points,
            consider-append (map (λ p. (item, p)) item.raw_points),
            consider-append (map (λ p. (item, p)) item.line_points),
          )
          refl

    -- The best one is that of a point.
    abbrev IsTaken : Option (ScaledHoverPoint N) × N → DisplaySeries N × Point N → Type 0
    IsTaken r q =
        (r ≡ (some (scaled plot_x plot_y x_scale y_scale q.0 q.1), distance q.1))
        × (hovers q.1 ≡ true)

    -- What the points leave of the best so far.
    record Ends (nearest : Option (ScaledHoverPoint N)) (d : N)
        (pairs : List (DisplaySeries N × Point N)) (r : Option (ScaledHoverPoint N) × N)
        : Type 0 where
      kept : n.lt d r.1 ≡ false
      least :
          All
            (λ (q : DisplaySeries N × Point N). hovers q.1 ≡ true → n.lt (distance q.1) r.1 ≡ false)
            pairs
      from : (r ≡ (nearest, d)) ⊎ Any (IsTaken r) pairs
      passed :
          r.0 ≡ none
          → All
              (λ (q : DisplaySeries N × Point N). hovers q.1 ≡ true → n.lt d (distance q.1) ≡ true)
              pairs

    -- What is taken of a point is not nothing.
    taken-IsSome :
        (pairs : List (DisplaySeries N × Point N)) (r : Option (ScaledHoverPoint N) × N)
        → Any (IsTaken r) pairs
        → r.0 ≢ none
    taken-IsSome [] r h = elim h [ ]
    taken-IsSome (q ∷ pairs) r (inl (e, _)) = λ f. cc (ap (λ x. x.0) e, f)
    taken-IsSome (q ∷ pairs) r (inr h) = taken-IsSome pairs r h

    module _ (ordered : IsOrdered N)
        (finite : (p : Point N) → hovers p ≡ true → n.is_finite (distance p) ≡ true) where
      consider-Ends :
          (nearest : Option (ScaledHoverPoint N)) (d : N) (pairs : List (DisplaySeries N × Point N))
          → Ends nearest d pairs (consider pairs (nearest, d))
      consider-Ends nearest d [] = record {
        kept = ground (arith, ordered.lt_asymm d d);
        least = tt;
        from = inl refl;
        passed = λ e. tt;
      }
      consider-Ends nearest d ((item, p) ∷ pairs) =
          elim (Bool-cases (hovers p && not (n.lt d (distance p)))) [
            | inl e ↦
                rw e
                  let s =
                      consider-Ends (some (scaled plot_x plot_y x_scale y_scale item p))
                        (distance p) pairs in
                    let r =
                      consider pairs
                        (some (scaled plot_x plot_y x_scale y_scale item p), distance p) in
                    record {
                      kept =
                          ground
                            (arith, e, s.kept, finite p, ordered.lt_cotrans d (distance p) r.1);
                      least = (λ h. s.kept, s.least);
                      from = elim s.from [
                        | inl f ↦ inr (inl (f, ground (arith, e)))
                        | inr f ↦ inr (inr f)
                      ];
                      passed = λ f. absurd (elim s.from [
                        | inl g ↦ cc (ap (λ (x : Option (ScaledHoverPoint N) × N). x.0) g, f)
                        | inr g ↦ taken-IsSome pairs r g f
                      ]);
                    }
            | inr e ↦
                rw e
                  let s = consider-Ends nearest d pairs in
                    let r = consider pairs (nearest, d) in
                    record {
                      kept = s.kept;
                      least = (
                        λ h. ground (arith, e, h, s.kept, ordered.lt_trans d (distance p) r.1),
                        s.least,
                      );
                      from = elim s.from [ inl f ↦ inl f | inr f ↦ inr (inr f) ];
                      passed = λ f. (λ h. ground (arith, e, h), s.passed f);
                    }
          ]

    -- A point that is shown is one of those the pointer can be at, within 28 pixels, and none is nearer; where
    -- none is shown, all are farther than that.
    abbrev pub IsNearest : List (DisplaySeries N × Point N) → Option (ScaledHoverPoint N) → Type 0
    IsNearest pairs none =
        All
          (λ (q : DisplaySeries N × Point N).
            hovers q.1 ≡ true → n.lt (n.of_ℕ (28 * 28)) (distance q.1) ≡ true)
          pairs
    IsNearest pairs (some hover) =
        Any
          (λ (q : DisplaySeries N × Point N).
            (hover ≡ scaled plot_x plot_y x_scale y_scale q.0 q.1) × (hovers q.1 ≡ true))
          pairs
        × (n.lt (n.of_ℕ (28 * 28)) (distance hover.point) ≡ false)
        × All
            (λ (q : DisplaySeries N × Point N).
              hovers q.1 ≡ true → n.lt (distance q.1) (distance hover.point) ≡ false)
            pairs

    -- The distance that is kept with a point is its own.
    taken-distance :
        (pairs : List (DisplaySeries N × Point N)) (hover : ScaledHoverPoint N) (d : N)
        → Any (IsTaken (some hover, d)) pairs
        → d ≡ distance hover.point
    taken-distance [] hover d h = elim h [ ]
    taken-distance (q ∷ pairs) hover d (inl (e, _)) = ground (arith, e)
    taken-distance (q ∷ pairs) hover d (inr h) = taken-distance pairs hover d h

    Ends-IsNearest :
        (pairs : List (DisplaySeries N × Point N)) (r : Option (ScaledHoverPoint N)) (d : N)
        → Ends none (n.of_ℕ (28 * 28)) pairs (r, d)
        → IsNearest pairs r
    Ends-IsNearest pairs none d s = s.passed refl
    Ends-IsNearest pairs (some hover) d s = elim s.from [
      | inl f ↦ absurd (cc (ap (λ (x : Option (ScaledHoverPoint N) × N). x.0) f))
      | inr f ↦
          let e = taken-distance pairs hover d f in
          (
            Any-imp _ _ pairs (λ q (g, h). (ground (arith, g), h)) f,
            subst (λ x. n.lt (n.of_ℕ (28 * 28)) x ≡ false) e s.kept,
            subst
                (λ x.
                  All
                    (λ (q : DisplaySeries N × Point N).
                      hovers q.1 ≡ true → n.lt (distance q.1) x ≡ false)
                    pairs)
                e s.least,
          )
    ]

    -- With an order of the numbers, and where the distances are finite of points whose place is: the point
    -- shown is one of those the pointer can be at, within 28 pixels, and none is nearer; none is shown
    -- only where all are farther than that.
    pub nearest_hover_point-IsNearest :
        (ordered : IsOrdered N)
        → (finite : (p : Point N) → hovers p ≡ true → n.is_finite (distance p) ≡ true)
        → (series : List (DisplaySeries N))
        → IsNearest (hover_points series) (nearest_hover_point plot_x plot_y x_scale y_scale series)
    unfolding nearest_hover_point
    nearest_hover_point-IsNearest ordered finite series =
        let pairs = hover_points series in
        let r = consider pairs (none, n.of_ℕ (28 * 28)) in
        subst (λ x. IsNearest pairs x.0) (sym (consider_series-eq series (none, n.of_ℕ (28 * 28))))
          (Ends-IsNearest pairs r.0 r.1
            (consider-Ends ordered finite none (n.of_ℕ (28 * 28)) pairs))
