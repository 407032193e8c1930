-- ===== src/Chart/Domain/Inside.antt =====
-- Every point that is drawn lies in the domains of the scales (getDomains of
-- frontend/src/components/charts/latency-timeseries-chart.tsx).
use perps_latency_benchmark.Prelude.{
  ◌≡◌, refl, inl, inr, true, false, Option, none, some, List, [], ◌∷◌, map, arith, All, All-imp,
  All-map, All-zip,
}
use perps_latency_benchmark.Numbers.{
  Numbers, IsOrdered, IsRounded, negative, max_of_all, min_of_all,
}
use perps_latency_benchmark.Numbers.Extremes.{
  AreBelow-not_above, AreAbove-not_below, max_of_all-AreBelow, min_of_all-AreAbove, add-AreBelow,
  sub-AreAbove, min_of_all-nonneg, max_of-nonneg,
}
use perps_latency_benchmark.Chart.{Point, ScaleMode, linear, log}
use perps_latency_benchmark.Chart.Series.{DisplaySeries}
use perps_latency_benchmark.Chart.Domain.{
  domains_of_points, Domain, get_domains, domains_of, domains_of_points, drawn_points, time_of,
  ms_of, time_padding, latency_padding, lower_end,
}

module _ {N : Type 0} ⦃n : Numbers N⦄ where
  -- Not outside, but for latencies below 0.1 ms.
  pub record IsInside (d : Domain N) (p : Point N) : Type 0 where
    pub not_before : n.lt (time_of p) d.x_min ≡ false
    pub not_after : n.lt d.x_max (time_of p) ≡ false
    pub not_above : n.lt d.y_max p.ms ≡ false
    pub not_below : n.lt p.ms d.y_min ≡ true → n.lt p.ms (n.div (n.of_ℕ 1) (n.of_ℕ 10)) ≡ true

  abbrev pub Encloses : List (Point N) → Option (Domain N) → Type 0
  Encloses points none = points ≡ []
  Encloses points (some d) = All (IsInside d) points

  module _ (ordered : IsOrdered N) (rounded : IsRounded N) where
    -- A latency that is below the lower end is below 0.1 ms.
    lower_end-lt :
        (mode : ScaleMode) (least x : N)
        → negative least ≡ false
        → negative x ≡ false
        → n.lt x least ≡ false
        → n.lt x (lower_end mode least) ≡ true
        → n.lt x (n.div (n.of_ℕ 1) (n.of_ℕ 10)) ≡ true
    lower_end-lt linear least x h k l e = cc (k, e)
    lower_end-lt log least x h k l e =
        elim (rounded.lt-max (n.mul least (n.div (n.of_ℕ 72) (n.of_ℕ 100)))
          (n.div (n.of_ℕ 1) (n.of_ℕ 10)) x e) [
            | inr f ↦ f
            | inl f ↦ cc (
              l,
              rounded.lt-mul least (n.div (n.of_ℕ 72) (n.of_ℕ 100)) x h
                  (rounded.share-le 72 100 (omega arith)) f,
            )
          ]

    domains_of-IsInside :
        (first : Point N) (points : List (Point N)) (mode : ScaleMode)
        → All (λ (p : Point N). negative p.ms ≡ false) (first ∷ points)
        → All (IsInside (domains_of first points mode)) (first ∷ points)
    unfolding domains_of
    domains_of-IsInside first points mode h =
        let all = first ∷ points in
        let d = domains_of first points mode in
        let times = map time_of all in
        let values = map ms_of all in
        let min_time = min_of_all (map time_of points) (time_of first) in
        let max_time = max_of_all (map time_of points) (time_of first) in
        let least = min_of_all (map ms_of points) first.ms in
        let most = max_of_all (map ms_of points) first.ms in
        let padding = time_padding min_time max_time in
        let before = (All-map (λ x. n.lt x d.x_min ≡ false) time_of all).0 (
          AreAbove-not_below ordered times d.x_min (
            sub-AreAbove rounded times min_time padding (rounded.of_ℕ-nonneg _)
              (min_of_all-AreAbove rounded (map time_of points) (time_of first)))) in
        let after = (All-map (λ x. n.lt d.x_max x ≡ false) time_of all).0 (
          AreBelow-not_above ordered times d.x_max (
            add-AreBelow rounded times max_time padding (rounded.of_ℕ-nonneg _)
              (max_of_all-AreBelow rounded (map time_of points) (time_of first)))) in
        let above = (All-map (λ x. n.lt d.y_max x ≡ false) ms_of all).0 (
          AreBelow-not_above ordered values d.y_max (
            add-AreBelow rounded values most (latency_padding most)
              (max_of-nonneg rounded (n.mul most (n.div (n.of_ℕ 12) (n.of_ℕ 100))) (n.of_ℕ 1)
                (rounded.of_ℕ-nonneg 1))
              (max_of_all-AreBelow rounded (map ms_of points) first.ms))) in
        let least-nonneg =
          min_of_all-nonneg rounded (map ms_of points) first.ms h.0
            ((All-map (λ x. negative x ≡ false) ms_of points).1 h.1) in
        let below =
          All-imp (λ (p : Point N). (negative p.ms ≡ false) × (n.lt p.ms least ≡ false))
            (λ (p : Point N).
              n.lt p.ms d.y_min ≡ true → n.lt p.ms (n.div (n.of_ℕ 1) (n.of_ℕ 10)) ≡ true)
            all (λ p (k, l). lower_end-lt mode least p.ms least-nonneg k l)
            (All-zip (λ (p : Point N). negative p.ms ≡ false)
              (λ (p : Point N). n.lt p.ms least ≡ false) all h
              ((All-map (λ x. n.lt x least ≡ false) ms_of all).0 (
                AreAbove-not_below ordered values least
                  (min_of_all-AreAbove rounded (map ms_of points) first.ms)))) in
        All-imp
          (λ (p : Point N).
            (n.lt (time_of p) d.x_min ≡ false)
            × ((n.lt d.x_max (time_of p) ≡ false)
                × ((n.lt d.y_max p.ms ≡ false)
                    × (n.lt p.ms d.y_min ≡ true
                        → n.lt p.ms (n.div (n.of_ℕ 1) (n.of_ℕ 10)) ≡ true))))
          (IsInside d) all
          (λ p (a, (b, (c, e))). record {
            not_before = a;
            not_after = b;
            not_above = c;
            not_below = e;
          })
          (All-zip _ _ all before (All-zip _ _ all after (All-zip _ _ all above below)))

    domains_of_points-Encloses :
        (points : List (Point N)) (mode : ScaleMode)
        → All (λ (p : Point N). negative p.ms ≡ false) points
        → Encloses points (domains_of_points points mode)
    domains_of_points-Encloses [] mode k = refl
    domains_of_points-Encloses (first ∷ points) mode k = domains_of-IsInside first points mode k

    -- On numbers in order that are rounded, and where no latency is below 0: there are no domains only if
    -- nothing is drawn, else no point that is drawn is outside them, except that latencies below 0.1 ms may
    -- be below the domain of the latencies.
    pub get_domains-Encloses :
        (series : List (DisplaySeries N)) (mode : ScaleMode)
        → All (λ (p : Point N). negative p.ms ≡ false) (drawn_points series)
        → Encloses (drawn_points series) (get_domains series mode)
    unfolding get_domains
    get_domains-Encloses series mode h = domains_of_points-Encloses (drawn_points series) mode h
