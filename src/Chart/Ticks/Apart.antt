-- ===== src/Chart/Ticks/Apart.antt =====
-- Which ticks the logarithmic axis has (stableLogTicks of
-- frontend/src/components/charts/latency-timeseries-chart.tsx).
use perps_latency_benchmark.Prelude.{
  ◌≡◌, refl, subst, ◌⊎◌, inl, inr, true, false, ◌||◌, List, [], ◌∷◌, ◌++◌, arith, keep, length, leb,
  All, All-keep, All-append, All-imp, Any, Any-imp, Pairwise, Bool-cases,
}
use perps_latency_benchmark.Prelude.Sorting.{sort, All-sort, All-sort_inv, Any-sort, sort-Pairwise}
use perps_latency_benchmark.Numbers.{Numbers, IsRounded}
use perps_latency_benchmark.Chart.{not_above}
use perps_latency_benchmark.Chart.Ticks.{
  not_below, within, candidates_of, multiples_of, apart, has_room, select_ticks, min_gap_of,
  is_no_domain, stable_log_ticks,
}

module _ {N : Type 0} ⦃n : Numbers N⦄ where
  candidates_of-All :
      (min max : N) (decades : List N)
      → All (λ v. within min max v ≡ true) (candidates_of min max decades)
  candidates_of-All min max [] = tt
  candidates_of-All min max (d ∷ decades) =
      All-append (λ v. within min max v ≡ true) (keep (within min max) (multiples_of d))
        (candidates_of min max decades) (All-keep (within min max) (multiples_of d))
        (candidates_of-All min max decades)

  module _ (position : N → N) (gap : N) where
    abbrev pub IsApart : N → N → Type 0
    IsApart v w = apart position gap v w ≡ true

    has_room-All :
        (selected : List N) (v : N)
        → has_room position gap selected v ≡ true
        → All (λ w. apart position gap w v ≡ true) selected
    has_room-All [] v h = tt
    has_room-All (w ∷ selected) v h = ground (arith, h, has_room-All selected v)

    Pairwise-append :
        (selected : List N) (v : N)
        → Pairwise IsApart selected
        → All (λ w. IsApart w v) selected
        → Pairwise IsApart (selected ++ (v ∷ []))
    Pairwise-append [] v h k = (tt, tt)
    Pairwise-append (w ∷ selected) v (h, hs) (k, ks) =
        (All-append (IsApart w) selected (v ∷ []) h (k, tt), Pairwise-append selected v hs ks)

    -- Where there is no room, one of those selected is in the way.
    has_room-Any :
        (selected : List N) (v : N)
        → has_room position gap selected v ≡ false
        → Any (λ w. apart position gap w v ≡ false) selected
    has_room-Any [] v h = absurd (cc h)
    has_room-Any (w ∷ selected) v h = elim (Bool-cases (apart position gap w v)) [
      | inl e ↦ inr (has_room-Any selected v (ground (arith, e, h)))
      | inr e ↦ inl e
    ]

    Any-append_left : (P : N → Type 0) (xs ys : List N) → Any P xs → Any P (xs ++ ys)
    Any-append_left P [] ys h = elim h [ ]
    Any-append_left P (x ∷ xs) ys (inl h) = inl h
    Any-append_left P (x ∷ xs) ys (inr h) = inr (Any-append_left P xs ys h)

    Any-append_last : (P : N → Type 0) (xs : List N) (y : N) → P y → Any P (xs ++ (y ∷ []))
    Any-append_last P [] y h = inl h
    Any-append_last P (x ∷ xs) y h = inr (Any-append_last P xs y h)

    -- What is selected stays so.
    select_ticks-Any :
        (P : N → Type 0) (selected values : List N)
        → Any P selected
        → Any P (select_ticks position gap selected values)
    select_ticks-Any P selected [] h = h
    select_ticks-Any P selected (v ∷ values) h =
        elim (Bool-cases (has_room position gap selected v)) [
          | inl e ↦ rw e (
              select_ticks-Any P (selected ++ (v ∷ [])) values
                (Any-append_left P selected (v ∷ []) h))
          | inr e ↦ rw e (select_ticks-Any P selected values h)
        ]

    -- A tick that is `v`, or so near it that there is no room for both.
    abbrev pub IsAt : N → N → Type 0
    IsAt v t = (t ≡ v) ⊎ (apart position gap t v ≡ false)

    pub record AreSelected (P : N → Type 0) (values ticks : List N) : Type 0 where
      pub from : All P ticks
      pub pairs : Pairwise IsApart ticks
      pub every : All (λ v. Any (IsAt v) ticks) values

    select_ticks-AreSelected :
        (P : N → Type 0) (selected values : List N)
        → All P selected
        → Pairwise IsApart selected
        → All P values
        → AreSelected P values (select_ticks position gap selected values)
    select_ticks-AreSelected P selected [] p a k = record { from = p; pairs = a; every = tt }
    select_ticks-AreSelected P selected (v ∷ values) p a (k, ks) =
        elim (Bool-cases (has_room position gap selected v)) [
          | inl e ↦
              rw e
                let more = selected ++ (v ∷ []) in
                  let s =
                    select_ticks-AreSelected P more values
                      (All-append P selected (v ∷ []) p (k, tt))
                      (Pairwise-append selected v a (has_room-All selected v e)) ks in
                  record {
                    from = s.from;
                    pairs = s.pairs;
                    every = (
                      select_ticks-Any (IsAt v) more values
                          (Any-append_last (IsAt v) selected v (inl refl)),
                      s.every,
                    );
                  }
          | inr e ↦
              rw e
                let s = select_ticks-AreSelected P selected values p a ks in
                  record {
                    from = s.from;
                    pairs = s.pairs;
                    every = (
                      select_ticks-Any (IsAt v) selected values (
                          Any-imp (λ w. apart position gap w v ≡ false) (IsAt v) selected
                            (λ w h. inr h) (has_room-Any selected v e)),
                      s.every,
                    );
                  }
        ]

  module _ (rounded : IsRounded N) (position : N → N) (gap : N) where
    IsApart-symmetric : (v w : N) → apart position gap v w ≡ true → apart position gap w v ≡ true
    IsApart-symmetric v w h =
        subst (λ d. (n.lt gap d || n.same gap d) ≡ true) (rounded.abs-sub (position v) (position w))
          h

    -- The order of the values and of the ticks is all that sorting changes.
    sorted-AreSelected :
        (P : N → Type 0) (values ticks : List N)
        → AreSelected position gap P (sort not_below values) ticks
        → AreSelected position gap P values (sort not_above ticks)
    sorted-AreSelected P values ticks s = record {
      from = All-sort not_above P ticks s.from;
      pairs =
          sort-Pairwise not_above (λ v w. apart position gap v w ≡ true) IsApart-symmetric ticks
            s.pairs;
      every =
          All-sort_inv not_below (λ v. Any (IsAt position gap v) (sort not_above ticks)) values
            (All-imp (λ v. Any (IsAt position gap v) ticks)
              (λ v. Any (IsAt position gap v) (sort not_above ticks)) (sort not_below values)
              (λ v h. Any-sort not_above (IsAt position gap v) ticks h) s.every);
    }

    -- One value or none is selected as it is.
    few-AreSelected :
        (P : N → Type 0) (values : List N)
        → leb (length values) 1 ≡ true
        → All P values
        → AreSelected position gap P values values
    few-AreSelected P [] h k = record { from = tt; pairs = tt; every = tt }
    few-AreSelected P (v ∷ []) h k = record {
      from = k;
      pairs = (tt, tt);
      every = (inl (inl refl), tt);
    }
    few-AreSelected P (v ∷ w ∷ values) h k = absurd (ground (arith, h))

  -- Where rounding keeps the distance of two positions, and the domain is one of positive numbers: every
  -- tick is in the domain, each two have the least gap between them, and every one of the candidates in the
  -- domain is a tick or has one nearer than the gap.
  pub stable_log_ticks-AreSelected :
      (rounded : IsRounded N) (decades : N → N → List N) (min max : N) (position : N → N)
      (height : N)
      → is_no_domain min max ≡ false
      → AreSelected position
          (min_gap_of height)
          (λ t. within min max t ≡ true)
          (candidates_of min max (decades min max))
          (stable_log_ticks decades min max position height)
  unfolding stable_log_ticks
  stable_log_ticks-AreSelected rounded decades min max position height h =
      let candidates = candidates_of min max (decades min max) in
      let gap = min_gap_of height in
      let P = λ (t : N). within min max t ≡ true in
      let all = candidates_of-All min max (decades min max) in
      rw h (elim (Bool-cases (leb (length candidates) 1)) [
        | inl e ↦ rw e (few-AreSelected rounded position gap P candidates e all)
        | inr e ↦ rw e (
            sorted-AreSelected rounded position gap P candidates
              (select_ticks position gap [] (sort not_below candidates))
              (select_ticks-AreSelected position gap P [] (sort not_below candidates) tt tt
                (All-sort not_below P candidates all)))
      ])
