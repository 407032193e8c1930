-- ===== src/Throughput/Peaks.antt =====
-- The peaks of a series are drawn (downsampleTPSPoints of
-- frontend/src/components/dashboard/exchange-tps-panel.tsx).
use perps_latency_benchmark.Prelude.{
  ℕ, ◌-◌, ◌≡◌, refl, sym, ap, ◌∙◌, subst, inl, inr, true, false, ◌||◌, List, [], ◌∷◌, arith, length,
  All, Any, Any-imp, ltb, leb, ◌==◌, Bool-cases, min, max,
}
use perps_latency_benchmark.Prelude.Sorting.{Any-sort}
use perps_latency_benchmark.Prelude.Counting.{IsDistinct}
use perps_latency_benchmark.Numbers.{Numbers, IsOrdered}
use perps_latency_benchmark.Throughput.{TpsPoint, not_after}
use perps_latency_benchmark.Throughput.Downsample.{
  Bucket, set_bucket, select, select_buckets, last_of, bucket_count, bucket_of, buckets_from,
  downsample_tps_points, thinned,
}
use perps_latency_benchmark.Throughput.Thinning.{keys, keys-IsDistinct}

module _ {N : Type 0} ⦃n : Numbers N⦄ (ordered : IsOrdered N) where
  not_lt_self : (x : N) → n.lt x x ≡ false
  not_lt_self x = ground (arith, ordered.lt_asymm x x)

  not_lt_later :
      (high point p : N) → n.lt high p ≡ false → n.lt high point ≡ true → n.lt point p ≡ false
  not_lt_later high point p h k = ground (arith, ordered.lt_trans high point p, h, k)

  module _ (key : TpsPoint N → ℕ) (p : TpsPoint N) where
    -- The bucket of the point has a highest point that is not below it.
    abbrev Covers : ℕ × Bucket N → Type 0
    Covers (k, b) = (k ≡ key p) × (n.lt b.high.tps p.tps ≡ false)

    set_bucket-Covers :
        (point : TpsPoint N) (buckets : List (ℕ × Bucket N))
        → Any Covers buckets
        → Any Covers (set_bucket (key point) point buckets)
    set_bucket-Covers point [] h = elim h [ ]
    set_bucket-Covers point ((k, b) ∷ buckets) h =
        ground (arith, h, not_lt_later b.high.tps point.tps p.tps, set_bucket-Covers point buckets)

    set_bucket-Covers_self :
        (buckets : List (ℕ × Bucket N)) → Any Covers (set_bucket (key p) p buckets)
    set_bucket-Covers_self [] = inl (refl, not_lt_self p.tps)
    set_bucket-Covers_self ((k, b) ∷ buckets) =
        ground (arith, not_lt_self p.tps, set_bucket-Covers_self buckets)

    buckets_from-Covers :
        (buckets : List (ℕ × Bucket N)) (points : List (TpsPoint N))
        → Any Covers buckets
        → Any Covers (buckets_from key buckets points)
    buckets_from-Covers buckets [] h = h
    buckets_from-Covers buckets (q ∷ points) h =
        buckets_from-Covers (set_bucket (key q) q buckets) points (set_bucket-Covers q buckets h)

    buckets_from-Covers_of :
        (buckets : List (ℕ × Bucket N)) (points : List (TpsPoint N))
        → Any (λ q. q ≡ p) points
        → Any Covers (buckets_from key buckets points)
    buckets_from-Covers_of buckets [] h = elim h [ ]
    buckets_from-Covers_of buckets (q ∷ points) (inl e) =
        buckets_from-Covers (set_bucket (key q) q buckets) points (
          subst (λ x. Any Covers (set_bucket (key x) x buckets)) (sym e)
            (set_bucket-Covers_self buckets))
    buckets_from-Covers_of buckets (q ∷ points) (inr h) =
        buckets_from-Covers_of (set_bucket (key q) q buckets) points h

    -- A drawn point of the bucket that is not below it.
    abbrev IsPeak : TpsPoint N → Type 0
    IsPeak q = (key q ≡ key p) × (n.lt q.tps p.tps ≡ false)

    select-IsPeak :
        (point : TpsPoint N) (selected : List (TpsPoint N))
        → IsPeak point
        → Any IsPeak (select point selected)
    select-IsPeak point [] h = inl h
    select-IsPeak point (q ∷ selected) h = ground (arith, h, select-IsPeak point selected h)

    -- The points of a bucket are of the bucket.
    abbrev IsKeyed : List (ℕ × Bucket N) → Type 0
    IsKeyed buckets = All (λ (b : ℕ × Bucket N). (key b.1.low ≡ b.0) × (key b.1.high ≡ b.0)) buckets

    set_bucket-IsKeyed :
        (point : TpsPoint N) (buckets : List (ℕ × Bucket N))
        → IsKeyed buckets
        → IsKeyed (set_bucket (key point) point buckets)
    set_bucket-IsKeyed point [] h = ((refl, refl), tt)
    set_bucket-IsKeyed point ((k, b) ∷ buckets) (h, hs) =
        ground (arith, h, hs, set_bucket-IsKeyed point buckets hs)

    -- What holds of the buckets while the points are put into them.
    buckets_from-IsKeyed :
        (buckets : List (ℕ × Bucket N)) (points : List (TpsPoint N))
        → IsKeyed buckets
        → IsDistinct (keys buckets)
        → IsKeyed (buckets_from key buckets points)
          × IsDistinct (keys (buckets_from key buckets points))
    buckets_from-IsKeyed buckets [] h k = (h, k)
    buckets_from-IsKeyed buckets (q ∷ points) h k =
        buckets_from-IsKeyed (set_bucket (key q) q buckets) points (set_bucket-IsKeyed q buckets h)
          (keys-IsDistinct (key q) q buckets k)

    module _ (same_key : (a b : TpsPoint N) → a.date ≡ b.date → key a ≡ key b) where
      select-IsPeak_kept :
          (q : TpsPoint N) (selected : List (TpsPoint N))
          → (key p == key q) ≡ false
          → Any IsPeak selected
          → Any IsPeak (select q selected)
      select-IsPeak_kept q [] other h = elim h [ ]
      select-IsPeak_kept q (x ∷ selected) other h =
          ground (arith, other, h, same_key x q, select-IsPeak_kept q selected other)

      select_buckets-IsPeak_kept :
          (buckets : List (ℕ × Bucket N)) (selected : List (TpsPoint N))
          → IsKeyed buckets
          → All (λ k. (key p == k) ≡ false) (keys buckets)
          → Any IsPeak selected
          → Any IsPeak (select_buckets buckets selected)
      select_buckets-IsPeak_kept [] selected h other peak = peak
      select_buckets-IsPeak_kept ((k, b) ∷ buckets) selected ((low, high), hs) (other, others)
            peak =
          select_buckets-IsPeak_kept buckets (select b.high (select b.low selected)) hs others (
            select-IsPeak_kept b.high (select b.low selected) (rw high other)
              (select-IsPeak_kept b.low selected (rw low other) peak))

      select_buckets-IsPeak :
          (buckets : List (ℕ × Bucket N)) (selected : List (TpsPoint N))
          → IsKeyed buckets × IsDistinct (keys buckets)
          → Any Covers buckets
          → Any IsPeak (select_buckets buckets selected)
      select_buckets-IsPeak [] selected h covers = elim covers [ ]
      select_buckets-IsPeak ((k, b) ∷ buckets) selected (((low, high), hs), (other, others))
            (inl (e, above)) =
          select_buckets-IsPeak_kept buckets (select b.high (select b.low selected)) hs
            (subst (λ l. All (λ m. (l == m) ≡ false) (keys buckets)) e other)
            (select-IsPeak b.high (select b.low selected) (high ∙ e, above))
      select_buckets-IsPeak ((k, b) ∷ buckets) selected (((low, high), hs), (other, others))
            (inr covers) =
          select_buckets-IsPeak buckets (select b.high (select b.low selected)) (hs, others) covers

  module _ (share_of : ℕ → ℕ → ℕ → ℕ) where
    thinned-IsPeak :
        (first : TpsPoint N) (points : List (TpsPoint N)) (max_points : ℕ) (p : TpsPoint N)
        → Any (λ q. q ≡ p) (first ∷ points)
        → Any (λ q. n.lt q.tps p.tps ≡ false) (thinned share_of first points max_points)
    unfolding thinned
    thinned-IsPeak first points max_points p h =
        let last = last_of first points in
        let count = bucket_count max_points in
        let span = max (last.date - first.date) 1 in
        let key = bucket_of share_of first.date span count in
        let buckets = buckets_from key [] (first ∷ points) in
        let selected = select last (first ∷ []) in
        Any-sort not_after (λ q. n.lt q.tps p.tps ≡ false) (select_buckets buckets selected)
          (Any-imp (IsPeak key p) (λ q. n.lt q.tps p.tps ≡ false) (select_buckets buckets selected)
            (λ x e. e.1)
            (select_buckets-IsPeak key p
              (λ a b e. ap (λ d. min (count - 1) (share_of (d - first.date) span count)) e) buckets
              selected (buckets_from-IsKeyed key p [] (first ∷ points) tt tt)
              (buckets_from-Covers_of key p [] (first ∷ points) h)))

    -- Where the order of the numbers is one, of every point of a series a point is drawn whose throughput is
    -- not below its own, whatever the maximum of points is.
    pub downsample_tps_points-Any :
        (points : List (TpsPoint N)) (max_points : ℕ) (p : TpsPoint N)
        → Any (λ q. q ≡ p) points
        → Any (λ q. n.lt q.tps p.tps ≡ false) (downsample_tps_points share_of points max_points)
    unfolding downsample_tps_points
    downsample_tps_points-Any [] max_points p h = elim h [ ]
    downsample_tps_points-Any (first ∷ points) max_points p h =
        elim (Bool-cases (leb (length (first ∷ points)) max_points || ltb max_points 4)) [
          | inl e ↦ rw e (
              Any-imp (λ q. q ≡ p) (λ q. n.lt q.tps p.tps ≡ false) (first ∷ points)
                (λ x k. subst (λ y. n.lt y.tps p.tps ≡ false) (sym k) (not_lt_self p.tps)) h)
          | inr e ↦ rw e (thinned-IsPeak first points max_points p h)
        ]
