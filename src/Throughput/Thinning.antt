-- ===== src/Throughput/Thinning.antt =====
-- How many points are drawn, and which (downsampleTPSPoints of
-- frontend/src/components/dashboard/exchange-tps-panel.tsx).
use perps_latency_benchmark.Prelude.{
  ℕ, suc, ◌+◌, ◌-◌, ◌*◌, ◌≤◌, ◌<◌, ◌≡◌, refl, ap, inl, inr, false, ◌||◌, List, [], ◌∷◌, map, arith,
  length, All, ltb, leb, ◌==◌, Bool-cases, max,
}
use perps_latency_benchmark.Prelude.Sorting.{length-sort, All-sort}
use perps_latency_benchmark.Prelude.Counting.{IsDistinct, length-le}
use perps_latency_benchmark.Numbers.{Numbers}
use perps_latency_benchmark.Throughput.{TpsPoint, not_after}
use perps_latency_benchmark.Throughput.Downsample.{
  thinned, Bucket, set_bucket, select, select_buckets, last_of, bucket_count, bucket_of,
  buckets_from, downsample_tps_points,
}

module _ {N : Type 0} ⦃n : Numbers N⦄ where
  abbrev pub keys : List (ℕ × Bucket N) → List ℕ
  keys buckets = map (λ (b : ℕ × Bucket N). b.0) buckets

  All-keys :
      (P : ℕ → Type 0) (key : ℕ) (point : TpsPoint N) (buckets : List (ℕ × Bucket N))
      → P key
      → All P (keys buckets)
      → All P (keys (set_bucket key point buckets))
  All-keys P key point [] h k = (h, tt)
  All-keys P key point ((l, bucket) ∷ buckets) h (k, ks) = elim (Bool-cases (l == key)) [
    | inl e ↦ rw e (k, ks)
    | inr e ↦ rw e (k, All-keys P key point buckets h ks)
  ]

  pub keys-IsDistinct :
      (key : ℕ) (point : TpsPoint N) (buckets : List (ℕ × Bucket N))
      → IsDistinct (keys buckets)
      → IsDistinct (keys (set_bucket key point buckets))
  keys-IsDistinct key point [] h = (tt, tt)
  keys-IsDistinct key point ((l, bucket) ∷ buckets) (h, hs) = elim (Bool-cases (l == key)) [
    | inl e ↦ rw e (h, hs)
    | inr e ↦ rw e (
      All-keys (λ m. (l == m) ≡ false) key point buckets e h,
      keys-IsDistinct key point buckets hs,
    )
  ]

  -- Both points of every bucket.
  abbrev Within : (TpsPoint N → Type 0) → List (ℕ × Bucket N) → Type 0
  Within P buckets = All (λ (b : ℕ × Bucket N). P b.1.low × P b.1.high) buckets

  set_bucket-Within :
      (P : TpsPoint N → Type 0) (key : ℕ) (point : TpsPoint N) (buckets : List (ℕ × Bucket N))
      → P point
      → Within P buckets
      → Within P (set_bucket key point buckets)
  set_bucket-Within P key point [] h k = ((h, h), tt)
  set_bucket-Within P key point ((l, bucket) ∷ buckets) h (k, ks) =
      ground (arith, set_bucket-Within P key point buckets h ks)

  All-select :
      (P : TpsPoint N → Type 0) (point : TpsPoint N) (selected : List (TpsPoint N))
      → P point
      → All P selected
      → All P (select point selected)
  All-select P point [] h k = (h, tt)
  All-select P point (p ∷ selected) h (k, ks) = ground (arith, All-select P point selected h ks)

  length-select :
      (point : TpsPoint N) (selected : List (TpsPoint N))
      → length (select point selected) ≤ suc (length selected)
  length-select point [] = ground arith
  length-select point (p ∷ selected) = ground (arith, length-select point selected)

  All-select_buckets :
      (P : TpsPoint N → Type 0) (buckets : List (ℕ × Bucket N)) (selected : List (TpsPoint N))
      → Within P buckets
      → All P selected
      → All P (select_buckets buckets selected)
  All-select_buckets P [] selected h k = k
  All-select_buckets P ((l, bucket) ∷ buckets) selected ((h, i), hs) k =
      All-select_buckets P buckets (select bucket.high (select bucket.low selected)) hs
        (All-select P bucket.high _ i (All-select P bucket.low selected h k))

  length-select_buckets :
      (buckets : List (ℕ × Bucket N)) (selected : List (TpsPoint N))
      → length (select_buckets buckets selected) ≤ length selected + 2 * length buckets
  length-select_buckets [] selected = ground arith
  length-select_buckets ((l, bucket) ∷ buckets) selected = omega (
    arith,
    length-select_buckets buckets (select bucket.high (select bucket.low selected)),
    length-select bucket.high (select bucket.low selected),
    length-select bucket.low selected,
  )

  All-last_of :
      (P : TpsPoint N → Type 0) (point : TpsPoint N) (points : List (TpsPoint N))
      → All P (point ∷ points)
      → P (last_of point points)
  All-last_of P point [] h = h.0
  All-last_of P point (p ∷ points) h = All-last_of P p points h.1

  length-keys : (buckets : List (ℕ × Bucket N)) → length (keys buckets) ≡ length buckets
  length-keys [] = refl
  length-keys (b ∷ buckets) = ap suc (length-keys buckets)

  -- What holds of the buckets while the points are put into them.
  record IsFilled (P : TpsPoint N → Type 0) (count : ℕ) (buckets : List (ℕ × Bucket N))
      : Type 0 where
    distinct : IsDistinct (keys buckets)
    below : All (λ k. k < count) (keys buckets)
    within : Within P buckets

  buckets_from-IsFilled :
      (P : TpsPoint N → Type 0) (count : ℕ) (key : TpsPoint N → ℕ)
      → ((p : TpsPoint N) → key p < count)
      → (buckets : List (ℕ × Bucket N)) (points : List (TpsPoint N)) → All P points
      → IsFilled P count buckets
      → IsFilled P count (buckets_from key buckets points)
  buckets_from-IsFilled P count key below buckets [] h f = f
  buckets_from-IsFilled P count key below buckets (p ∷ points) (h, hs) f =
      buckets_from-IsFilled P count key below (set_bucket (key p) p buckets) points hs record {
        distinct = keys-IsDistinct (key p) p buckets f.distinct;
        below = All-keys (λ k. k < count) (key p) p buckets (below p) f.below;
        within = set_bucket-Within P (key p) p buckets h f.within;
      }

  module _ (share_of : ℕ → ℕ → ℕ → ℕ) where
    bucket_of-lt :
        (first_time span max_points : ℕ) (p : TpsPoint N)
        → bucket_of share_of first_time span (bucket_count max_points) p < bucket_count max_points
    bucket_of-lt first_time span max_points p = omega arith

    thinned-IsThinned :
        (P : TpsPoint N → Type 0) (first : TpsPoint N) (points : List (TpsPoint N)) (max_points : ℕ)
        → All P (first ∷ points)
        → All P (thinned share_of first points max_points)
          × (length (thinned share_of first points max_points) ≤ 2 + 2 * bucket_count max_points)
    unfolding thinned
    thinned-IsThinned P first points max_points h =
        let last = last_of first points in
        let key =
          bucket_of share_of first.date (max (last.date - first.date) 1)
            (bucket_count max_points) in
        let buckets = buckets_from key [] (first ∷ points) in
        let filled =
          buckets_from-IsFilled P (bucket_count max_points) key
            (bucket_of-lt first.date (max (last.date - first.date) 1) max_points) []
            (first ∷ points) h (record { distinct = tt; below = tt; within = tt }) in
        let selected = select last (first ∷ []) in
        (
          All-sort not_after P (select_buckets buckets selected) (
              All-select_buckets P buckets selected filled.within
                (All-select P last (first ∷ []) (All-last_of P first points h) (h.0, tt))),
          omega (
            arith,
            length-sort not_after (select_buckets buckets selected),
            length-select_buckets buckets selected,
            length-select last (first ∷ []),
            length-le (bucket_count max_points) (keys buckets) filled.distinct filled.below,
            length-keys buckets,
          ),
        )

    -- Only points of the series are drawn of it, and of a series that is longer than the maximum of at
    -- least 4 no more than the maximum and two.
    pub downsample_tps_points-IsThinned :
        (points : List (TpsPoint N)) (max_points : ℕ) (P : TpsPoint N → Type 0)
        → All P points
        → All P (downsample_tps_points share_of points max_points)
          × (4 ≤ max_points
              → length (downsample_tps_points share_of points max_points) ≤ max_points + 2)
    unfolding downsample_tps_points
    downsample_tps_points-IsThinned [] max_points P h = (tt, λ k. omega arith)
    downsample_tps_points-IsThinned (first ∷ points) max_points P h =
        elim (Bool-cases (leb (length (first ∷ points)) max_points || ltb max_points 4)) [
          | inl e ↦ rw e (h, λ k. ground (arith, e, k))
          | inr e ↦ rw e (
            (thinned-IsThinned P first points max_points h).0,
            λ k. omega (arith, (thinned-IsThinned P first points max_points h).1, k),
          )
        ]
