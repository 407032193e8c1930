-- ===== src/Throughput/Downsample.antt =====
-- The points that the panel draws of a long series (downsampleTPSPoints of
-- frontend/src/components/dashboard/exchange-tps-panel.tsx): the first and the last, and of each bucket of
-- time the lowest and the highest. The points are in order of date. `share_of offset span count` is
-- `Math.floor((offset / span) * count)` in the platform's doubles.
use perps_latency_benchmark.Prelude.{
  ℕ, ◌-◌, ◌/◌, ◌||◌, List, [], ◌∷◌, map, length, ltb, leb, ◌==◌, if◌then◌else◌, min, max,
}
use perps_latency_benchmark.Prelude.Sorting.{sort}
use perps_latency_benchmark.Numbers.{Numbers}
use perps_latency_benchmark.Throughput.{TpsPoint, TpsSeries, not_after}

pub record Bucket (N : Type 0) : Type 0 where
  pub high : TpsPoint N
  pub low : TpsPoint N

abbrev pub bucket_count : ℕ → ℕ
bucket_count max_points = max 2 (max_points / 2)

module _ {N : Type 0} ⦃n : Numbers N⦄ where
  abbrev pub with_point : TpsPoint N → Bucket N → Bucket N
  with_point point current = record {
    high = if n.lt current.high.tps point.tps then point else current.high;
    low = if n.lt point.tps current.low.tps then point else current.low;
  }

  -- The bucket of a point in the map of buckets, which keeps the order of insertion.
  abbrev pub set_bucket : ℕ → TpsPoint N → List (ℕ × Bucket N) → List (ℕ × Bucket N)
  set_bucket key point [] = (key, record { high = point; low = point }) ∷ []
  set_bucket key point ((k, current) ∷ buckets) =
      let later = (k, current) ∷ set_bucket key point buckets in
      if k == key then (k, with_point point current) ∷ buckets else later

  -- `selected.set(point.date.getTime(), point)`
  abbrev pub select : TpsPoint N → List (TpsPoint N) → List (TpsPoint N)
  select point [] = point ∷ []
  select point (p ∷ selected) =
      let later = p ∷ select point selected in
      if p.date == point.date then point ∷ selected else later

  abbrev pub select_buckets : List (ℕ × Bucket N) → List (TpsPoint N) → List (TpsPoint N)
  select_buckets [] selected = selected
  select_buckets ((k, bucket) ∷ buckets) selected =
      select_buckets buckets (select bucket.high (select bucket.low selected))

  abbrev pub last_of : TpsPoint N → List (TpsPoint N) → TpsPoint N
  last_of point [] = point
  last_of point (p ∷ points) = last_of p points

  abbrev pub buckets_from :
      (TpsPoint N → ℕ) → List (ℕ × Bucket N) → List (TpsPoint N) → List (ℕ × Bucket N)
  buckets_from key buckets [] = buckets
  buckets_from key buckets (point ∷ points) =
      buckets_from key (set_bucket (key point) point buckets) points

  module _ (share_of : ℕ → ℕ → ℕ → ℕ) where
    abbrev pub bucket_of : (first_time span count : ℕ) → TpsPoint N → ℕ
    bucket_of first_time span count point =
        min (count - 1) (share_of (point.date - first_time) span count)

    -- The points drawn of a series that has more than it may have.
    unfoldable pub thinned : TpsPoint N → List (TpsPoint N) → ℕ → List (TpsPoint N)
    thinned first points max_points =
        let last = last_of first points in
        let count = bucket_count max_points in
        let key = bucket_of first.date (max (last.date - first.date) 1) count in
        let buckets = buckets_from key [] (first ∷ points) in
        sort not_after (select_buckets buckets (select last (first ∷ [])))

    unfoldable pub downsample_tps_points : List (TpsPoint N) → ℕ → List (TpsPoint N)
    unfolding thinned
    downsample_tps_points [] max_points = []
    downsample_tps_points (first ∷ points) max_points =
        if leb (length (first ∷ points)) max_points || ltb max_points 4
        then first ∷ points
        else thinned first points max_points

    -- `points_in width` is `Math.floor(width * TPS_POINTS_PER_PIXEL)`.
    unfoldable pub downsample_tps_series : ℕ → List (TpsSeries N) → List (TpsSeries N)
    unfolding downsample_tps_points
    downsample_tps_series points_in_width series =
        map
          (λ (item : TpsSeries N). record {
            color = item.color;
            points = downsample_tps_points item.points (max 240 points_in_width);
            venue = item.venue;
          })
          series
