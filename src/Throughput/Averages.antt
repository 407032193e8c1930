-- ===== src/Throughput/Averages.antt =====
-- The average throughput of each venue (averageRowsByVenue of
-- frontend/src/components/dashboard/exchange-tps-panel.tsx).
use perps_latency_benchmark.Prelude.{
  ℕ, ◌+◌, ◌≡◌, refl, ap, inl, inr, Bool, true, false, ◌&&◌, Option, none, some, List, [], ◌∷◌, ◌++◌,
  map, arith, length, keep, Text, ◌===◌, Bool-cases, if◌then◌else◌,
}
use perps_latency_benchmark.Prelude.Sorting.{sort}
use perps_latency_benchmark.Data.{ExchangeTpsRow}
use perps_latency_benchmark.Numbers.{Numbers, nought, positive}
use perps_latency_benchmark.Chart.Colors.{color_for_venue}
use perps_latency_benchmark.TakerCost.Series.{sum, sum_from}
use perps_latency_benchmark.TakerCost.Groups.{groups_from, group_by, add_to_group}
use perps_latency_benchmark.Throughput.{TpsAverage}

abbrev is_date : Option ℕ → Bool
is_date none = false
is_date (some date) = true

module _ {N : Type 0} ⦃n : Numbers N⦄ where
  unfoldable no_average : Text → TpsAverage N
  unfolding color_for_venue
  no_average venue = record {
    avg_tps = nought;
    bucket_count = 0;
    color = color_for_venue venue;
    total_seconds = nought;
    total_tx = nought;
    venue = venue;
  }

  -- `current` after a row.
  abbrev with_row : ExchangeTpsRow N → TpsAverage N → TpsAverage N
  with_row row current =
      let seconds = n.add current.total_seconds row.bucket_seconds in
      let tx = n.add current.total_tx row.tx_count in
      record {
        avg_tps = n.div tx seconds;
        bucket_count = current.bucket_count + 1;
        color = current.color;
        total_seconds = seconds;
        total_tx = tx;
        venue = current.venue;
      }

  -- `byVenue.set(row.venue, current)`, over the averages in the order of insertion.
  abbrev set_row : ExchangeTpsRow N → List (TpsAverage N) → List (TpsAverage N)
  set_row row [] = with_row row (no_average row.venue) ∷ []
  set_row row (current ∷ averages) =
      let later = current ∷ set_row row averages in
      if current.venue === row.venue then with_row row current ∷ averages else later

  abbrev pub not_behind : (Text → Text → Bool) → TpsAverage N → TpsAverage N → Bool
  not_behind collate left right = collate left.venue right.venue

  module _ (parse_date : Text → Option ℕ) where
    -- `bucket_seconds <= 0` is false of NaN, which is not finite.
    abbrev pub is_averaged : ExchangeTpsRow N → Bool
    is_averaged row =
        is_date (parse_date row.bucket_start)
        && n.is_finite row.tps
        && n.is_finite row.bucket_seconds
        && positive row.bucket_seconds

    abbrev averages_from : List (TpsAverage N) → List (ExchangeTpsRow N) → List (TpsAverage N)
    averages_from averages [] = averages
    averages_from averages (row ∷ rows) =
        let skipped = averages_from averages rows in
        let counted = averages_from (set_row row averages) rows in
        if is_averaged row then counted else skipped

    unfoldable pub average_rows_by_venue :
        (Text → Text → Bool) → List (ExchangeTpsRow N) → List (TpsAverage N)
    unfolding ◌===◌ no_average
    average_rows_by_venue collate rows = sort (not_behind collate) (averages_from [] rows)

  -- The transactions of all rows over the seconds of all rows; none is 0.
  abbrev rate_of : List (ExchangeTpsRow N) → N
  rate_of [] = nought
  rate_of (row ∷ rows) =
      n.div (sum (map (λ (r : ExchangeTpsRow N). r.tx_count) (row ∷ rows)))
        (sum (map (λ (r : ExchangeTpsRow N). r.bucket_seconds) (row ∷ rows)))

  -- The average that the rows of a venue are to have.
  unfoldable pub average_of : Text × List (ExchangeTpsRow N) → TpsAverage N
  unfolding color_for_venue sum
  average_of (venue, rows) = record {
    avg_tps = rate_of rows;
    bucket_count = length rows;
    color = color_for_venue venue;
    total_seconds = sum (map (λ (r : ExchangeTpsRow N). r.bucket_seconds) rows);
    total_tx = sum (map (λ (r : ExchangeTpsRow N). r.tx_count) rows);
    venue = venue;
  }

  sum_from-snoc :
      (total : N) (key : ExchangeTpsRow N → N) (rows : List (ExchangeTpsRow N))
      (row : ExchangeTpsRow N)
      → sum_from total (map key (rows ++ row ∷ []))
        ≡ n.add (sum_from total (map key rows)) (key row)
  sum_from-snoc total key [] row = refl
  sum_from-snoc total key (r ∷ rows) row = sum_from-snoc (n.add total (key r)) key rows row

  length-snoc :
      (rows : List (ExchangeTpsRow N)) (row : ExchangeTpsRow N)
      → length (rows ++ row ∷ []) ≡ length rows + 1
  length-snoc [] row = refl
  length-snoc (r ∷ rows) row = omega (arith, length-snoc rows row)

  average_of-snoc :
      (venue : Text) (rows : List (ExchangeTpsRow N)) (row : ExchangeTpsRow N)
      → average_of (venue, rows ++ row ∷ []) ≡ with_row row (average_of (venue, rows))
  unfolding sum average_of
  average_of-snoc venue [] row = refl
  average_of-snoc venue (r ∷ rows) row =
      rw
        (
          sum_from-snoc nought (λ (x : ExchangeTpsRow N). x.tx_count) (r ∷ rows) row,
          sum_from-snoc nought (λ (x : ExchangeTpsRow N). x.bucket_seconds) (r ∷ rows) row,
          length-snoc (r ∷ rows) row,
        )
        refl

  set_row-average_of :
      (row : ExchangeTpsRow N) (groups : List (Text × List (ExchangeTpsRow N)))
      → set_row row (map average_of groups)
        ≡ map average_of (add_to_group ◌===◌ (λ (r : ExchangeTpsRow N). r.venue) row groups)
  unfolding average_of no_average ◌===◌
  set_row-average_of row [] = refl
  set_row-average_of row ((venue, rows) ∷ groups) = elim (Bool-cases (venue === row.venue)) [
    | inl e ↦ rw (e, average_of-snoc venue rows row) refl
    | inr e ↦ rw (e, set_row-average_of row groups) refl
  ]

  averages_from-groups :
      (parse_date : Text → Option ℕ) (groups : List (Text × List (ExchangeTpsRow N)))
      (rows : List (ExchangeTpsRow N))
      → averages_from parse_date (map average_of groups) rows
        ≡ map average_of (
            groups_from ◌===◌
              (λ (r : ExchangeTpsRow N). r.venue)
              groups
              (keep (is_averaged parse_date) rows))
  averages_from-groups parse_date groups [] = refl
  averages_from-groups parse_date groups (row ∷ rows) =
      elim (Bool-cases (is_averaged parse_date row)) [
        | inl e ↦
            rw (e, set_row-average_of row groups)
              (averages_from-groups parse_date
                (add_to_group ◌===◌ (λ (r : ExchangeTpsRow N). r.venue) row groups) rows)
        | inr e ↦ rw e (averages_from-groups parse_date groups rows)
      ]

  -- The averages, put together row by row, are those of the groups of the averaged rows by venue, in the
  -- order of the venues: the transactions of the group over its seconds, and how many rows it has.
  pub average_rows_by_venue-groups :
      (parse_date : Text → Option ℕ) (collate : Text → Text → Bool) (rows : List (ExchangeTpsRow N))
      → average_rows_by_venue parse_date collate rows
        ≡ sort (not_behind collate) (
            map average_of (
              group_by ◌===◌
                (λ (r : ExchangeTpsRow N). r.venue)
                (keep (is_averaged parse_date) rows)))
  unfolding average_rows_by_venue group_by
  average_rows_by_venue-groups parse_date collate rows =
      ap (sort (not_behind collate)) (averages_from-groups parse_date [] rows)
