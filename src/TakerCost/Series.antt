-- ===== src/TakerCost/Series.antt =====
-- The running costs of each venue (cumulativeVenueSeries of frontend/src/lib/taker-cost.ts). The map
-- is an association list.
use perps_latency_benchmark.Prelude.{
  subst, suc, ===_refl, ℕ, ◌≡◌, refl, false, Bool-cases, inl, inr, List, [], ◌∷◌, ◌++◌, map, keep,
  length, Text, ◌===◌, ===_iff, if◌then◌else◌, ap, ◌∙◌, arith,
}
use perps_latency_benchmark.Numbers.{Numbers, nought}
use perps_latency_benchmark.TakerCost.{TakerCostRecord}

pub record VenuePoint (N : Type 0) : Type 0 where
  pub date : ℕ
  pub record_of : TakerCostRecord N
  pub value : N
  pub venue : Text

module _ {N : Type 0} ⦃n : Numbers N⦄ where
  -- `running.get(venue) ?? 0` and `running.set(venue, next)`.
  unfoldable pub running_get : Text → List (Text × N) → N
  running_get venue [] = nought
  running_get venue ((v, x) ∷ running) = if v === venue then x else running_get venue running

  unfoldable pub running_set : Text → N → List (Text × N) → List (Text × N)
  running_set venue next [] = (venue, next) ∷ []
  running_set venue next ((v, x) ∷ running) =
      if v === venue then (v, next) ∷ running else (v, x) ∷ running_set venue next running

  abbrev pub next_value : List (Text × N) → TakerCostRecord N → N
  next_value running r = n.add (running_get r.venue running) r.trade_cost_usd

  abbrev pub point_of : TakerCostRecord N → N → VenuePoint N
  point_of r next = record { date = r.date; record_of = r; value = next; venue = r.venue }

  abbrev pub series_from : List (Text × N) → List (TakerCostRecord N) → List (VenuePoint N)
  series_from running [] = []
  series_from running (r ∷ records) =
      point_of r (next_value running r)
      ∷ series_from (running_set r.venue (next_value running r) running) records

  unfoldable pub cumulative_venue_series : List (TakerCostRecord N) → List (VenuePoint N)
  cumulative_venue_series records = series_from [] records

  -- `values.reduce((total, value) => total + value, start)`
  abbrev pub sum_from : N → List N → N
  sum_from total [] = total
  sum_from total (x ∷ xs) = sum_from (n.add total x) xs

  unfoldable pub sum : List N → N
  sum values = sum_from nought values

  -- The costs of the records of a venue.
  abbrev pub costs_of : Text → List (TakerCostRecord N) → List N
  costs_of venue records =
      map (λ (r : TakerCostRecord N). r.trade_cost_usd)
        (keep (λ (r : TakerCostRecord N). r.venue === venue) records)

  abbrev running_after : List (Text × N) → List (TakerCostRecord N) → List (Text × N)
  running_after running [] = running
  running_after running (r ∷ records) =
      running_after (running_set r.venue (next_value running r) running) records

  running_get-set_self :
      (venue : Text) (next : N) (running : List (Text × N))
      → running_get venue (running_set venue next running) ≡ next
  unfolding running_get running_set
  running_get-set_self venue next [] = ground (arith, ===_refl venue)
  running_get-set_self venue next ((v, x) ∷ running) =
      ground (arith, ===_refl venue, running_get-set_self venue next running)

  running_get-set_other :
      (venue other : Text) (next : N) (running : List (Text × N))
      → (other === venue) ≡ false
      → running_get venue (running_set other next running) ≡ running_get venue running
  unfolding running_get running_set
  running_get-set_other venue other next [] h = ground arith
  running_get-set_other venue other next ((v, x) ∷ running) h = elim (Bool-cases (v === other)) [
    | inl e ↦ rw (e, (===_iff v other).0 e, h) refl
    | inr e ↦ rw (e, running_get-set_other venue other next running h) refl
  ]

  -- What a record does to the running total of a venue.
  running_get-next :
      (venue : Text) (running : List (Text × N)) (r : TakerCostRecord N)
      → running_get venue (running_set r.venue (next_value running r) running) ≡ (
          if r.venue === venue
          then n.add (running_get venue running) r.trade_cost_usd
          else running_get venue running)
  running_get-next venue running r = elim (Bool-cases (r.venue === venue)) [
    | inl e ↦ rw e (
        subst
          (λ v.
            running_get v (running_set r.venue (next_value running r) running)
            ≡ n.add (running_get v running) r.trade_cost_usd)
          ((===_iff r.venue venue).0 e)
          (running_get-set_self r.venue (next_value running r) running))
    | inr e ↦ rw e (running_get-set_other venue r.venue (next_value running r) running e)
  ]

  sum_from-costs_of :
      (total : N) (venue : Text) (r : TakerCostRecord N) (records : List (TakerCostRecord N))
      → sum_from
          (if r.venue === venue then n.add total r.trade_cost_usd else total)
          (costs_of venue records)
        ≡ sum_from total (costs_of venue (r ∷ records))
  sum_from-costs_of total venue r records = elim (Bool-cases (r.venue === venue)) [
    | inl e ↦ rw e refl
    | inr e ↦ rw e refl
  ]

  running_get-after :
      (venue : Text) (running : List (Text × N)) (records : List (TakerCostRecord N))
      → running_get venue (running_after running records)
        ≡ sum_from (running_get venue running) (costs_of venue records)
  running_get-after venue running [] = refl
  running_get-after venue running (r ∷ records) =
      running_get-after venue (running_set r.venue (next_value running r) running) records
      ∙ ap (λ total. sum_from total (costs_of venue records)) (running_get-next venue running r)
      ∙ sum_from-costs_of (running_get venue running) venue r records

  series_from-append :
      (running : List (Text × N)) (before after : List (TakerCostRecord N))
      → series_from running (before ++ after)
        ≡ series_from running before ++ series_from (running_after running before) after
  series_from-append running [] after = refl
  series_from-append running (r ∷ before) after =
      ap (λ points. point_of r (next_value running r) ∷ points)
        (series_from-append (running_set r.venue (next_value running r) running) before after)

  length-series_from :
      (running : List (Text × N)) (records : List (TakerCostRecord N))
      → length (series_from running records) ≡ length records
  length-series_from running [] = refl
  length-series_from running (r ∷ records) =
      ap suc (length-series_from (running_set r.venue (next_value running r) running) records)

  -- The series has a point for each record, in order, and the value of a point is the cost of its
  -- record on top of the sum of the costs of the records of its venue before it.
  cumulative_venue_series-sum :
      (before : List (TakerCostRecord N)) (r : TakerCostRecord N) (after : List (TakerCostRecord N))
      → (left : List (VenuePoint N)) × (right : List (VenuePoint N)) × (cumulative_venue_series
            (before ++ r ∷ after)
          ≡ left ++ point_of r (n.add (sum (costs_of r.venue before)) r.trade_cost_usd) ∷ right)
        × (length left ≡ length before)
        × (length right ≡ length after)
  unfolding cumulative_venue_series sum running_get
  cumulative_venue_series-sum before r after =
      let running = running_after [] before in
      (
        series_from [] before,
        series_from (running_set r.venue (next_value running r) running) after,
        series_from-append [] before (r ∷ after)
            ∙ ap
                (λ total.
                  series_from [] before
                  ++ point_of r (n.add total r.trade_cost_usd)
                    ∷ series_from (running_set r.venue (next_value running r) running) after)
                (running_get-after r.venue [] before),
        length-series_from [] before,
        length-series_from (running_set r.venue (next_value running r) running) after,
      )
