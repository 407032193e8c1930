-- ===== src/Table.antt =====
-- The table of venues (frontend/src/components/dashboard/latency-table.tsx): which rows it has, and in
-- which order. `collate` is whether the platform's `localeCompare` puts the first text at or before the
-- second, and `show` is the text of a number in a template literal.
pub mod Ranked
use perps_latency_benchmark.Prelude.{
  ℕ, zero, suc, ◌+◌, ◌-◌, ◌*◌, ◌/◌, ◌%◌, ◌≤◌, ◌<◌, ◌≡◌, refl, sym, ap, ◌∙◌, subst, ◌≢◌, ◌↔◌, ◌⊎◌,
  inl, inr, Bool, true, false, not, ◌&&◌, ◌||◌, Option, none, some, List, [], ◌∷◌, ◌++◌, map, arith,
  length, get_elem?, keep, any, All, All-map, All-imp, get_elem?-IsInside, Text, txt, ◌===◌, ltb,
  leb, ◌==◌, ==_iff, Bool-cases, if◌then◌else◌, value_or, min, max,
}
use perps_latency_benchmark.Prelude.Sorting.{sort}
use perps_latency_benchmark.Data.{SummaryRow}
use perps_latency_benchmark.Numbers.{Numbers, nought, positive}
use perps_latency_benchmark.Latency.{confirm_p50, confirm_p95, confirm_p99}

pub data SortKey : Type 0 where
  p50 p95 p99 : SortKey

pub data SortDirection : Type 0 where
  asc desc : SortDirection

pub record SortState : Type 0 where
  pub direction : SortDirection
  pub key : SortKey

abbrev pub initial_sort : SortState
initial_sort = record { direction = asc; key = p95 }

abbrev same_key : SortKey → SortKey → Bool
same_key p50 p50 = true
same_key p95 p95 = true
same_key p99 p99 = true
same_key _ _ = false

abbrev other_direction : SortDirection → SortDirection
other_direction asc = desc
other_direction desc = asc

unfoldable pub next_sort : SortState → SortKey → SortState
next_sort current key =
    if not (same_key current.key key)
    then record { direction = asc; key = key }
    else record { direction = other_direction current.direction; key = key }

-- The sign of a comparison.
pub data Order : Type 0 where
  before tied behind : Order

-- `sort` puts the left row first where the comparison is not above 0.
abbrev pub not_behind : Order → Bool → Bool
not_behind before identity = true
not_behind tied identity = identity
not_behind behind identity = false

module _ {N : Type 0} ⦃n : Numbers N⦄ where
  abbrev pub has_successful_latency_data : SummaryRow N → Bool
  has_successful_latency_data row = positive row.ok

  unfoldable pub sort_value : SummaryRow N → SortKey → Bool → N
  sort_value row p50 subtract_network_floor = confirm_p50 row subtract_network_floor
  sort_value row p95 subtract_network_floor = confirm_p95 row subtract_network_floor
  sort_value row p99 subtract_network_floor = confirm_p99 row subtract_network_floor

  -- The sign of `left - right`.
  abbrev pub compare_numbers : N → N → Order
  compare_numbers left right =
      if n.lt left right then before else if n.lt right left then behind else tied

  -- Of `(left - right) * direction`.
  abbrev pub in_direction : SortDirection → N → N → Order
  in_direction asc left right = compare_numbers left right
  in_direction desc left right = compare_numbers right left

  abbrev pub compare_latency_values : N → N → SortDirection → Order
  compare_latency_values left right direction =
      if not (n.is_finite left) && not (n.is_finite right)
      then tied
      else if not (n.is_finite left)
      then behind
      else if not (n.is_finite right)
      then before
      else in_direction direction left right

  module _ (show : N → Text) where
    unfoldable pub row_identity : SummaryRow N → Text
    row_identity row =
        row.venue
        ++ (txt ":"
            ++ (row.scenario
                ++ (txt ":"
                    ++ (row.order_type
                        ++ (txt ":"
                            ++ (show row.batch_size
                                ++ (txt ":" ++ value_or row.batch_submission [])))))))

    -- `row.batch_size || 1`, of a number that JSON can hold.
    unfoldable pub submission_label : SummaryRow N → Text
    unfolding ◌===◌
    submission_label row =
        let count = if n.same row.batch_size nought then n.of_ℕ 1 else row.batch_size in
        if not (row.scenario === txt "batch")
        then txt "Single order"
        else if value_or row.batch_submission [] === txt "manual"
        then show count ++ txt " manual fanout"
        else show count ++ txt " native batch"

    module _ (collate : Text → Text → Bool) where
      abbrev pub may_precede : SortState → Bool → SummaryRow N → SummaryRow N → Bool
      may_precede state subtract_network_floor left right =
          not_behind
            (compare_latency_values (sort_value left state.key subtract_network_floor)
              (sort_value right state.key subtract_network_floor) state.direction)
            (collate (row_identity left) (row_identity right))

      unfoldable pub sort_rows : List (SummaryRow N) → SortState → Bool → List (SummaryRow N)
      unfolding row_identity sort_value
      sort_rows rows state subtract_network_floor =
          sort (may_precede state subtract_network_floor) rows

      -- The rows of the table, in order.
      unfoldable pub sorted_rows : List (SummaryRow N) → SortState → Bool → List (SummaryRow N)
      unfolding sort_rows
      sorted_rows rows state subtract_network_floor =
          sort_rows (keep has_successful_latency_data rows) state subtract_network_floor
