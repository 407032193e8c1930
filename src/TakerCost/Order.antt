-- ===== src/TakerCost/Order.antt =====
-- The order of the records of taker orders (frontend/src/lib/taker-cost.ts).
use perps_latency_benchmark.Prelude.{ℕ, Option, List, Text, arith}
use perps_latency_benchmark.Prelude.Sorting.{IsSorted, sort-perm, sort-IsSorted}
use perps_latency_benchmark.Data.{Sample}
use perps_latency_benchmark.Numbers.{Numbers}
use perps_latency_benchmark.TakerCost.{records_of, not_after, build_taker_cost_records}
use mathlib.Core.List.{Perm}

module _ {N : Type 0} ⦃n : Numbers N⦄ (parse_date : Text → Option ℕ) where
  -- The records of samples are those of the taker orders among them that have a cost and a date, each
  -- once, and no record comes before one with an earlier date.
  build_taker_cost_records-IsSorted :
      (samples : List (Sample N))
      → Perm (build_taker_cost_records parse_date samples) (records_of parse_date samples)
        × IsSorted not_after (build_taker_cost_records parse_date samples)
  unfolding build_taker_cost_records
  build_taker_cost_records-IsSorted samples = (
    sort-perm not_after (records_of parse_date samples),
    sort-IsSorted not_after (λ x y h. ground arith) (λ x y z h k. ground arith)
        (records_of parse_date samples),
  )
