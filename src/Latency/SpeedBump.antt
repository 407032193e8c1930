-- ===== src/Latency/SpeedBump.antt =====
-- The speed bumps of venues (frontend/src/lib/latency-metric.ts): those of the venue `extended` are
-- not shown and not taken off.
use perps_latency_benchmark.Prelude.{◌≡◌, refl, true, false, none, arith, value_or, if◌then◌else◌}
use perps_latency_benchmark.Data.{Sample, SummaryRow}
use perps_latency_benchmark.Numbers.{Numbers, nought, positive_at}
use perps_latency_benchmark.Latency.{
  is_extended, is_extended_taker, is_extended_non_taker, summary_speed_bump_ms,
  effective_speed_bump_ns, adjusted_network_ns, raw_network_ns,
}

module _ {N : Type 0} ⦃n : Numbers N⦄ where
  -- The speed bump of a row is shown exactly where it is positive and the venue is not `extended`, in
  -- whatever case it is spelled and whatever the order type is.
  pub summary_speed_bump_ms_lem :
      (row : SummaryRow N)
      → summary_speed_bump_ms row ≡ (
          if is_extended row.venue
          then none
          else if positive_at row.speed_bump_ms
          then row.speed_bump_ms
          else none)
  unfolding summary_speed_bump_ms is_extended_taker is_extended_non_taker
  summary_speed_bump_ms_lem row = ground arith

  -- So with samples: the speed bump that is taken off is the sample's where it is positive and the
  -- venue is not `extended`, else 0.
  pub effective_speed_bump_ns_lem :
      (s : Sample N)
      → effective_speed_bump_ns s ≡ (
          if is_extended s.venue
          then nought
          else if positive_at s.speed_bump_ns
          then value_or s.speed_bump_ns nought
          else nought)
  unfolding effective_speed_bump_ns is_extended_taker is_extended_non_taker
  effective_speed_bump_ns_lem s = ground arith

  -- A sample of `extended` with a recorded speed bump is shown with its raw latency, whatever adjusted
  -- latency was recorded.
  pub adjusted_network_ns-extended :
      (s : Sample N)
      → is_extended s.venue ≡ true
      → n.same nought (value_or s.speed_bump_ns nought) ≡ false
      → adjusted_network_ns s ≡ n.max_of (n.sub (raw_network_ns s) nought) nought
  unfolding adjusted_network_ns
  adjusted_network_ns-extended s e h = rw (effective_speed_bump_ns_lem, e, h) refl
