-- ===== src/Latency/Bounds.antt =====
-- The range of the latencies of samples (frontend/src/lib/latency-metric.ts).
use perps_latency_benchmark.Prelude.{
  ◌&&◌, ◌⊎◌, ◌≡◌, refl, Bool, true, false, Option, none, some, arith, Bool-cases, inl, inr,
  if◌then◌else◌,
}
use perps_latency_benchmark.Data.{Sample}
use perps_latency_benchmark.Numbers.{Numbers, IsOrdered, nought, positive, negative, positive_at}
use perps_latency_benchmark.Latency.{
  cleanup_duration, is_account_feed_cancel_cleanup, value_or, shown_cancel, effective_speed_bump_ns,
  off_floor, raw_network_ns, ns_to_ms, subtract_network_floor_ns, after_floor, positive_or,
  adjusted_network_ns, confirm_sample_ms, cancel_ns, cancel_sample_ms,
}

module _ {N : Type 0} ⦃n : Numbers N⦄ (laws : IsOrdered N) where
  open laws use {lt_asymm, max-nonneg, div-nonneg, div_mono, sub-le}

  if-nonneg :
      (b : Bool) (x y : N)
      → negative x ≡ false
      → negative y ≡ false
      → negative (if b then x else y) ≡ false
  if-nonneg true x y h k = h
  if-nonneg false x y h k = k

  positive_or-nonneg :
      (o : Option N) (x : N) → negative x ≡ false → negative (positive_or o x) ≡ false
  positive_or-nonneg none x h = h
  positive_or-nonneg (some y) x h = elim (Bool-cases (positive y)) [
    | inl p ↦ rw p (lt_asymm nought y p)
    | inr p ↦ rw p h
  ]

  adjusted_network_ns-nonneg : (s : Sample N) → negative (adjusted_network_ns s) ≡ false
  unfolding adjusted_network_ns
  adjusted_network_ns-nonneg s =
      let adjusted = n.max_of (n.sub (raw_network_ns s) (effective_speed_bump_ns s)) nought in
      let low = max-nonneg (n.sub (raw_network_ns s) (effective_speed_bump_ns s)) in
      if-nonneg (n.same (effective_speed_bump_ns s) (value_or s.speed_bump_ns nought))
        (positive_or s.adjusted_network_ns adjusted) adjusted
        (positive_or-nonneg s.adjusted_network_ns adjusted low) low

  off_floor-nonneg : (x : N) (o : Option N) → negative x ≡ false → negative (off_floor x o) ≡ false
  off_floor-nonneg x none h = h
  off_floor-nonneg x (some f) h =
      if-nonneg (positive f) (n.max_of (n.sub x f) nought) x (max-nonneg (n.sub x f)) h

  after_floor-nonneg :
      (b : Bool) (x : N) (s : Sample N) → negative x ≡ false → negative (after_floor b x s) ≡ false
  unfolding subtract_network_floor_ns
  after_floor-nonneg true x s h = off_floor-nonneg x s.network_floor_ns h
  after_floor-nonneg false x s h = h

  -- The confirmation latency that is shown of a sample is never negative, whatever is missing from the
  -- sample and whether or not the network floor is taken off.
  pub confirm_sample_ms-nonneg :
      (s : Sample N) (subtract : Bool) → negative (confirm_sample_ms s subtract) ≡ false
  unfolding confirm_sample_ms ns_to_ms
  confirm_sample_ms-nonneg s subtract = div-nonneg _ 1_000_000 (
      after_floor-nonneg subtract _ s
        (positive_or-nonneg s.confirm_ns (adjusted_network_ns s) (adjusted_network_ns-nonneg s)))

  lt_irrefl : (x : N) → n.lt x x ≡ false
  lt_irrefl x = elim (Bool-cases (n.lt x x)) [ inl h ↦ cc (lt_asymm x x h) | inr h ↦ h ]

  off_floor-le : (x : N) (o : Option N) → negative x ≡ false → n.lt x (off_floor x o) ≡ false
  off_floor-le x none h = lt_irrefl x
  off_floor-le x (some f) h = elim (Bool-cases (positive f)) [
    | inl p ↦ rw p (sub-le x f h p)
    | inr p ↦ rw p (lt_irrefl x)
  ]

  -- Taking the network floor off never makes the confirmation latency of a sample larger.
  pub confirm_sample_ms-floor_le :
      (s : Sample N) → n.lt (confirm_sample_ms s false) (confirm_sample_ms s true) ≡ false
  unfolding confirm_sample_ms ns_to_ms subtract_network_floor_ns
  confirm_sample_ms-floor_le s = div_mono _ _ 1_000_000 (
      off_floor-le _ s.network_floor_ns
        (positive_or-nonneg s.confirm_ns (adjusted_network_ns s) (adjusted_network_ns-nonneg s)))

  pick-positive :
      (a c : Bool) (o p : Option N) (x : N)
      → (if a && positive_at o then o else if c && positive_at p then p else none) ≡ some x
      → positive x ≡ true
  pick-positive a c none none x h = ground arith
  pick-positive a c none (some q) x h = ground arith
  pick-positive a c (some o) none x h = ground arith
  pick-positive a c (some o) (some q) x h = ground arith

  cancel_ns-positive : (s : Sample N) (x : N) → cancel_ns s ≡ some x → positive x ≡ true
  cancel_ns-positive s x h =
      pick-positive (value_or s.cleanup_account_feed false) (is_account_feed_cancel_cleanup s)
        s.cleanup_confirm_ns (cleanup_duration s.cleanup) x h

  -- The cancellation latency of a sample, where one is shown, is never negative, and taking the
  -- network floor off never makes it larger or has it shown or hidden.
  cancel_sample_ms-bounds :
      (s : Sample N)
      → ((cancel_sample_ms s false ≡ none) × (cancel_sample_ms s true ≡ none))
        ⊎ ((x : N) × (y : N) × (cancel_sample_ms s false ≡ some x)
            × (cancel_sample_ms s true ≡ some y)
            × (negative x ≡ false)
            × (negative y ≡ false)
            × (n.lt x y ≡ false))
  unfolding cancel_sample_ms ns_to_ms subtract_network_floor_ns
  cancel_sample_ms-bounds s = go (cancel_ns s) refl
    where
      go :
          (o : Option N)
          → cancel_ns s ≡ o
          → ((shown_cancel o s false ≡ none) × (shown_cancel o s true ≡ none))
            ⊎ ((x : N) × (y : N) × (shown_cancel o s false ≡ some x)
                × (shown_cancel o s true ≡ some y)
                × (negative x ≡ false)
                × (negative y ≡ false)
                × (n.lt x y ≡ false))
      go none e = inl (refl, refl)
      go (some ns) e =
          let h = lt_asymm nought ns (cancel_ns-positive s ns e) in
          inr (
            _,
            _,
            refl,
            refl,
            div-nonneg ns 1_000_000 h,
            div-nonneg _ 1_000_000 (off_floor-nonneg ns s.network_floor_ns h),
            div_mono _ _ 1_000_000 (off_floor-le ns s.network_floor_ns h),
          )
