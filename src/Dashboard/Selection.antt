-- ===== src/Dashboard/Selection.antt =====
-- Which samples the charts of the page show (frontend/src/components/dashboard/dashboard-page.tsx).
use perps_latency_benchmark.Prelude.{
  All-keep, keep-keep, ◌≡◌, refl, inl, inr, Bool, true, false, not, ◌&&◌, Option, none, some, List,
  [], ◌∷◌, ◌++◌, arith, keep, All, All-imp, Text, txt, ◌===◌, ===_iff, Bool-cases,
}
use mathlib.Core.List.{Perm, perm_middle}
use mathlib.Core.List.Perm
use perps_latency_benchmark.Prelude.{to_lower, includes_text, ===_iff}
use perps_latency_benchmark.Data.{Sample}
use perps_latency_benchmark.TakerCost.{is_taker_order}
use perps_latency_benchmark.Dashboard.{
  Dashboard, post_only_samples, batch_post_only_samples, taker_samples, is_visible_venue,
  matches_venue, is_post_only_order, is_batch, post_only_source_samples,
  batch_post_only_source_samples, taker_source_samples,
}

keep-ext {ℓ} :
    {A : Type ℓ} (p q : A → Bool) (xs : List A) → ((x : A) → p x ≡ q x) → keep p xs ≡ keep q xs
keep-ext p q [] h = refl
keep-ext p q (x ∷ xs) h = ground (arith, h x, keep-ext p q xs h)

-- What passes a test, with the others first and then those that pass a second one.
keep-partition {ℓ} :
    {A : Type ℓ} (p q : A → Bool) (xs : List A)
    → Perm (keep (λ x. p x && not (q x)) xs ++ keep (λ x. p x && q x) xs) (keep p xs)
keep-partition p q [] = Perm.refl []
keep-partition p q (x ∷ xs) = elim (Bool-cases (p x)) [
  | inr e ↦ rw e (keep-partition p q xs)
  | inl e ↦ elim (Bool-cases (q x)) [
    | inr f ↦ rw (e, f) (Perm.cons x (keep-partition p q xs))
    | inl f ↦ rw (e, f) (Perm.trans (perm_middle _ _) (Perm.cons x (keep-partition p q xs)))
  ]
]

and_swap : (a b c : Bool) → (a && (b && c)) ≡ ((a && c) && b)
and_swap a b c = ground arith

taker-of_post_only :
    (t : Text)
    → t ≡ txt "post_only"
    → includes_text
        (txt "market" ∷ txt "ioc" ∷ txt "immediate_or_cancel" ∷ txt "fok" ∷ txt "fill_or_kill" ∷ [])
        t
      ≡ false
unfolding includes_text ◌===◌
taker-of_post_only t h = rw h refl

is_taker_order-not_post_only :
    (value : Option Text) → is_taker_order value ≡ true → is_post_only_order value ≡ false
unfolding is_taker_order is_post_only_order
is_taker_order-not_post_only none h = refl
is_taker_order-not_post_only (some []) h = refl
is_taker_order-not_post_only (some (c ∷ v)) h =
    ground (
      arith,
      h,
      taker-of_post_only (to_lower (c ∷ v)),
      ===_iff (to_lower (c ∷ v)) (txt "post_only"),
    )

module _ {N : Type 0} (d : Dashboard) where
  abbrev pub is_shown : Sample N → Bool
  is_shown s = is_visible_venue s.venue && matches_venue d.filters.venues s.venue

  post_only_samples-keep :
      (measurements : List (Sample N))
      → post_only_samples d measurements
        ≡ keep
            (λ (s : Sample N). (is_shown s && is_post_only_order s.order_type) && not (is_batch s))
            measurements
  unfolding post_only_samples post_only_source_samples
  post_only_samples-keep measurements =
      rw (keep-keep, keep-keep) (keep-ext _ _ measurements λ s. ground arith)

  batch_post_only_samples-keep :
      (measurements : List (Sample N))
      → batch_post_only_samples d measurements
        ≡ keep
            (λ (s : Sample N). (is_shown s && is_post_only_order s.order_type) && is_batch s)
            measurements
  unfolding batch_post_only_samples batch_post_only_source_samples
  batch_post_only_samples-keep measurements =
      rw (keep-keep, keep-keep) (keep-ext _ _ measurements λ s. ground arith)

  taker_samples-keep :
      (measurements : List (Sample N))
      → taker_samples d measurements
        ≡ keep (λ (s : Sample N). is_shown s && is_taker_order s.order_type) measurements
  unfolding taker_samples taker_source_samples
  taker_samples-keep measurements =
      rw (keep-keep, keep-keep)
        (keep-ext _ _ measurements λ s.
          and_swap (is_visible_venue s.venue) (is_taker_order s.order_type)
            (matches_venue d.filters.venues s.venue))

  -- Of the visible samples of selected venues, those of post-only orders stand in one of the two
  -- post-only charts each, and those of taker orders in the chart of these, in their order, none of
  -- which is post-only.
  pub charts-partition :
      (measurements : List (Sample N))
      → Perm
          (post_only_samples d measurements ++ batch_post_only_samples d measurements)
          (keep (λ (s : Sample N). is_shown s && is_post_only_order s.order_type) measurements)
        × (taker_samples d measurements
            ≡ keep (λ (s : Sample N). is_shown s && is_taker_order s.order_type) measurements)
        × All
            (λ (s : Sample N). is_post_only_order s.order_type ≡ false)
            (taker_samples d measurements)
  charts-partition measurements =
      let taker = λ (s : Sample N). is_shown s && is_taker_order s.order_type in
      (
        rw (post_only_samples-keep measurements, batch_post_only_samples-keep measurements)
            (keep-partition (λ (s : Sample N). is_shown s && is_post_only_order s.order_type)
              is_batch measurements),
        taker_samples-keep measurements,
        rw (taker_samples-keep measurements) (
            All-imp (λ (s : Sample N). taker s ≡ true)
              (λ (s : Sample N). is_post_only_order s.order_type ≡ false) (keep taker measurements)
              (λ s h. is_taker_order-not_post_only s.order_type (ground (arith, h)))
              (All-keep taker measurements)),
      )
