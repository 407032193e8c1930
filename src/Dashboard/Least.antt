-- ===== src/Dashboard/Least.antt =====
-- The figures on top of the page are of the fastest venues (minBy and getStats of
-- frontend/src/components/dashboard/dashboard-page.tsx).
use perps_latency_benchmark.Data.{SummaryRow}
use perps_latency_benchmark.Latency.{confirm_p50, confirm_p95}
use perps_latency_benchmark.TakerCost.{is_taker_order}
use perps_latency_benchmark.Dashboard.{is_post_only_order}
use perps_latency_benchmark.Prelude.{
  keep-keep, ◌≡◌, refl, sym, subst, ◌⊎◌, inl, inr, Bool, true, false, ◌&&◌, Option, none, some,
  List, [], ◌∷◌, arith, keep, All, Bool-cases,
}
use mathlib.Core.Logic.Or
use mathlib.Core.List.{Mem, mem-cons, not-mem-nil, mem-cons_self, mem-cons_of_mem}
use perps_latency_benchmark.Numbers.{Numbers, IsOrdered}
use perps_latency_benchmark.Dashboard.Stats.{
  min_by, min_from, item_of, IsLeast, is_better, is_rankable_summary_row, get_stats,
}

module _ {N : Type 0} ⦃n : Numbers N⦄ (ordered : IsOrdered N) {T : Type 0} (score : T → N) where
  -- What is left of the best one so far, `b`, after more items.
  record Ends (b : T) (items : List T) (r : Option (T × N)) : Type 0 where
    best : T
    taken : r ≡ some (best, score best)
    finite : n.is_finite (score best) ≡ true
    from : (best ≡ b) ⊎ (Mem best items × (n.lt (score best) (score b) ≡ true))
    least :
        All (λ item. n.is_finite (score item) ≡ true → n.lt (score item) (score best) ≡ false) items

  not_lt_self : (x : N) → n.lt x x ≡ false
  not_lt_self x = ground (arith, ordered.lt_asymm x x)

  -- An item that is not better than `b` is not better than what is left.
  Ends-not_better :
      (b item best : T) (items : List T)
      → (best ≡ b) ⊎ (Mem best items × (n.lt (score best) (score b) ≡ true))
      → n.lt (score item) (score b) ≡ false
      → n.lt (score item) (score best) ≡ false
  Ends-not_better b item best items (inl e) h =
      subst (λ x. n.lt (score item) (score x) ≡ false) (sym e) h
  Ends-not_better b item best items (inr (m, e)) h =
      ground (arith, ordered.lt_trans (score item) (score best) (score b), e, h)

  passed-Ends :
      (b item : T) (items : List T) (r : Option (T × N))
      → (n.is_finite (score item) ≡ true → n.lt (score item) (score b) ≡ false)
      → Ends b items r
      → Ends b (item ∷ items) r
  passed-Ends b item items r h k = record {
    best = k.best;
    taken = k.taken;
    finite = k.finite;
    from = elim k.from [ inl e ↦ inl e | inr (m, e) ↦ inr (mem-cons_of_mem item m, e) ];
    least = (λ f. Ends-not_better b item k.best items k.from (h f), k.least);
  }

  taken-Ends :
      (b item : T) (items : List T) (r : Option (T × N))
      → n.lt (score item) (score b) ≡ true
      → Ends item items r
      → Ends b (item ∷ items) r
  taken-Ends b item items r h k = record {
    best = k.best;
    taken = k.taken;
    finite = k.finite;
    from = inr (elim k.from [
      | inl e ↦ (
        subst (λ x. Mem x (item ∷ items)) (sym e) mem-cons_self,
        subst (λ x. n.lt (score x) (score b) ≡ true) (sym e) h,
      )
      | inr (m, e) ↦
          (mem-cons_of_mem item m, ordered.lt_trans (score k.best) (score item) (score b) e h)
    ]);
    least =
        (λ f. Ends-not_better item item k.best items k.from (not_lt_self (score item)), k.least);
  }

  min_from-Ends :
      (b : T) (items : List T)
      → n.is_finite (score b) ≡ true
      → Ends b items (min_from score (some (b, score b)) items)
  min_from-Ends b [] h = record { best = b; taken = refl; finite = h; from = inl refl; least = tt }
  min_from-Ends b (item ∷ items) h =
      elim (Bool-cases (is_better score (some (b, score b)) (score item))) [
        | inl e ↦ rw e (
            taken-Ends b item items _ (ground (arith, e))
              (min_from-Ends item items (ground (arith, e))))
        | inr e ↦
            rw e (passed-Ends b item items _ (λ f. ground (arith, e, f)) (min_from-Ends b items h))
      ]

  Ends-IsLeast :
      (b : T) (items : List T) (r : Option (T × N))
      → Ends b items r
      → IsLeast score (b ∷ items) (item_of r)
  Ends-IsLeast b items r k =
      subst (λ x. IsLeast score (b ∷ items) (item_of x)) (sym k.taken)
        (
          elim k.from [
            | inl e ↦ subst (λ x. Mem x (b ∷ items)) (sym e) mem-cons_self
            | inr (m, e) ↦ mem-cons_of_mem b m
          ],
          k.finite,
          (λ f. Ends-not_better b b k.best items k.from (not_lt_self (score b)), k.least),
        )

  -- An item whose score is not finite changes nothing.
  IsLeast-skip :
      (item : T) (items : List T) (r : Option T)
      → n.is_finite (score item) ≡ false
      → IsLeast score items r
      → IsLeast score (item ∷ items) r
  IsLeast-skip item items none h k = (h, k)
  IsLeast-skip item items (some best) h (m, f, k) = (mem-cons_of_mem item m, f, (λ e. cc (e, h), k))

  min_by-IsLeast : (items : List T) → IsLeast score items (min_by score items)
  unfolding min_by
  min_by-IsLeast [] = tt
  min_by-IsLeast (item ∷ items) = elim (Bool-cases (n.is_finite (score item))) [
    | inl e ↦ rw e (Ends-IsLeast item items _ (min_from-Ends item items e))
    | inr e ↦ rw e (IsLeast-skip item items _ e (min_by-IsLeast items))
  ]

All-keep_inv {ℓ} :
    {A : Type ℓ} (P : A → Type 0) (p : A → Bool) (xs : List A)
    → All P (keep p xs)
    → All (λ x. p x ≡ true → P x) xs
All-keep_inv P p [] h = tt
All-keep_inv P p (x ∷ xs) h = elim (Bool-cases (p x)) [
  | inl e ↦ let (k, ks) = rw e at h in (λ _. k, All-keep_inv P p xs ks)
  | inr e ↦ (λ f. absurd (cc (e, f)), All-keep_inv P p xs (rw e at h))
]

mem-keep {ℓ} :
    {A : Type ℓ} (p : A → Bool) (x : A) (xs : List A) → Mem x (keep p xs) → Mem x xs × (p x ≡ true)
mem-keep p x [] h = absurd (not-mem-nil h)
mem-keep p x (y ∷ xs) h = elim (Bool-cases (p y)) [
  | inl e ↦
      Or.elim (hlevel) (mem-cons.0 (rw e at h)) (λ q. (rw q mem-cons_self, rw q e))
        (λ m. let (k, l) = mem-keep p x xs m in (mem-cons_of_mem y k, l))
  | inr e ↦ let (k, l) = mem-keep p x xs (rw e at h) in (mem-cons_of_mem y k, l)
]

module _ {N : Type 0} ⦃n : Numbers N⦄ where
  -- A row with the fastest finite latency of those chosen, or none of these has a finite one.
  abbrev pub IsFastest :
      (SummaryRow N → N)
      → (SummaryRow N → Bool)
      → List (SummaryRow N)
      → Option (SummaryRow N)
      → Type 0
  IsFastest latency chosen rows none =
      All (λ row. chosen row ≡ true → n.is_finite (latency row) ≡ false) rows
  IsFastest latency chosen rows (some best) =
      (Mem best rows × (chosen best ≡ true))
      × (n.is_finite (latency best) ≡ true)
      × All
          (λ row.
            chosen row ≡ true
            → n.is_finite (latency row) ≡ true
            → n.lt (latency row) (latency best) ≡ false)
          rows

  IsLeast-IsFastest :
      (latency : SummaryRow N → N) (chosen : SummaryRow N → Bool) (rows : List (SummaryRow N))
      (o : Option (SummaryRow N))
      → IsLeast latency (keep chosen rows) o
      → IsFastest latency chosen rows o
  IsLeast-IsFastest latency chosen rows none h = All-keep_inv _ chosen rows h
  IsLeast-IsFastest latency chosen rows (some best) (m, f, k) =
      (mem-keep chosen best rows m, f, All-keep_inv _ chosen rows k)

  -- The rows that one of the two figures chooses from.
  abbrev pub ranked_post_only : SummaryRow N → Bool
  ranked_post_only row = is_rankable_summary_row row && is_post_only_order (some row.order_type)

  abbrev pub ranked_taker : SummaryRow N → Bool
  ranked_taker row = is_rankable_summary_row row && is_taker_order (some row.order_type)

  -- With an order of the numbers, of the rows with successes and a positive p50 the two figures are a
  -- post-only one such that none of these has a p95 below its own, and a taker one such that none of these
  -- has a p50 below its own; a figure is missing only where none of its rows has a finite one.
  pub get_stats-AreFastest :
      (ordered : IsOrdered N) (rows : List (SummaryRow N)) (floor : Bool)
      → IsFastest
          (λ row. confirm_p95 row floor)
          ranked_post_only
          rows
          (get_stats rows floor).fastest_post_only_p95
        × IsFastest
            (λ row. confirm_p50 row floor)
            ranked_taker
            rows
            (get_stats rows floor).fastest_taker_p50
  unfolding get_stats
  get_stats-AreFastest ordered rows floor = (
    rw
        (keep-keep is_rankable_summary_row
          (λ (row : SummaryRow N). is_post_only_order (some row.order_type)) rows)
        (IsLeast-IsFastest _ ranked_post_only rows _ (min_by-IsLeast ordered _ _)),
    rw
        (keep-keep is_rankable_summary_row
          (λ (row : SummaryRow N). is_taker_order (some row.order_type)) rows)
        (IsLeast-IsFastest _ ranked_taker rows _ (min_by-IsLeast ordered _ _)),
  )
