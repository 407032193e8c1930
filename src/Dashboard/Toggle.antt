-- ===== src/Dashboard/Toggle.antt =====
-- What a click on a venue selects (ExchangeSelector of
-- frontend/src/components/charts/latency-timeseries-chart.tsx and selectedVenueList of
-- frontend/src/components/dashboard/dashboard-page.tsx).
use perps_latency_benchmark.Prelude.{
  All-keep_of, suc, ◌≤◌, ◌≡◌, refl, sym, ◌∙◌, subst, inl, inr, Bool, true, false, not, ◌&&◌, ◌||◌,
  List, [], ◌∷◌, ◌++◌, arith, length, keep, All, All-append, Text, ◌===◌, ===_iff, ===_refl,
  includes_text, ◌==◌, Bool-cases, if◌then◌else◌,
}
use perps_latency_benchmark.Chart.Controls.{toggle_venue, toggled, without}
use perps_latency_benchmark.Dashboard.{VenueFilter, all, only, selected_venue_list}

-- No text stands in the list twice.
abbrev pub AreDistinct : List Text → Type 0
AreDistinct [] = Unit
AreDistinct (x ∷ xs) = (includes_text xs x ≡ false) × AreDistinct xs

===_sym : (s t : Text) → (s === t) ≡ (t === s)
===_sym s t = ground (arith, ===_iff s t, ===_iff t s)

includes-keep :
    (p : Text → Bool) (xs : List Text) (w : Text)
    → includes_text (keep p xs) w ≡ (includes_text xs w && p w)
unfolding includes_text
includes-keep p [] w = refl
includes-keep p (x ∷ xs) w = elim (Bool-cases (x === w)) [
  | inl e ↦
      subst (λ y. includes_text (keep p (x ∷ xs)) y ≡ (includes_text (x ∷ xs) y && p y))
        ((===_iff x w).0 e) (ground (arith, ===_refl x, includes-keep p xs x))
  | inr e ↦ ground (arith, e, includes-keep p xs w)
]

includes-append_one :
    (xs : List Text) (v w : Text)
    → includes_text (xs ++ (v ∷ [])) w ≡ (includes_text xs w || (v === w))
unfolding includes_text
includes-append_one [] v w = ground arith
includes-append_one (x ∷ xs) v w = ground (arith, includes-append_one xs v w)

keep-AreDistinct : (p : Text → Bool) (xs : List Text) → AreDistinct xs → AreDistinct (keep p xs)
keep-AreDistinct p [] h = tt
keep-AreDistinct p (x ∷ xs) (h, hs) =
    ground (arith, h, includes-keep p xs x, keep-AreDistinct p xs hs)

append_one-AreDistinct :
    (xs : List Text) (v : Text)
    → AreDistinct xs
    → includes_text xs v ≡ false
    → AreDistinct (xs ++ (v ∷ []))
unfolding includes_text
append_one-AreDistinct [] v h k = (refl, tt)
append_one-AreDistinct (x ∷ xs) v (h, hs) k = (
  ground (arith, h, k, includes-append_one xs v x, ===_sym x v),
  append_one-AreDistinct xs v hs (ground (arith, k)),
)

length-without_le : (v : Text) (xs : List Text) → length (without v xs) ≤ length xs
length-without_le v [] = omega arith
length-without_le v (x ∷ xs) = ground (arith, length-without_le v xs)

length-without :
    (v : Text) (xs : List Text)
    → includes_text xs v ≡ true
    → suc (length (without v xs)) ≤ length xs
unfolding includes_text
length-without v [] h = absurd (cc h)
length-without v (x ∷ xs) h = ground (arith, h, length-without_le v xs, length-without v xs)

-- Distinct texts of a list that is no longer than they are make up all of it.
includes-of_length :
    (xs ys : List Text)
    → AreDistinct xs
    → All (λ x. includes_text ys x ≡ true) xs
    → length ys ≤ length xs
    → (w : Text) → includes_text ys w ≡ true
    → includes_text xs w ≡ true
unfolding includes_text
includes-of_length [] [] d h k w m = m
includes-of_length [] (y ∷ ys) d h k w m = absurd (ground (arith, k))
includes-of_length (x ∷ xs) ys (d, ds) (h, hs) k w m = elim (Bool-cases (x === w)) [
  | inl e ↦ ground (arith, e)
  | inr e ↦
      let rest =
        includes-of_length xs (without x ys) ds (others xs d hs)
          (omega (arith, length-without x ys h, k)) w
          (ground (arith, includes-keep (λ item. not (item === x)) ys w, m, e, ===_sym x w)) in
      ground (arith, e, rest)
]
  where
    others :
        (zs : List Text)
        → includes_text zs x ≡ false
        → All (λ z. includes_text ys z ≡ true) zs
        → All (λ z. includes_text (without x ys) z ≡ true) zs
    others [] f g = tt
    others (z ∷ zs) f (g, gs) = (
      ground (arith, includes-keep (λ item. not (item === x)) ys z, g, f),
      others zs (ground (arith, f)) gs,
    )

-- The selection is a set.
abbrev pub IsSelection : VenueFilter → Type 0
IsSelection all = Unit
IsSelection (only venues) = AreDistinct venues

All-included : (p : Text → Bool) (xs : List Text) → All (λ x. p x ≡ true) (keep p xs)
All-included p [] = tt
All-included p (x ∷ xs) = ground (arith, All-included p xs)

All-included_self :
    (P : Text → Type 0) (xs : List Text) → ((w : Text) → includes_text xs w ≡ true → P w) → All P xs
unfolding includes_text
All-included_self P [] h = tt
All-included_self P (x ∷ xs) h =
    (h x (ground (arith, ===_refl x)), All-included_self P xs (λ w m. h w (ground (arith, m))))

-- What a chart shows of the selection is a set of its venues.
selected_venue_list-AreDistinct :
    (filter : VenueFilter) (venues : List Text)
    → IsSelection filter
    → AreDistinct venues
    → AreDistinct (selected_venue_list filter venues)
unfolding selected_venue_list
selected_venue_list-AreDistinct all venues h k = k
selected_venue_list-AreDistinct (only chosen) venues h k =
    keep-AreDistinct (includes_text venues) chosen h

selected_venue_list-All :
    (filter : VenueFilter) (venues : List Text)
    → All (λ x. includes_text venues x ≡ true) (selected_venue_list filter venues)
unfolding selected_venue_list
selected_venue_list-All all venues =
    All-included_self (λ x. includes_text venues x ≡ true) venues (λ w m. m)
selected_venue_list-All (only chosen) venues = All-included (includes_text venues) chosen

toggled-includes :
    (selected : List Text) (venue w : Text)
    → includes_text (toggled selected venue) w
      ≡ (if w === venue then not (includes_text selected w) else includes_text selected w)
toggled-includes selected venue w = elim (Bool-cases (w === venue)) [
  | inl e ↦
      let f = (===_iff w venue).0 e in
      subst
        (λ v.
          includes_text (toggled selected v) w
          ≡ (if w === v then not (includes_text selected w) else includes_text selected w))
        f
        (ground (
          arith,
          includes-keep (λ item. not (item === w)) selected w,
          includes-append_one selected w w,
          ===_refl w,
        ))
  | inr e ↦ ground (
    arith,
    e,
    includes-keep (λ item. not (item === venue)) selected w,
    includes-append_one selected venue w,
    ===_sym w venue,
  )
]

toggled-AreDistinct :
    (selected : List Text) (venue : Text)
    → AreDistinct selected
    → AreDistinct (toggled selected venue)
toggled-AreDistinct selected venue h = elim (Bool-cases (includes_text selected venue)) [
  | inl e ↦ rw e (keep-AreDistinct (λ item. not (item === venue)) selected h)
  | inr e ↦ rw e (append_one-AreDistinct selected venue h e)
]

toggled-All :
    (p : Text → Bool) (selected : List Text) (venue : Text)
    → p venue ≡ true
    → All (λ x. p x ≡ true) selected
    → All (λ x. p x ≡ true) (toggled selected venue)
toggled-All p selected venue h k = elim (Bool-cases (includes_text selected venue)) [
  | inl e ↦ rw e (All-keep_of (λ x. p x ≡ true) (λ item. not (item === venue)) selected k)
  | inr e ↦ rw e (All-append (λ x. p x ≡ true) selected (venue ∷ []) k (h, tt))
]

-- Of the venues of a chart, a click on one of them selects it if it was not selected and else takes it
-- out, and leaves the others as they were, where no venue stands twice in the list of the chart or in the
-- selection; and none does in the new selection.
pub toggle_venue-selected :
    (filter : VenueFilter) (venues : List Text) (venue : Text)
    → AreDistinct venues
    → IsSelection filter
    → includes_text venues venue ≡ true
    → let selected = selected_venue_list filter venues in
      let next = toggle_venue selected venues venue in
      IsSelection next
      × All
          (λ w.
            includes_text (selected_venue_list next venues) w
            ≡ (if w === venue then not (includes_text selected w) else includes_text selected w))
          venues
unfolding toggle_venue selected_venue_list
toggle_venue-selected filter venues venue d s m =
    let selected = selected_venue_list filter venues in
    let next = toggled selected venue in
    let distinct =
      toggled-AreDistinct selected venue (selected_venue_list-AreDistinct filter venues s d) in
    elim (Bool-cases (length next == length venues)) [
      | inl e ↦ rw e (
        tt,
        All-included_self _ venues λ w k.
            k
            ∙ sym (
                includes-of_length next venues distinct
                  (toggled-All (includes_text venues) selected venue m
                    (selected_venue_list-All filter venues))
                  (ground (arith, e)) w k)
            ∙ toggled-includes selected venue w,
      )
      | inr e ↦ rw e (
        distinct,
        All-included_self _ venues λ w k. ground (
          arith,
          includes-keep (includes_text venues) next w,
          k,
          toggled-includes selected venue w,
        ),
      )
    ]
