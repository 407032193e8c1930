-- ===== src/Proxy/Shape/Visible.antt =====
-- No row of a hidden venue is passed on (frontend/src/api/bench.server.ts).
use perps_latency_benchmark.Proxy.Shape.Compact.{venue-compact_sample}
use perps_latency_benchmark.Prelude.{
  map, ◌⊎◌, ◌≡◌, refl, true, false, Option, none, some, List, [], ◌∷◌, ◌++◌, Text, txt, starts_with,
  includes_text, arith, All, All-keep, Bool-cases, inl, inr, starts_with-split,
}
use perps_latency_benchmark.Json.{
  Json, Items, arr, obj, items, get, lookup-put_self, items-of_items,
}
use perps_latency_benchmark.Proxy.Shape.{
  compact_if, compact_rows, compact_sample, with_visible, is_samples_path, is_visible_venue_row,
  visible_rows, array_at, array_of, with_array, filter_bench_json, filter_latest, shape_bench_json,
}

-- Every row under `key` is one that may be shown.
abbrev pub IsShown : List Text → Text → Json → Type 0
IsShown hidden key v =
    (rows : Items)
    → array_at key v ≡ some rows
    → All (λ row. is_visible_venue_row hidden row ≡ true) (items rows)

pub visible_rows-All :
    (hidden : List Text) (rows : Items)
    → All (λ row. is_visible_venue_row hidden row ≡ true) (items (visible_rows hidden rows))
visible_rows-All hidden rows =
    rw items-of_items (All-keep (is_visible_venue_row hidden) (items rows))

-- With nothing hidden every row may be shown.
visible_of_empty : (row : Json) → is_visible_venue_row [] row ≡ true
unfolding is_visible_venue_row includes_text
visible_of_empty row = ground arith

All-visible_of_empty : (rows : List Json) → All (λ row. is_visible_venue_row [] row ≡ true) rows
All-visible_of_empty [] = tt
All-visible_of_empty (row ∷ rows) = (visible_of_empty row, All-visible_of_empty rows)

with_array-IsShown :
    (hidden : List Text) (key : Text) (v : Json) (rows : Items)
    → IsShown hidden key (with_array key v (visible_rows hidden rows))
unfolding get
with_array-IsShown hidden key v rows shown e =
    let same : array_of (some (arr (visible_rows hidden rows))) ≡ some shown =
      rw lookup-put_self at e in
    let rows_eq : visible_rows hidden rows ≡ shown = cc in
    rw (← rows_eq) (visible_rows-All hidden rows)

with_visible-IsShown :
    (hidden : List Text) (key : Text) (v other : Json)
    → IsShown hidden key (with_visible key hidden v (array_at key v) other)
      ⊎ ((array_at key v ≡ none) × (with_visible key hidden v (array_at key v) other ≡ other))
with_visible-IsShown hidden key v other = go (array_at key v)
  where
    go :
        (o : Option Items)
        → IsShown hidden key (with_visible key hidden v o other)
          ⊎ ((o ≡ none) × (with_visible key hidden v o other ≡ other))
    go (some rows) = inl (with_array-IsShown hidden key v rows)
    go none = inr (refl, refl)

-- Filtering `data.key` leaves no hidden row there, and nothing where it is no array.
with_visible_same-IsShown :
    (hidden : List Text) (key : Text) (v : Json)
    → IsShown hidden key (with_visible key hidden v (array_at key v) v)
with_visible_same-IsShown hidden key v = elim (with_visible-IsShown hidden key v v) [
  | inl shown ↦ shown
  | inr (missing, same) ↦ rw same (λ rows h. cc)
]

-- Nothing is filtered where nothing is hidden, or where the answer is no record and has no rows.
pub filter_bench_json-IsShown :
    (hidden : List Text) (key path : Text) (v : Json)
    → IsShown hidden key (filter_latest hidden path v)
    → IsShown hidden key (filter_bench_json hidden path v)
unfolding filter_bench_json get
filter_bench_json-IsShown [] key path v h = λ rows e. All-visible_of_empty (items rows)
filter_bench_json-IsShown (x ∷ hidden) key path (arr vs) h = h
filter_bench_json-IsShown (x ∷ hidden) key path (obj fs) h = h
filter_bench_json-IsShown (x ∷ hidden) key path _ h = λ rows e. cc

abbrev IsOther : Text → Type 0
IsOther path =
    (starts_with (txt "/api/latest?") path ≡ false)
    × (starts_with (txt "/api/exchange-tps?") path ≡ false)

IsOther-of_prefix :
    (prefix path : Text)
    → starts_with prefix path ≡ true
    → ((rest : Text) → IsOther (prefix ++ rest))
    → IsOther path
IsOther-of_prefix prefix path h k = let (rest, e) = starts_with-split prefix path h in rw e (k rest)

-- A path of samples is no path of summaries or of throughput.
is_samples_path-IsOther : (path : Text) → is_samples_path path ≡ true → IsOther path
unfolding is_samples_path
is_samples_path-IsOther path h = elim (Bool-cases (starts_with (txt "/api/samples?") path)) [
  | inl a ↦ IsOther-of_prefix (txt "/api/samples?") path a (λ rest. (refl, refl))
  | inr na ↦ elim (Bool-cases (starts_with (txt "/api/dashboard/samples?") path)) [
    | inl b ↦ IsOther-of_prefix (txt "/api/dashboard/samples?") path b (λ rest. (refl, refl))
    | inr nb ↦ elim (Bool-cases (starts_with (txt "/api/dashboard/latency-series?") path)) [
      | inl c ↦
          IsOther-of_prefix (txt "/api/dashboard/latency-series?") path c (λ rest. (refl, refl))
      | inr nc ↦
          IsOther-of_prefix (txt "/api/dashboard/taker-cost-series?") path (ground arith)
            (λ rest. (refl, refl))
    ]
  ]
]

-- Cutting a sample down keeps its venue, so it may be shown as before.
visible-compact_sample :
    (hidden : List Text) (v : Json)
    → is_visible_venue_row hidden (compact_sample v) ≡ is_visible_venue_row hidden v
unfolding is_visible_venue_row
visible-compact_sample hidden (arr vs) = rw (venue-compact_sample (arr vs) refl)
visible-compact_sample hidden (obj fs) = rw (venue-compact_sample (obj fs) refl)
visible-compact_sample hidden _ = unfold compact_sample in refl

-- Whatever the benchmark API answers for summaries, no row of a hidden venue is passed on.
shape_bench_json-IsShown_summaries :
    (hidden : List Text) (q : Text) (v : Json)
    → IsShown hidden (txt "summaries") (shape_bench_json hidden (txt "/api/latest?" ++ q) v)
unfolding shape_bench_json starts_with is_samples_path
shape_bench_json-IsShown_summaries hidden q v =
    filter_bench_json-IsShown hidden _ (txt "/api/latest?" ++ q) v
      (with_visible_same-IsShown hidden (txt "summaries") v)

filtered_samples-IsShown :
    (hidden : List Text) (path : Text) (v : Json)
    → is_samples_path path ≡ true
    → IsShown hidden (txt "samples") (filter_bench_json hidden path v)
filtered_samples-IsShown hidden path v h =
    let (not_latest, not_tps) = is_samples_path-IsOther path h in
    filter_bench_json-IsShown hidden (txt "samples") path v
      (rw (not_latest, h, not_tps) (with_visible_same-IsShown hidden (txt "samples") v))

All-compact_rows :
    (hidden : List Text) (rows : List Json)
    → All (λ row. is_visible_venue_row hidden row ≡ true) rows
    → All (λ row. is_visible_venue_row hidden row ≡ true) (map compact_sample rows)
All-compact_rows hidden [] h = tt
All-compact_rows hidden (row ∷ rows) h =
    (rw visible-compact_sample (h.0), All-compact_rows hidden rows h.1)

compact_rows-IsShown :
    (hidden : List Text) (v : Json) (rows : Items)
    → All (λ row. is_visible_venue_row hidden row ≡ true) (items rows)
    → IsShown hidden (txt "samples") (with_array (txt "samples") v (compact_rows rows))
unfolding get
compact_rows-IsShown hidden v rows h shown e =
    let same : array_of (some (arr (compact_rows rows))) ≡ some shown = rw lookup-put_self at e in
    let rows_eq : compact_rows rows ≡ shown = cc in
    rw (← rows_eq, items-of_items) (All-compact_rows hidden (items rows) h)

-- Whatever the benchmark API answers for samples, cut down or not, no sample of a hidden venue is
-- passed on.
pub shape_bench_json-IsShown_samples :
    (hidden : List Text) (path : Text) (v : Json)
    → is_samples_path path ≡ true
    → IsShown hidden (txt "samples") (shape_bench_json hidden path v)
unfolding shape_bench_json
shape_bench_json-IsShown_samples hidden path v h =
    elim (Bool-cases (starts_with (txt "/api/samples?") path)) [
      | inr dashboard ↦ rw dashboard (filtered_samples-IsShown hidden path v h)
      | inl raw ↦ rw raw (go (array_at (txt "samples") filtered) refl)
    ]
  where
    filtered : Json
    filtered = filter_bench_json hidden path v

    go :
        (o : Option Items)
        → array_at (txt "samples") filtered ≡ o
        → IsShown hidden (txt "samples") (compact_if o filtered)
    go (some rows) e =
        compact_rows-IsShown hidden filtered rows (filtered_samples-IsShown hidden path v h rows e)
    go none e = λ rows shown. cc
