-- ===== src/Proxy/Shape/Compact.antt =====
-- Samples cut down to the fields that the dashboard reads: `compactSample` and its parts
-- (frontend/src/api/bench.server.ts).
use perps_latency_benchmark.Prelude.{
  inr, inl, Bool-cases, ◌≡◌, refl, ap, ◌∙◌, Bool, true, false, Option, none, some, List, Text, txt,
  ◌===◌, if◌then◌else◌,
}
use perps_latency_benchmark.Json.{
  Json, obj, get, omit_undefined, find_defined, lookup-omit_undefined, or_option-none,
}
use perps_latency_benchmark.Proxy.Shape.{
  is_record, compact_with, compact_sample, sample_fields, compact_cleanup, compact_cleanup_metadata,
  compact_expected_fill, compact_metadata,
}

get-obj :
    (k : Text) (fs : List (Text × Option Json))
    → get k (obj (omit_undefined fs)) ≡ find_defined k fs
unfolding get
get-obj k fs = lookup-omit_undefined k fs

ruleset reads = (get-obj, or_option-none)

-- What is read of a compact sample is what the literal gives.
pub get-compact_sample :
    (k : Text) (v : Json)
    → is_record v ≡ true
    → get k (compact_sample v) ≡ find_defined k (sample_fields v)
unfolding compact_sample
get-compact_sample k v h = rw h (get-obj k (sample_fields v))

pub venue-compact_sample :
    (v : Json) → is_record v ≡ true → get (txt "venue") (compact_sample v) ≡ get (txt "venue") v
unfolding ◌===◌
venue-compact_sample v h = get-compact_sample (txt "venue") v h ∙ or_option-none _

-- Cutting down twice is cutting down once, for a literal that reads back what it wrote.
compact_with_idempotent :
    (fields : Json → List (Text × Option Json))
    → ((v : Json) → fields (obj (omit_undefined (fields v))) ≡ fields v)
    → (o : Option Json) → compact_with fields (compact_with fields o) ≡ compact_with fields o
compact_with_idempotent fields h none = refl
compact_with_idempotent fields h (some v) = go (is_record v)
  where
    go :
        (b : Bool)
        → compact_with fields (if b then some (obj (omit_undefined (fields v))) else none)
          ≡ (if b then some (obj (omit_undefined (fields v))) else none)
    go true = rw (h v)
    go false = refl

compact_cleanup_metadata_idempotent :
    (o : Option Json)
    → compact_cleanup_metadata (compact_cleanup_metadata o) ≡ compact_cleanup_metadata o
unfolding compact_cleanup_metadata ◌===◌
compact_cleanup_metadata_idempotent = compact_with_idempotent _ (λ v. simp reads)

compact_expected_fill_idempotent :
    (o : Option Json) → compact_expected_fill (compact_expected_fill o) ≡ compact_expected_fill o
unfolding compact_expected_fill ◌===◌
compact_expected_fill_idempotent = compact_with_idempotent _ (λ v. simp reads)

compact_metadata_idempotent :
    (o : Option Json) → compact_metadata (compact_metadata o) ≡ compact_metadata o
unfolding compact_metadata ◌===◌
compact_metadata_idempotent = compact_with_idempotent _ (λ v. simp reads)

compact_cleanup_idempotent :
    (o : Option Json) → compact_cleanup (compact_cleanup o) ≡ compact_cleanup o
unfolding compact_cleanup ◌===◌
compact_cleanup_idempotent =
    compact_with_idempotent _ (λ v. simp (reads, compact_cleanup_metadata_idempotent))

sample_fields-obj :
    (v : Json) → sample_fields (obj (omit_undefined (sample_fields v))) ≡ sample_fields v
unfolding ◌===◌
sample_fields-obj v = simp (
  reads, compact_cleanup_idempotent, compact_expected_fill_idempotent, compact_metadata_idempotent,
)

abbrev obj' : List (Text × Option Json) → Json
obj' fs = obj (omit_undefined fs)

-- Cutting a sample down a second time changes nothing.
compact_sample_idempotent : (v : Json) → compact_sample (compact_sample v) ≡ compact_sample v
unfolding compact_sample
compact_sample_idempotent v = elim (Bool-cases (is_record v)) [
  | inl h ↦ rw h (ap obj' (sample_fields-obj v))
  | inr h ↦ rw (h, h)
]
