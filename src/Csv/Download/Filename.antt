-- ===== src/Csv/Download/Filename.antt =====
-- The names of downloaded files (frontend/src/components/dashboard/csv-export-button.tsx).
use perps_latency_benchmark.Prelude.{
  All-append, All-reverse, ◌≡◌, refl, ap, ◌∙◌, sym, Bool, true, false, [], ◌∷◌, ◌++◌, Text, txt,
  All, arith, Bool-cases, inl, inr, starts_with-split, trim, to_lower, is_blank, if◌then◌else◌,
}
use mathlib.Core.List.{reverse, reverse-reverse, reverse-append}
use perps_latency_benchmark.Csv.Download.{
  is_filename_unit, dash_runs, drop_dashes, strip_dashes, ends_with_csv, normalized_filename,
  sanitized_csv_filename,
}

abbrev pub IsFilename : Text → Type 0
IsFilename = All (λ c. is_filename_unit c ≡ true)

dash_runs-IsFilename : (b : Bool) (t : Text) → IsFilename (dash_runs b t)
unfolding dash_runs
dash_runs-IsFilename b [] = tt
dash_runs-IsFilename b (c ∷ t) =
    ground (arith, dash_runs-IsFilename false t, dash_runs-IsFilename true t)

drop_dashes-IsFilename : (t : Text) → IsFilename t → IsFilename (drop_dashes t)
unfolding drop_dashes
drop_dashes-IsFilename [] h = tt
drop_dashes-IsFilename (c ∷ t) h = ground (arith, drop_dashes-IsFilename t h.1)

normalized-IsFilename : (name : Text) → IsFilename (normalized_filename name)
unfolding normalized_filename strip_dashes
normalized-IsFilename name =
    let dashed = dash_runs false (to_lower (trim name)) in
    All-reverse _ (drop_dashes (reverse (drop_dashes dashed))) (
      drop_dashes-IsFilename (reverse (drop_dashes dashed)) (
        All-reverse _ (drop_dashes dashed)
          (drop_dashes-IsFilename dashed (dash_runs-IsFilename false (to_lower (trim name))))))

abbrev stem_of : Text → Text
stem_of n = if is_blank n then txt "export" else n

stem-IsFilename : (n : Text) → IsFilename n → IsFilename (stem_of n)
stem-IsFilename [] h = ground arith
stem-IsFilename (c ∷ n) h = h

-- A downloaded file's name ends in `.csv` and is made of lower-case letters, digits, dots, dashes and
-- underscores: it holds no path separator, quote or control character, whatever was asked.
sanitized_csv_filename-IsFilename :
    (name : Text)
    → IsFilename (sanitized_csv_filename name)
      × ((stem : Text) × (sanitized_csv_filename name ≡ stem ++ txt ".csv"))
unfolding sanitized_csv_filename
sanitized_csv_filename-IsFilename name = go (normalized_filename name) (normalized-IsFilename name)
  where
    go :
        (n : Text)
        → IsFilename n
        → let s = if ends_with_csv n then n else stem_of n ++ txt ".csv" in
          IsFilename s × ((stem : Text) × (s ≡ stem ++ txt ".csv"))
    go n h = elim (Bool-cases (ends_with_csv n)) [
      | inl e ↦
          let (rest, same) = starts_with-split (txt "vsc.") (reverse n) e in
          rw e (
            h,
            (
              reverse rest,
              sym (reverse-reverse n) ∙ ap reverse same ∙ reverse-append (txt "vsc.") rest,
            ),
          )
      | inr e ↦ rw e (
        All-append _ (stem_of n) (txt ".csv") (stem-IsFilename n h) (ground arith),
        (stem_of n, refl),
      )
    ]
