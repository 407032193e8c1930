-- ===== src/Csv/Download.antt =====
-- The download buttons (frontend/src/components/dashboard/csv-export-button.tsx): the text of a
-- cell and of the file, and the name of the file.
pub mod Filename
use perps_latency_benchmark.Prelude.{
  ℕ, Bool, true, false, not, ◌||◌, ◌&&◌, ◌==◌, leb, Option, none, some, List, [], ◌∷◌, ◌++◌, map,
  Text, txt, keep, starts_with, trim, to_lower, is_blank, if◌then◌else◌,
}
use mathlib.Core.List.{reverse}
use perps_latency_benchmark.Csv.{quote, comma, newline, quote_if, is_special_or_return, join}

-- A date by its ISO text.
pub data CsvValue (N : Type 0) : Type 0 where
  missing : CsvValue N
  date string : Text → CsvValue N
  number : N → CsvValue N
  boolean : Bool → CsvValue N

pub record CsvColumn (N T : Type 0) : Type 0 where
  pub header : Text
  pub value : T → CsvValue N

-- `String` and `Number.isFinite` on numbers are the arguments.
module _ {N : Type 0} (show : N → Text) (is_finite : N → Bool) where
  abbrev cell_text : CsvValue N → Text
  cell_text missing = []
  cell_text (date iso) = iso
  cell_text (string t) = t
  cell_text (number n) = if is_finite n then show n else []
  cell_text (boolean b) = if b then txt "true" else txt "false"

  unfoldable pub escape_csv_cell : CsvValue N → Text
  escape_csv_cell value = quote_if is_special_or_return (cell_text value)

  -- The text that `downloadCSV` puts into the file.
  unfoldable pub csv_text : {T : Type 0} → List (CsvColumn N T) → List T → Text
  unfolding escape_csv_cell
  csv_text columns rows = join newline (
      join comma (map (λ column. escape_csv_cell (string column.header)) columns)
      ∷ map (λ row. join comma (map (λ column. escape_csv_cell (column.value row)) columns)) rows)

-- `/[a-z0-9._-]/`
abbrev pub is_filename_unit : ℕ → Bool
is_filename_unit c =
    (leb b'a' c && leb c b'z') || (leb b'0' c && leb c b'9') || c == b'.' || c == b'_' || c == b'-'

-- `.replace(/[^a-z0-9._-]+/g, "-")`; the flag tells that a run of other code units goes on.
unfoldable pub dash_runs : Bool → Text → Text
dash_runs in_run [] = []
dash_runs in_run (c ∷ text) =
    let kept = c ∷ dash_runs false text in
    let dashed = b'-' ∷ dash_runs true text in
    let dropped = dash_runs true text in
    if is_filename_unit c then kept else if in_run then dropped else dashed

unfoldable pub drop_dashes : Text → Text
drop_dashes [] = []
drop_dashes (c ∷ text) = if c == b'-' then drop_dashes text else c ∷ text

-- `.replace(/^-+|-+$/g, "")`
unfoldable pub strip_dashes : Text → Text
unfolding drop_dashes
strip_dashes text = reverse (drop_dashes (reverse (drop_dashes text)))

abbrev ends_with_csv : Text → Bool
ends_with_csv text = starts_with (txt "vsc.") (reverse text)

unfoldable pub normalized_filename : Text → Text
unfolding strip_dashes dash_runs to_lower trim
normalized_filename filename = strip_dashes (dash_runs false (to_lower (trim filename)))

unfoldable pub sanitized_csv_filename : Text → Text
unfolding normalized_filename starts_with
sanitized_csv_filename filename =
    let normalized = normalized_filename filename in
    if ends_with_csv normalized
    then normalized
    else (if is_blank normalized then txt "export" else normalized) ++ txt ".csv"

-- The capture of `/filename="?([^";]+)"?/i` at a place, behind `filename=`.
abbrev take_name : Text → Text
take_name [] = []
take_name (c ∷ text) = let rest = c ∷ take_name text in if c == quote || c == b';' then [] else rest

abbrev drop_quote : Text → Text
drop_quote [] = []
drop_quote (c ∷ text) = if c == quote then text else c ∷ text

abbrev drop_units : ℕ → Text → Text
drop_units ℕ.zero text = text
drop_units (ℕ.suc n) [] = []
drop_units (ℕ.suc n) (c ∷ text) = drop_units n text

abbrev name_at : Text → Text
name_at text =
    if starts_with (txt "filename=") (to_lower text)
    then take_name (drop_quote (drop_units 9 text))
    else []

-- The first place where the pattern matches.
find_name : Text → Option Text
find_name [] = none
find_name (c ∷ text) =
    let here = name_at (c ∷ text) in
    let later = find_name text in if is_blank here then later else some here

unfoldable pub filename_from_disposition : Option Text → Option Text
unfolding find_name starts_with to_lower
filename_from_disposition none = none
filename_from_disposition (some value) = find_name value
