-- ===== src/Csv/Reader.antt =====
-- What is exported can be read back (frontend/src/routes/api/bench/exchange-tps-export.ts): a reader
-- of RFC 4180, and the round trip through it.
use perps_latency_benchmark.Prelude.{
  ℕ, ◌≡◌, ◌⊎◌, ◌==◌, List, [], ◌∷◌, ◌++◌, map, Text, if◌then◌else◌,
}
use perps_latency_benchmark.Csv.{quote, comma, newline, csv_cell, join}

-- Where the reader stands: before a cell, in a bare one, in a quoted one, behind a quote in one.
pub data Mode : Type 0 where
  start bare quoted closed : Mode

-- What is read from a place on: the rest of its cell, the rest of its row, the other rows.
pub record Parsed : Type 0 where
  pub cell : Text
  pub row : List Text
  pub rows : List (List Text)

abbrev pub push : ℕ → Parsed → Parsed
push c p = record p { cell = c ∷ p.cell }

abbrev pub new_cell : Parsed → Parsed
new_cell p = record { cell = []; row = p.cell ∷ p.row; rows = p.rows }

abbrev pub new_row : Parsed → Parsed
new_row p = record { cell = []; row = []; rows = (p.cell ∷ p.row) ∷ p.rows }

abbrev nothing : Parsed
nothing = record { cell = []; row = []; rows = [] }

-- A separator, or a code unit of the cell.
abbrev separate : ℕ → Parsed → Parsed → Parsed
separate c fresh more =
    if c == comma then new_cell fresh else if c == newline then new_row fresh else push c more

unfoldable pub read : Mode → Text → Parsed
read m [] = nothing
read start (c ∷ text) =
    let within = read quoted text in
    let other = separate c (read start text) (read bare text) in
    if c == quote then within else other
read bare (c ∷ text) = separate c (read start text) (read bare text)
read quoted (c ∷ text) =
    let behind = read closed text in
    let more = push c (read quoted text) in if c == quote then behind else more
read closed (c ∷ text) =
    let escaped = push quote (read quoted text) in
    let other = separate c (read start text) (read bare text) in
    if c == quote then escaped else other

pub read_csv : Text → List (List Text)
unfolding read
read_csv text = let p = read start text in (p.cell ∷ p.row) ∷ p.rows

-- What may stand behind a cell: nothing or a separator.
abbrev EndsCell : Text → Type 0
EndsCell [] = Unit
EndsCell (c ∷ rest) = (c ≡ comma) ⊎ (c ≡ newline)

abbrev prepend : Text → Parsed → Parsed
prepend s p = record p { cell = s ++ p.cell }

abbrev row_text : List Text → Text
row_text cells = join comma (map csv_cell cells)

abbrev EndsRow : Text → Type 0
EndsRow [] = Unit
EndsRow (c ∷ rest) = c ≡ newline

abbrev table_text : List (List Text) → Text
table_text rows = join newline (map row_text rows)

-- Rows with at least one cell, as a list of their first and other cells.
abbrev NonEmptyRows : List (List Text) → Type 0
NonEmptyRows [] = Unit
NonEmptyRows ([] ∷ rows) = ⊥
NonEmptyRows ((cell ∷ cells) ∷ rows) = NonEmptyRows rows

abbrev all_rows : Parsed → List (List Text)
all_rows p = (p.cell ∷ p.row) ∷ p.rows
