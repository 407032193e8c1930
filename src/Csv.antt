-- ===== src/Csv.antt =====
-- CSV exports: the throughput export of the server (frontend/src/routes/api/bench/
-- exchange-tps-export.ts) and the download buttons of the dashboard
-- (frontend/src/components/dashboard/csv-export-button.tsx).
pub mod Reader
pub mod Download
pub mod Dialog
use perps_latency_benchmark.Prelude.{
  ℕ, Bool, true, false, not, ◌||◌, ◌==◌, Option, none, some, List, [], ◌∷◌, ◌++◌, map, Text, txt,
  any, keep, includes_text, split_on, trim, is_blank, if◌then◌else◌,
}
use perps_latency_benchmark.Data.{ExchangeTpsResponse, ExchangeTpsRow}

abbrev pub quote : ℕ
quote = 34

abbrev pub comma : ℕ
comma = 44

abbrev pub newline : ℕ
newline = 10

-- `text.replace(/"/g, '""')`
abbrev pub double_quotes : Text → Text
double_quotes [] = []
double_quotes (c ∷ text) =
    let rest = double_quotes text in if c == quote then quote ∷ quote ∷ rest else c ∷ rest

-- A text in quotes if one of its code units is special.
abbrev pub quote_if : (ℕ → Bool) → Text → Text
quote_if special text =
    if any special text then quote ∷ (double_quotes text ++ quote ∷ []) else text

-- `/[",\n]/` and `/[",\n\r]/`
abbrev pub is_special : ℕ → Bool
is_special c = c == quote || c == comma || c == newline

abbrev pub is_special_or_return : ℕ → Bool
is_special_or_return c = is_special c || c == 13

unfoldable pub csv_cell : Text → Text
csv_cell = quote_if is_special

-- `cells.join(separator)`
abbrev pub join : ℕ → List Text → Text
join separator [] = []
join separator (cell ∷ []) = cell
join separator (cell ∷ next ∷ cells) = cell ++ separator ∷ join separator (next ∷ cells)

abbrev pub tps_header : List Text
tps_header =
    txt "bucket_start"
    ∷ txt "bucket_seconds"
    ∷ txt "venue"
    ∷ txt "tps"
    ∷ txt "tx_count"
    ∷ txt "block_count"
    ∷ txt "order_count"
    ∷ txt "orders_per_second"
    ∷ txt "place_count"
    ∷ txt "cancel_count"
    ∷ []

-- `String` on numbers is the argument `show`.
module _ {N : Type 0} (show : N → Text) where
  abbrev shown_or_empty : Option N → Text
  shown_or_empty none = []
  shown_or_empty (some n) = show n

  abbrev pub tps_cells : ExchangeTpsRow N → List Text
  tps_cells row =
      row.bucket_start
      ∷ show row.bucket_seconds
      ∷ row.venue
      ∷ show row.tps
      ∷ show row.tx_count
      ∷ shown_or_empty row.block_count
      ∷ shown_or_empty row.order_count
      ∷ shown_or_empty row.orders_per_second
      ∷ shown_or_empty row.place_count
      ∷ shown_or_empty row.cancel_count
      ∷ []

  unfoldable pub exchange_tps_csv : List (ExchangeTpsRow N) → Text
  unfolding csv_cell
  exchange_tps_csv series =
      join newline
        (join comma tps_header ∷ map (λ row. join comma (map csv_cell (tps_cells row))) series)

-- `none` is no selection.
unfoldable pub selected_venues : Option Text → Option (List Text)
unfolding split_on trim
selected_venues none = none
selected_venues (some value) = some (keep (λ v. not (is_blank v)) (map trim (split_on comma value)))

-- The rows of the venues that the request selects.
unfoldable pub filtered_series :
    {N : Type 0} → Option (List Text) → List (ExchangeTpsRow N) → List (ExchangeTpsRow N)
unfolding includes_text
filtered_series none series = series
filtered_series (some venues) series = keep (λ row. includes_text venues row.venue) series
