-- ===== src/Throughput/Panel.antt =====
-- The throughput panel as a whole (ExchangeTPSPanel, TPSStat and ExchangeSelector of
-- frontend/src/components/dashboard/exchange-tps-panel.tsx): the section that is shown, the averages on top,
-- the selector of venues and what a click of it chooses. Only a section with data has the selector.
use perps_latency_benchmark.Prelude.{
  includes_text, ℕ, Bool, ◌&&◌, Option, none, some, List, [], ◌∷◌, ◌++◌, map, length, Text, txt,
  ltb, ◌==◌, if◌then◌else◌,
}
use perps_latency_benchmark.Data.{ExchangeTpsRow}
use perps_latency_benchmark.Numbers.{Numbers}
use perps_latency_benchmark.Chart.Colors.{color_for_venue}
use perps_latency_benchmark.Chart.Controls
use perps_latency_benchmark.Dashboard.{VenueFilter, all, only}
use perps_latency_benchmark.Throughput.{TpsSeries, TpsAverage, complete_rows, build_series}
use perps_latency_benchmark.Throughput.Averages.{average_rows_by_venue}
use perps_latency_benchmark.Throughput.Plot.{format_tps, bucket_description}

-- A box of the selector.
pub record VenueBox : Type 0 where
  pub venue : Text
  pub checked : Bool
  pub color : Option Text

pub record Selector : Type 0 where
  pub all_text : Text
  pub boxes : List VenueBox

-- An average on top of the panel.
pub record TpsStat : Type 0 where
  pub color : Option Text
  pub venue : Text
  pub value : Text

pub record TpsSection (N : Type 0) : Type 0 where
  pub description : Text
  pub selector : Option Selector
  pub stats : List TpsStat
  pub series : List (TpsSeries N)
  pub shows_export : Bool

pub data TpsPanel (N : Type 0) : Type 0 where
  loading : TpsPanel N
  no_data : TpsPanel N
  section : TpsSection N → TpsPanel N

-- `transactions-per-second-${window}.csv`
unfoldable pub filename_for_window : Text → Text
filename_for_window window = txt "transactions-per-second-" ++ window ++ txt ".csv"

abbrev pub all_selected : List Text → List Text → Bool
all_selected selected venues = ltb 0 (length venues) && length selected == length venues

-- The button that says "Clear" or "All".
unfoldable pub click_all : List Text → List Text → VenueFilter
click_all selected venues = if all_selected selected venues then only [] else all

-- A click on the box of a venue, as in the selector of the other charts.
unfoldable pub toggle_venue : List Text → List Text → Text → VenueFilter
unfolding Controls.toggle_venue
toggle_venue selected venues venue = Controls.toggle_venue selected venues venue

abbrev box_of : List Text → Text → VenueBox
unfolding includes_text color_for_venue
box_of selected venue = record {
  venue = venue;
  checked = includes_text selected venue;
  color = color_for_venue venue;
}

-- There is none without venues.
unfoldable pub exchange_selector : List Text → List Text → Option Selector
unfolding includes_text color_for_venue
exchange_selector selected [] = none
exchange_selector selected (venue ∷ venues) = some record {
  all_text = if all_selected selected (venue ∷ venues) then txt "Clear" else txt "All";
  boxes = map (box_of selected) (venue ∷ venues);
}

module _ {N : Type 0} ⦃n : Numbers N⦄ (tps_text : ℕ → N → Text) where
  unfoldable pub tps_stat : TpsAverage N → TpsStat
  unfolding format_tps
  tps_stat average = record {
    color = average.color;
    venue = average.venue;
    value = format_tps tps_text (some average.avg_tps);
  }

  module _ (parse_date : Text → Option ℕ) (collate : Text → Text → Bool) where
    -- The section of the rows that are complete.
    abbrev section_of : List (ExchangeTpsRow N) → List Text → List Text → Bool → TpsSection N
    unfolding bucket_description exchange_selector tps_stat average_rows_by_venue build_series
    section_of complete selected venues shows_export = record {
      description = bucket_description complete;
      selector = exchange_selector selected venues;
      stats = map tps_stat (average_rows_by_venue parse_date collate complete);
      series = build_series parse_date collate complete;
      shows_export = shows_export;
    }

    -- `show_exports` is whether exports are offered and their links and windows are given.
    unfoldable pub exchange_tps_panel :
        (is_loading : Bool)
        → List (ExchangeTpsRow N)
        → (selected venues : List Text) → (show_exports : Bool) → TpsPanel N
    unfolding bucket_description exchange_selector tps_stat average_rows_by_venue build_series
    exchange_tps_panel is_loading rows selected venues show_exports =
        let complete = complete_rows rows in
        if is_loading
        then loading
        else if length complete == 0
        then no_data
        else section (section_of complete selected venues show_exports)
