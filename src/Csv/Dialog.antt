-- ===== src/Csv/Dialog.antt =====
-- The dialog of a download button (CSVExportButton, CSVURLExportButton and CSVDialogShell of
-- frontend/src/components/dashboard/csv-export-button.tsx) as a state machine: an export is started by a
-- click, and ended later by what loading gave, while the dialog goes on being used. `empty_error` and the
-- others are the texts of the source; loading and saving are the platform's.
use perps_latency_benchmark.Prelude.{
  is_blank, ◌≡◌, refl, ap, ◌⊎◌, inl, inr, Bool, true, false, not, ◌||◌, Option, none, some, List,
  [], ◌∷◌, arith, All, Text, txt, if◌then◌else◌,
}

pub data Loaded (T : Type 0) : Type 0 where
  thrown : Loaded T
  rows : List T → Loaded T

-- A file that was saved: the window it is named for and its rows.
pub record Saved (T : Type 0) : Type 0 where
  pub window : Text
  pub rows : List T

-- The hooks of the button, the windows whose exports were started and are not yet ended, and the files
-- that were saved, the last one first.
pub record Dialog (T : Type 0) : Type 0 where
  pub open_now : Bool
  pub selected_window : Text
  pub error : Text
  pub pending : Bool
  pub in_flight : List Text
  pub saved : List (Saved T)

abbrev pub empty_error : Text
empty_error = txt "No data for that window"

abbrev pub failed_error : Text
failed_error = txt "Export failed"

-- `defaultWindow ?? windows[0]?.value ?? ""`
abbrev pub initial_window : Option Text → List Text → Text
initial_window (some window) windows = window
initial_window none [] = []
initial_window none (window ∷ windows) = window

-- The exports in flight, by whether the dialog is pending.
abbrev InFlight : Bool → Text → List Text → Type 0
InFlight false error windows = windows ≡ []
InFlight true error windows = (error ≡ []) × ((window : Text) × (windows ≡ window ∷ []))

-- One of the exports in flight is the only one.
InFlight-only :
    (pending : Bool) (error : Text) (windows : List Text) (window : Text) (others : List Text)
    → InFlight pending error windows
    → windows ≡ window ∷ others
    → others ≡ []
InFlight-only false error windows window others h k = cc (h, k)
InFlight-only true error windows window others (h, (w, e)) k = cc (e, k)

InFlight-closed :
    (pending : Bool) (error : Text) (windows : List Text)
    → InFlight pending error windows
    → InFlight pending [] windows
InFlight-closed false error windows h = h
InFlight-closed true error windows (h, k) = (refl, k)

InFlight-none :
    (pending : Bool) (error : Text) (windows : List Text)
    → pending ≡ false
    → InFlight pending error windows
    → windows ≡ []
InFlight-none false error windows e h = h
InFlight-none true error windows e h = cc e

module _ {T : Type 0} where
  unfoldable pub initial_dialog : Text → Dialog T
  initial_dialog window = record {
    open_now = false;
    selected_window = window;
    error = [];
    pending = false;
    in_flight = [];
    saved = [];
  }

  -- `onOpenChange`
  unfoldable pub change_open : Bool → Dialog T → Dialog T
  change_open next_open d = record d {
    open_now = next_open;
    error = if next_open then d.error else [];
  }

  -- `setSelectedWindow`, by a choice or by the effect on another initial window.
  unfoldable pub select_window : Text → Dialog T → Dialog T
  select_window window d = record d { selected_window = window }

  -- `disabled={pending || !selectedWindow}` of the button that exports.
  abbrev pub can_export : Dialog T → Bool
  can_export d = not (d.pending || is_blank d.selected_window)

  -- `handleExport` up to its `await`.
  unfoldable pub start_export : Dialog T → Dialog T
  start_export d = record d {
    error = [];
    pending = true;
    in_flight = d.selected_window ∷ d.in_flight;
  }

  -- `handleExport` from its `await` on, for the window that was selected when it was started.
  unfoldable pub finish_export : Text → List Text → Loaded T → Dialog T → Dialog T
  finish_export window others thrown d = record d {
    error = failed_error;
    pending = false;
    in_flight = others;
  }
  finish_export window others (rows []) d = record d {
    error = empty_error;
    pending = false;
    in_flight = others;
  }
  finish_export window others (rows (r ∷ rs)) d = record d {
    open_now = false;
    pending = false;
    in_flight = others;
    saved = record { window = window; rows = r ∷ rs } ∷ d.saved;
  }

  pub data Step : Dialog T → Dialog T → Type 0 where
    opened_or_closed : (next_open : Bool) (d : Dialog T) → Step d (change_open next_open d)
    window_selected : (window : Text) (d : Dialog T) → Step d (select_window window d)
    started : (d : Dialog T) → can_export d ≡ true → Step d (start_export d)
    ended :
        (window : Text) (others : List Text) (result : Loaded T) (d : Dialog T)
        → d.in_flight ≡ window ∷ others
        → Step d (finish_export window others result d)

  pub data Reachable (first : Text) : Dialog T → Type 0 where
    initial : Reachable first (initial_dialog first)
    next : {d e : Dialog T} → Reachable first d → Step d e → Reachable first e

  abbrev HasRows : List T → Type 0
  HasRows [] = ⊥
  HasRows (r ∷ rs) = Unit

  pub record IsConsistent (d : Dialog T) : Type 0 where
    pub in_flight : InFlight d.pending d.error d.in_flight
    pub has_rows : All (λ (s : Saved T). HasRows s.rows) d.saved
    pub error_known : (d.error ≡ []) ⊎ ((d.error ≡ empty_error) ⊎ (d.error ≡ failed_error))

  change_open-IsConsistent :
      (next_open : Bool) (d : Dialog T) → IsConsistent d → IsConsistent (change_open next_open d)
  unfolding change_open
  change_open-IsConsistent true d h = record {
    in_flight = h.in_flight;
    has_rows = h.has_rows;
    error_known = h.error_known;
  }
  change_open-IsConsistent false d h = record {
    in_flight = InFlight-closed d.pending d.error d.in_flight h.in_flight;
    has_rows = h.has_rows;
    error_known = inl refl;
  }

  start_export-IsConsistent :
      (d : Dialog T) → can_export d ≡ true → IsConsistent d → IsConsistent (start_export d)
  unfolding start_export
  start_export-IsConsistent d k h = record {
    in_flight = (
      refl,
      (
        d.selected_window,
        ap (λ (l : List Text). d.selected_window ∷ l)
            (InFlight-none d.pending d.error d.in_flight (ground (arith, k)) h.in_flight),
      ),
    );
    has_rows = h.has_rows;
    error_known = inl refl;
  }

  finish_export-IsConsistent :
      (window : Text) (others : List Text) (result : Loaded T) (d : Dialog T)
      → d.in_flight ≡ window ∷ others
      → IsConsistent d
      → IsConsistent (finish_export window others result d)
  unfolding finish_export
  finish_export-IsConsistent window others thrown d k h = record {
    in_flight = InFlight-only d.pending d.error d.in_flight window others h.in_flight k;
    has_rows = h.has_rows;
    error_known = inr (inr refl);
  }
  finish_export-IsConsistent window others (rows []) d k h = record {
    in_flight = InFlight-only d.pending d.error d.in_flight window others h.in_flight k;
    has_rows = h.has_rows;
    error_known = inr (inl refl);
  }
  finish_export-IsConsistent window others (rows (r ∷ rs)) d k h = record {
    in_flight = InFlight-only d.pending d.error d.in_flight window others h.in_flight k;
    has_rows = (tt, h.has_rows);
    error_known = h.error_known;
  }

  Step-IsConsistent : {d e : Dialog T} → Step d e → IsConsistent d → IsConsistent e
  unfolding select_window
  Step-IsConsistent (opened_or_closed b d) h = change_open-IsConsistent b d h
  Step-IsConsistent (window_selected w d) h = record {
    in_flight = h.in_flight;
    has_rows = h.has_rows;
    error_known = h.error_known;
  }
  Step-IsConsistent (started d k) h = start_export-IsConsistent d k h
  Step-IsConsistent (ended w others result d k) h = finish_export-IsConsistent w others result d k h

  -- However clicks, choices and answers follow each other: the button is pending exactly while one export
  -- is in flight, and shows no error then; when no export is in flight it can be used again, so that none
  -- that fails leaves it pending; the error is one of the two texts or none; and what is saved has rows.
  pub Reachable-IsConsistent : {first : Text} {d : Dialog T} → Reachable first d → IsConsistent d
  unfolding initial_dialog
  Reachable-IsConsistent initial = record {
    in_flight = refl;
    has_rows = tt;
    error_known = inl refl;
  }
  Reachable-IsConsistent (next r s) = Step-IsConsistent s (Reachable-IsConsistent r)
