-- ===== src/Dashboard/Session.antt =====
-- What happens on the page (frontend/src/components/dashboard/dashboard-page.tsx): choices among what it
-- offers, and answers of the session query; and that the windows it then asks for are ones that the server
-- grants (frontend/src/api/bench-window.server.ts).
use perps_latency_benchmark.Prelude.{
  includes_text_iff, MemText, ◌≡◌, refl, inl, inr, Bool, true, false, Option, arith, Text,
  Bool-cases,
}
use perps_latency_benchmark.Data.{AdvancedAuthSession}
use perps_latency_benchmark.Chart.{ScaleMode}
use perps_latency_benchmark.Windows.{
  window_options, summary_window_options, is_window_option, is_summary_window_option,
  is_public_window_option, is_public_summary_window_option, default_window, default_summary_window,
}
use perps_latency_benchmark.Dashboard.{
  Dashboard, VenueFilter, CancelChartScenario, initial_dashboard, with_windows, offered_windows,
  settled, offered_summary_windows, run_effects, is_advanced_authenticated,
}

-- A choice or an answer, before the effects.
pub data Step : Dashboard → Dashboard → Type 0 where
  choose_window :
      (d : Dashboard) (window : Text)
      → MemText window (offered_windows d)
      → Step d (with_windows window d.summary_window d)
  choose_summary_window :
      (d : Dashboard) (window : Text)
      → MemText window (offered_summary_windows d)
      → Step d (with_windows d.filters.window window d)
  choose_view :
      (d : Dashboard) (venues : VenueFilter) (scale : ScaleMode) (scenario : CancelChartScenario)
      → Step d record {
        filters = record {
          subtract_network_floor = d.filters.subtract_network_floor;
          venues = venues;
          window = d.filters.window;
        };
        chart_scale = scale;
        cancel_chart_scenario = scenario;
        summary_window = d.summary_window;
        advanced_auth = d.advanced_auth;
      }
  session_answered :
      (d : Dashboard) (answer : Option AdvancedAuthSession)
      → Step d record {
        filters = d.filters;
        chart_scale = d.chart_scale;
        cancel_chart_scenario = d.cancel_chart_scenario;
        summary_window = d.summary_window;
        advanced_auth = answer;
      }

-- A page that has been drawn and whose effects have run.
pub data Reachable : Dashboard → Type 0 where
  opened : Reachable (run_effects initial_dashboard)
  drawn : {d e : Dashboard} → Reachable d → Step d e → Reachable (run_effects e)

-- Both windows are options, and without an authenticated session they are open to all.
pub record IsSettled (d : Dashboard) : Type 0 where
  pub window_known : is_window_option d.filters.window ≡ true
  pub summary_known : is_summary_window_option d.summary_window ≡ true
  pub window_open :
      is_advanced_authenticated d ≡ false → is_public_window_option d.filters.window ≡ true
  pub summary_open :
      is_advanced_authenticated d ≡ false → is_public_summary_window_option d.summary_window ≡ true

record IsKnown (d : Dashboard) : Type 0 where
  window : is_window_option d.filters.window ≡ true
  summary : is_summary_window_option d.summary_window ≡ true

default_window-IsKnown : is_window_option default_window ≡ true
unfolding is_window_option
default_window-IsKnown = refl

default_summary_window-IsKnown : is_summary_window_option default_summary_window ≡ true
unfolding is_summary_window_option
default_summary_window-IsKnown = refl

default_window-IsPublic : is_public_window_option default_window ≡ true
unfolding is_public_window_option
default_window-IsPublic = refl

default_summary_window-IsPublic : is_public_summary_window_option default_summary_window ≡ true
unfolding is_public_summary_window_option
default_summary_window-IsPublic = refl

settled-of :
    (P : Text → Type 0) (authenticated : Bool) (is_public : Text → Bool) (default window : Text)
    → P default
    → P window
    → P (settled authenticated is_public default window)
settled-of P true is_public default window h k = k
settled-of P false is_public default window h k = elim (Bool-cases (is_public window)) [
  | inl e ↦ rw e k
  | inr e ↦ rw e h
]

settled-IsPublic :
    (authenticated : Bool) (is_public : Text → Bool) (default window : Text)
    → is_public default ≡ true
    → authenticated ≡ false
    → is_public (settled authenticated is_public default window) ≡ true
settled-IsPublic true is_public default window h k = cc
settled-IsPublic false is_public default window h k = elim (Bool-cases (is_public window)) [
  | inl e ↦ rw e e
  | inr e ↦ rw e h
]

run_effects-IsSettled : (d : Dashboard) → IsKnown d → IsSettled (run_effects d)
unfolding run_effects is_advanced_authenticated
run_effects-IsSettled d h = record {
  window_known =
      settled-of (λ w. is_window_option w ≡ true) (is_advanced_authenticated d)
        is_public_window_option default_window d.filters.window default_window-IsKnown h.window;
  summary_known =
      settled-of (λ w. is_summary_window_option w ≡ true) (is_advanced_authenticated d)
        is_public_summary_window_option default_summary_window d.summary_window
        default_summary_window-IsKnown h.summary;
  window_open =
      settled-IsPublic (is_advanced_authenticated d) is_public_window_option default_window
        d.filters.window default_window-IsPublic;
  summary_open =
      settled-IsPublic (is_advanced_authenticated d) is_public_summary_window_option
        default_summary_window d.summary_window default_summary_window-IsPublic;
}

pub offered-IsKnown :
    (d : Dashboard) (window : Text)
    → MemText window (offered_windows d)
    → is_window_option window ≡ true
unfolding is_window_option
offered-IsKnown d window h = elim (Bool-cases (is_advanced_authenticated d)) [
  | inl e ↦ (includes_text_iff window_options window).1 (rw e at h)
  | inr e ↦ (includes_text_iff window_options window).1 (ground (arith, rw e at h))
]

offered_summary-IsKnown :
    (d : Dashboard) (window : Text)
    → MemText window (offered_summary_windows d)
    → is_summary_window_option window ≡ true
unfolding is_summary_window_option
offered_summary-IsKnown d window h = elim (Bool-cases (is_advanced_authenticated d)) [
  | inl e ↦ (includes_text_iff summary_window_options window).1 (rw e at h)
  | inr e ↦ (includes_text_iff summary_window_options window).1 (ground (arith, rw e at h))
]

Step-IsKnown : {d e : Dashboard} → Step d e → IsSettled d → IsKnown e
Step-IsKnown (choose_window d w h) k = record {
  window = offered-IsKnown d w h;
  summary = k.summary_known;
}
Step-IsKnown (choose_summary_window d w h) k = record {
  window = k.window_known;
  summary = offered_summary-IsKnown d w h;
}
Step-IsKnown (choose_view d venues scale scenario) k = record {
  window = k.window_known;
  summary = k.summary_known;
}
Step-IsKnown (session_answered d answer) k = record {
  window = k.window_known;
  summary = k.summary_known;
}

pub Reachable-IsSettled : {d : Dashboard} → Reachable d → IsSettled d
Reachable-IsSettled opened =
    run_effects-IsSettled initial_dashboard
      record { window = default_window-IsKnown; summary = default_summary_window-IsKnown }
Reachable-IsSettled (drawn {d} {e} r s) =
    run_effects-IsSettled e (Step-IsKnown s (Reachable-IsSettled r))
