-- ===== src/Dashboard.antt =====
-- The page of the dashboard (frontend/src/components/dashboard/dashboard-page.tsx and filters.tsx): its
-- state, and what it shows of the rows and samples that the queries gave.
pub mod Session
pub mod Served
pub mod Selection
pub mod Stats
pub mod Least
pub mod Toggle
pub mod Loaders
pub mod Login
use perps_latency_benchmark.Prelude.{
  is_blank, includes_text, to_lower, ℕ, zero, suc, ◌+◌, ◌-◌, ◌*◌, ◌/◌, ◌%◌, ◌≤◌, ◌<◌, ◌≡◌, refl,
  sym, ap, ◌∙◌, subst, ◌≢◌, ◌↔◌, ◌⊎◌, inl, inr, Bool, true, false, not, ◌&&◌, ◌||◌, Option, none,
  some, List, [], ◌∷◌, ◌++◌, map, arith, length, get_elem?, keep, any, All, All-map, All-imp,
  get_elem?-IsInside, Text, txt, ◌===◌, ltb, leb, ◌==◌, ==_iff, Bool-cases, if◌then◌else◌, value_or,
  min, max,
}
use perps_latency_benchmark.Data.{
  Sample, SummaryRow, AdvancedAuthSession, ExchangeTpsRow, ExchangeTpsSource,
}
use perps_latency_benchmark.Numbers.{Numbers, nought, positive}
use perps_latency_benchmark.Chart.{ScaleMode, linear, log}
use perps_latency_benchmark.Latency.{confirm_p50, confirm_p95}
use perps_latency_benchmark.TakerCost.{is_taker_order}
use perps_latency_benchmark.TakerCost.Series.{sum}
use perps_latency_benchmark.TakerCost.Window.{unique_sorted}
use perps_latency_benchmark.Windows.{
  default_window, default_summary_window, window_options, public_window_options,
  summary_window_options, public_summary_window_options, is_public_window_option,
  is_public_summary_window_option,
}

-- `"all" | Array<string>`
pub data VenueFilter : Type 0 where
  all : VenueFilter
  only : List Text → VenueFilter

pub record DashboardFilters : Type 0 where
  pub subtract_network_floor : Bool
  pub venues : VenueFilter
  pub window : Text

pub data CancelChartScenario : Type 0 where
  single batch : CancelChartScenario

-- The hooks of the page; `advanced_auth` is the last answer of the session query.
pub record Dashboard : Type 0 where
  pub filters : DashboardFilters
  pub chart_scale : ScaleMode
  pub cancel_chart_scenario : CancelChartScenario
  pub summary_window : Text
  pub advanced_auth : Option AdvancedAuthSession

abbrev pub initial_dashboard : Dashboard
initial_dashboard = record {
  filters = record { subtract_network_floor = false; venues = all; window = default_window };
  chart_scale = log;
  cancel_chart_scenario = single;
  summary_window = default_summary_window;
  advanced_auth = none;
}

abbrev authenticated_of : Option AdvancedAuthSession → Bool
authenticated_of none = false
authenticated_of (some session) = session.authenticated

unfoldable pub is_advanced_authenticated : Dashboard → Bool
is_advanced_authenticated d = authenticated_of d.advanced_auth

-- The windows that the page offers.
abbrev pub offered_windows : Dashboard → List Text
offered_windows d = if is_advanced_authenticated d then window_options else public_window_options

abbrev pub offered_summary_windows : Dashboard → List Text
offered_summary_windows d =
    if is_advanced_authenticated d then summary_window_options else public_summary_window_options

abbrev pub with_window : Text → DashboardFilters → DashboardFilters
with_window window filters = record {
  subtract_network_floor = filters.subtract_network_floor;
  venues = filters.venues;
  window = window;
}

abbrev pub with_windows : Text → Text → Dashboard → Dashboard
with_windows window summary_window d = record {
  filters = with_window window d.filters;
  chart_scale = d.chart_scale;
  cancel_chart_scenario = d.cancel_chart_scenario;
  summary_window = summary_window;
  advanced_auth = d.advanced_auth;
}

-- An effect: a window that needs a session is replaced by the default without one.
abbrev pub settled : Bool → (Text → Bool) → Text → Text → Text
settled authenticated is_public default window =
    if not authenticated && not (is_public window) then default else window

-- The two effects that run when the page has been drawn.
unfoldable pub run_effects : Dashboard → Dashboard
unfolding is_advanced_authenticated
run_effects d =
    with_windows
      (settled (is_advanced_authenticated d) is_public_window_option default_window
        d.filters.window)
      (settled (is_advanced_authenticated d) is_public_summary_window_option default_summary_window
        d.summary_window)
      d

abbrev hidden_frontend_venues : List Text
hidden_frontend_venues = txt "edgex" ∷ []

unfoldable pub is_visible_venue : Text → Bool
unfolding to_lower includes_text ◌===◌
is_visible_venue venue = not (includes_text hidden_frontend_venues (to_lower venue))

unfoldable pub matches_venue : VenueFilter → Text → Bool
matches_venue all value = true
matches_venue (only venues) value = includes_text venues value

unfoldable pub selected_venue_list : VenueFilter → List Text → List Text
selected_venue_list all options = options
selected_venue_list (only venues) options = keep (includes_text options) venues

-- `value && value.length > 0 ? value : "unknown"`
abbrev pub order_type_of : Option Text → Text
order_type_of none = txt "unknown"
order_type_of (some value) = if is_blank value then txt "unknown" else value

unfoldable pub is_post_only_order : Option Text → Bool
unfolding to_lower ◌===◌
is_post_only_order value = to_lower (order_type_of value) === txt "post_only"

module _ {N : Type 0} where
  abbrev pub filter_summaries : DashboardFilters → List (SummaryRow N) → List (SummaryRow N)
  filter_summaries filters rows =
      keep (λ (row : SummaryRow N). matches_venue filters.venues row.venue) rows

  abbrev pub filter_samples : DashboardFilters → List (Sample N) → List (Sample N)
  filter_samples filters samples =
      keep (λ (sample : Sample N). matches_venue filters.venues sample.venue) samples

  abbrev pub visible_samples : List (Sample N) → List (Sample N)
  visible_samples samples = keep (λ (sample : Sample N). is_visible_venue sample.venue) samples

  abbrev pub visible_summaries : List (SummaryRow N) → List (SummaryRow N)
  visible_summaries rows = keep (λ (row : SummaryRow N). is_visible_venue row.venue) rows

  abbrev pub is_batch : Sample N → Bool
  is_batch sample = sample.scenario === txt "batch"

  -- The samples of the charts, before the selection of venues.
  unfoldable pub post_only_source_samples : List (Sample N) → List (Sample N)
  unfolding ◌===◌ is_visible_venue is_post_only_order
  post_only_source_samples measurements =
      keep (λ (s : Sample N). not (is_batch s) && is_post_only_order s.order_type)
        (visible_samples measurements)

  unfoldable pub batch_post_only_source_samples : List (Sample N) → List (Sample N)
  unfolding ◌===◌ is_visible_venue is_post_only_order
  batch_post_only_source_samples measurements =
      keep (λ (s : Sample N). is_batch s && is_post_only_order s.order_type)
        (visible_samples measurements)

  unfoldable pub taker_source_samples : List (Sample N) → List (Sample N)
  unfolding is_taker_order is_visible_venue
  taker_source_samples measurements =
      keep (λ (s : Sample N). is_taker_order s.order_type) (visible_samples measurements)

  -- What the charts show: post-only orders, those of a batch, taker orders, and cancellations.
  unfoldable pub post_only_samples : Dashboard → List (Sample N) → List (Sample N)
  unfolding post_only_source_samples matches_venue
  post_only_samples d measurements =
      filter_samples d.filters (post_only_source_samples measurements)

  unfoldable pub batch_post_only_samples : Dashboard → List (Sample N) → List (Sample N)
  unfolding batch_post_only_source_samples matches_venue
  batch_post_only_samples d measurements =
      filter_samples d.filters (batch_post_only_source_samples measurements)

  unfoldable pub taker_samples : Dashboard → List (Sample N) → List (Sample N)
  unfolding taker_source_samples matches_venue
  taker_samples d measurements = filter_samples d.filters (taker_source_samples measurements)

  unfoldable pub taker_cost_samples : Dashboard → List (Sample N) → List (Sample N)
  unfolding is_visible_venue matches_venue
  taker_cost_samples d measurements = filter_samples d.filters (visible_samples measurements)

  unfoldable pub cancel_samples : Dashboard → List (Sample N) → List (Sample N)
  unfolding post_only_samples batch_post_only_samples
  cancel_samples d measurements = elim d.cancel_chart_scenario [
    | batch ↦ batch_post_only_samples d measurements
    | single ↦ post_only_samples d measurements
  ]

  unfoldable pub exchange_tps_rows : Dashboard → List (ExchangeTpsRow N) → List (ExchangeTpsRow N)
  unfolding is_visible_venue matches_venue
  exchange_tps_rows d rows =
      keep
        (λ (row : ExchangeTpsRow N).
          is_visible_venue row.venue && matches_venue d.filters.venues row.venue)
        rows

  -- `collate` is whether `localeCompare` puts the first text at or before the second.
  unfoldable pub venues_for_samples : (Text → Text → Bool) → List (Sample N) → List Text
  unfolding unique_sorted
  venues_for_samples collate samples =
      unique_sorted collate (map (λ (s : Sample N). s.venue) samples)

  unfoldable pub exchange_tps_venues : (Text → Text → Bool) → List (ExchangeTpsSource N) → List Text
  unfolding unique_sorted is_visible_venue
  exchange_tps_venues collate sources =
      unique_sorted collate
        (keep is_visible_venue (map (λ (s : ExchangeTpsSource N). s.venue) sources))
