-- ===== src/Dashboard/Loaders.antt =====
-- What the exports of the page load (fetchDashboardJSON and the load functions of
-- frontend/src/components/dashboard/dashboard-page.tsx). `fetch` is the browser's, as in Windows.Fetch.
pub mod Asked
use perps_latency_benchmark.Prelude.{
  ℕ, zero, suc, ◌+◌, ◌-◌, ◌*◌, ◌/◌, ◌%◌, ◌≤◌, ◌<◌, ◌≡◌, refl, sym, ap, ◌∙◌, subst, ◌≢◌, ◌↔◌, ◌⊎◌,
  inl, inr, Bool, true, false, not, ◌&&◌, ◌||◌, Option, none, some, List, [], ◌∷◌, ◌++◌, map, arith,
  length, get_elem?, keep, any, All, All-map, All-imp, get_elem?-IsInside, Text, txt, ◌===◌,
  ===_iff, ltb, leb, ◌==◌, ==_iff, Bool-cases, if◌then◌else◌, value_or, min, max,
}
use perps_latency_benchmark.Prelude.{decimal}
use perps_latency_benchmark.Http.{Outcome, ok, thrown, ◌>>=◌}
use perps_latency_benchmark.Csv.{join}
use perps_latency_benchmark.Data.{Sample, SamplesResponse}
use perps_latency_benchmark.Windows.Fetch.{Reply}
use perps_latency_benchmark.TakerCost.{is_taker_order}
use perps_latency_benchmark.Dashboard.{
  Dashboard, single, batch, CancelChartScenario, DashboardFilters, visible_samples, filter_samples,
  is_batch, is_post_only_order, is_visible_venue, matches_venue, VenueFilter, selected_venue_list,
}

abbrev pub series_url : Text → Text → Text
series_url base window = base ++ (txt "?window=" ++ (window ++ txt "&limit=100000"))

unfoldable pub fetch_dashboard_json : {A : Type 0} → (Text → Outcome (Reply A)) → Text → Outcome A
unfolding decimal
fetch_dashboard_json fetch path = fetch path >>= λ response.
    if response.is_ok
    then response.json
    else thrown (txt "Request failed: " ++ decimal response.status)

-- `/api/bench/exchange-tps-export?${params}`; `encode` is what URLSearchParams makes of a value.
unfoldable pub tps_export_href : (Text → Text) → Text → VenueFilter → List Text → Text
unfolding selected_venue_list
tps_export_href encode window filter venues =
    txt "/api/bench/exchange-tps-export?window="
    ++ (encode window ++ (txt "&venues=" ++ encode (join b',' (selected_venue_list filter venues))))

module _ {N : Type 0} (fetch : Text → Outcome (Reply (SamplesResponse N))) where
  unfoldable pub load_latency_export_samples : Text → Outcome (List (Sample N))
  unfolding fetch_dashboard_json is_visible_venue
  load_latency_export_samples window =
      fetch_dashboard_json fetch (series_url (txt "/api/bench/latency-series") window) >>= λ answer.
      ok (visible_samples answer.samples)

  -- The samples of post-only orders, alone or in a batch.
  unfoldable pub load_post_only_export_samples : DashboardFilters → Text → Outcome (List (Sample N))
  unfolding load_latency_export_samples is_post_only_order matches_venue
  load_post_only_export_samples filters window = load_latency_export_samples window >>= λ samples.
      ok (
        filter_samples filters
          (keep (λ (s : Sample N). not (is_batch s) && is_post_only_order s.order_type) samples))

  unfoldable pub load_batch_post_only_export_samples :
      DashboardFilters → Text → Outcome (List (Sample N))
  unfolding load_latency_export_samples is_post_only_order matches_venue
  load_batch_post_only_export_samples filters window =
      load_latency_export_samples window >>= λ samples. ok (
        filter_samples filters
          (keep (λ (s : Sample N). is_batch s && is_post_only_order s.order_type) samples))

  unfoldable pub load_taker_export_samples : DashboardFilters → Text → Outcome (List (Sample N))
  unfolding load_latency_export_samples is_taker_order matches_venue
  load_taker_export_samples filters window = load_latency_export_samples window >>= λ samples.
      ok (filter_samples filters (keep (λ (s : Sample N). is_taker_order s.order_type) samples))

  unfoldable pub load_cancel_export_samples :
      CancelChartScenario → DashboardFilters → Text → Outcome (List (Sample N))
  unfolding load_batch_post_only_export_samples load_post_only_export_samples
  load_cancel_export_samples batch filters window =
      load_batch_post_only_export_samples filters window
  load_cancel_export_samples single filters window = load_post_only_export_samples filters window

  unfoldable pub load_taker_cost_export_samples :
      DashboardFilters → Text → Outcome (List (Sample N))
  unfolding fetch_dashboard_json is_visible_venue matches_venue
  load_taker_cost_export_samples filters window =
      fetch_dashboard_json fetch (series_url (txt "/api/bench/taker-cost-series") window)
      >>= λ answer. ok (filter_samples filters (visible_samples answer.samples))
