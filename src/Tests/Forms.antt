-- ===== src/Tests/Forms.antt =====
-- The selection, the exports and the login of the page at a few values
-- (frontend/src/components/dashboard/dashboard-page.tsx).
use perps_latency_benchmark.Prelude.{
  ◌≡◌, refl, inl, inr, true, false, not, none, List, [], ◌∷◌, All, Text, txt, ◌===◌, if◌then◌else◌,
}
use perps_latency_benchmark.Prelude.{trim, is_blank, includes_text, MemText}
use perps_latency_benchmark.Routes.{Server, get_latency_series, get_taker_cost_series}
use perps_latency_benchmark.Chart.Controls.{toggle_venue}
use perps_latency_benchmark.Dashboard.{
  initial_dashboard, VenueFilter, only, selected_venue_list, is_advanced_authenticated,
  offered_windows,
}
use perps_latency_benchmark.Dashboard.Toggle.{AreDistinct, IsSelection, toggle_venue-selected}
use perps_latency_benchmark.Dashboard.Loaders.Asked.{IsAsked, export_request, offered-IsAsked}
use perps_latency_benchmark.Dashboard.Login.{
  LoginForm, initial_login, change_open, change_password, submit, answer_observed, Reachable,
  mounted, next, opened_or_closed, typed, submitted, answered, IsTidy, can_submit,
}
use perps_latency_benchmark.Dashboard.Login.Tidy.{
  Reachable-IsTidy, Reachable-IsReady, Leads, IsReady,
}
use perps_latency_benchmark.Tests.Fixtures.{env, platform}

abbrev venues : List Text
venues = txt "a" ∷ txt "c" ∷ txt "d" ∷ []

abbrev chosen : VenueFilter
chosen = only (txt "a" ∷ txt "b" ∷ [])

venues-AreDistinct : AreDistinct venues
unfolding includes_text ◌===◌
venues-AreDistinct = (refl, (refl, (refl, tt)))

chosen-IsSelection : IsSelection chosen
unfolding includes_text ◌===◌
chosen-IsSelection = (refl, (refl, tt))

c-IsIncluded : includes_text venues (txt "c") ≡ true
unfolding includes_text ◌===◌
c-IsIncluded = refl

toggle_venue-selected_example :
    let selected = selected_venue_list chosen venues in
    let next = toggle_venue selected venues (txt "c") in
    IsSelection next
    × All
        (λ w.
          includes_text (selected_venue_list next venues) w
          ≡ (if w === txt "c" then not (includes_text selected w) else includes_text selected w))
        venues
toggle_venue-selected_example =
    toggle_venue-selected chosen venues (txt "c") venues-AreDistinct chosen-IsSelection c-IsIncluded

-- The venue `b`, which this chart does not have, is not selected any more in the other charts.
toggle_tests :
    toggle_venue (selected_venue_list chosen venues) venues (txt "c")
    ≡ only (txt "a" ∷ txt "c" ∷ [])
unfolding toggle_venue selected_venue_list
toggle_tests = refl

abbrev server : Server
server = record { env = env; platform = platform; session = none; cache = none }

no_session : is_advanced_authenticated initial_dashboard ≡ false
unfolding is_advanced_authenticated
no_session = refl

day-IsOffered : MemText (txt "24h") (offered_windows initial_dashboard)
unfolding is_advanced_authenticated
day-IsOffered = inr (inr (inl refl))

offered-IsAsked_example :
    IsAsked server
      (txt "/api/dashboard/latency-series")
      (txt "24h")
      (get_latency_series server (export_request (txt "24h")))
    × IsAsked server
        (txt "/api/dashboard/taker-cost-series")
        (txt "24h")
        (get_taker_cost_series server (export_request (txt "24h")))
offered-IsAsked_example =
    offered-IsAsked server initial_dashboard (txt "24h") (λ h. absurd (cc (h, no_session)))
      day-IsOffered

-- A password is typed and sent, and refused.
unfoldable filled : LoginForm
filled = change_password (txt " hunter2") (change_open true initial_login)

unfoldable refused : LoginForm
refused = answer_observed false (submit filled)

refused-Reachable : Reachable refused
unfolding refused filled initial_login change_open change_password submit can_submit
refused-Reachable =
    next
      (next
        (next (next mounted (opened_or_closed true initial_login))
          (typed (txt " hunter2") (change_open true initial_login) refl))
        (submitted filled refl refl))
      (answered false (txt "hunter2") (submit filled) refl)

Reachable-IsTidy_example : IsTidy refused
Reachable-IsTidy_example = Reachable-IsTidy refused-Reachable

key-IsText : is_blank (trim (txt "key")) ≡ false
unfolding trim
key-IsText = refl

Reachable-IsReady_example : (form : LoginForm) × Leads refused form × IsReady (txt "key") form
Reachable-IsReady_example = Reachable-IsReady (txt "key") refused-Reachable key-IsText
