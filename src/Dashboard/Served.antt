-- ===== src/Dashboard/Served.antt =====
-- The windows that the page asks for and the server's answer to them: dashboard-page.tsx of
-- frontend/src/components/dashboard against frontend/src/api/bench-window.server.ts.
use perps_latency_benchmark.Prelude.{
  ◌≡◌, refl, subst, Bool, true, false, some, [], ◌∷◌, arith, Text,
}
use perps_latency_benchmark.Http.{Env, ok, Outcome}
use perps_latency_benchmark.Auth.{Session}
use perps_latency_benchmark.Auth
use perps_latency_benchmark.Windows.{
  is_window_option, is_summary_window_option, is_public_window_option,
  is_public_summary_window_option, bench_window_to_api_param, summary_window_to_api_param,
  summary_window_limit, default_window, default_summary_window, option_or,
}
use perps_latency_benchmark.Windows.Access.{
  granted, Resolved, resolve_bench_window, resolve_summary_window, resolve_bench_window-Answers,
  resolve_summary_window-Answers, Answers,
}
use perps_latency_benchmark.Dashboard.{Dashboard, is_advanced_authenticated}
use perps_latency_benchmark.Dashboard.Session.{Reachable, Reachable-IsSettled}

-- An answer to a window that is open to all, or asked for with an authenticated session, grants it.
Answers-granted :
    {A : Type 0} (public : Bool) (session : Outcome Bool) (a : A) (answer : Outcome (Resolved A))
    → (public ≡ false → session ≡ ok true)
    → Answers public session a answer
    → answer ≡ ok (granted a)
Answers-granted true session a answer h k = k
Answers-granted false (ok true) a answer h k = k
Answers-granted false (ok false) a answer h k = ground (arith, h refl)
Answers-granted false (Outcome.thrown m) a answer h k = ground (arith, h refl)

option_or-known :
    (is_option : Text → Bool) (default window : Text)
    → is_option [] ≡ false
    → is_option window ≡ true
    → option_or is_option default (some window) ≡ window
option_or-known is_option default [] h k = cc (h, k)
option_or-known is_option default (c ∷ window) h k = rw k refl

blank-IsUnknown : is_window_option [] ≡ false
unfolding is_window_option
blank-IsUnknown = refl

blank-IsUnknown_summary : is_summary_window_option [] ≡ false
unfolding is_summary_window_option
blank-IsUnknown_summary = refl

-- What is false of the page without a session holds with one.
pub needs_session :
    (authenticated public : Bool) (session : Outcome Bool)
    → (authenticated ≡ true → session ≡ ok true)
    → (authenticated ≡ false → public ≡ true)
    → public ≡ false
    → session ≡ ok true
needs_session true public session h k e = h refl
needs_session false public session h k e = cc (k refl, e)

module _ (env : Env) (session : Session) where
  -- The answers to a window that is one of the options.
  bench-Answers :
      (window : Text)
      → is_window_option window ≡ true
      → Answers
          (is_public_window_option window)
          (Auth.is_advanced_authenticated env session)
          (record { api_window = bench_window_to_api_param window; window = window })
          (resolve_bench_window env session (some window))
  bench-Answers window h =
      subst
        (λ w.
          Answers (is_public_window_option w) (Auth.is_advanced_authenticated env session)
            (record { api_window = bench_window_to_api_param w; window = w })
            (resolve_bench_window env session (some window)))
        (option_or-known is_window_option default_window window blank-IsUnknown h)
        (resolve_bench_window-Answers env session (some window)).1

  summary-Answers :
      (window : Text)
      → is_summary_window_option window ≡ true
      → Answers
          (is_public_summary_window_option window)
          (Auth.is_advanced_authenticated env session)
          (record {
            api_window = summary_window_to_api_param window;
            limit = summary_window_limit window;
            window = window;
          })
          (resolve_summary_window env session (some window))
  unfolding summary_window_limit
  summary-Answers window h =
      subst
        (λ w.
          Answers (is_public_summary_window_option w) (Auth.is_advanced_authenticated env session)
            (record {
              api_window = summary_window_to_api_param w;
              limit = summary_window_limit w;
              window = w;
            })
            (resolve_summary_window env session (some window)))
        (option_or-known is_summary_window_option default_summary_window window
          blank-IsUnknown_summary h)
        (resolve_summary_window-Answers env session (some window)).1

  -- A window that is an option is granted where it is open to all or the session is authenticated.
  pub resolve-granted :
      (window : Text)
      → is_window_option window ≡ true
      → (is_public_window_option window ≡ false
          → Auth.is_advanced_authenticated env session ≡ ok true)
      → resolve_bench_window env session (some window)
        ≡ ok (granted record { api_window = bench_window_to_api_param window; window = window })
  resolve-granted window h k =
      Answers-granted (is_public_window_option window) (Auth.is_advanced_authenticated env session)
        (record { api_window = bench_window_to_api_param window; window = window })
        (resolve_bench_window env session (some window)) k (bench-Answers window h)

  -- The server grants the window of the charts and that of the summaries as they are asked for.
  abbrev pub IsServed : Dashboard → Type 0
  IsServed d =
      (resolve_bench_window env session (some d.filters.window)
        ≡ ok (
            granted record {
              api_window = bench_window_to_api_param d.filters.window;
              window = d.filters.window;
            }))
      × (resolve_summary_window env session (some d.summary_window)
          ≡ ok (
              granted record {
                api_window = summary_window_to_api_param d.summary_window;
                limit = summary_window_limit d.summary_window;
                window = d.summary_window;
              }))

  -- Whatever was chosen on the page and whatever the session query answered: once the effects have run,
  -- the server grants both windows as they are asked for, if it takes the session to be authenticated
  -- where the page does.
  pub Reachable-IsServed :
      {d : Dashboard}
      → Reachable d
      → (is_advanced_authenticated d ≡ true → Auth.is_advanced_authenticated env session ≡ ok true)
      → IsServed d
  Reachable-IsServed {d} r h =
      let s = Reachable-IsSettled r in
      let charts = d.filters.window in
      let summaries = d.summary_window in
      (
        resolve-granted charts s.window_known
            (needs_session (is_advanced_authenticated d) _ _ h s.window_open),
        Answers-granted (is_public_summary_window_option summaries)
            (Auth.is_advanced_authenticated env session)
            (record {
              api_window = summary_window_to_api_param summaries;
              limit = summary_window_limit summaries;
              window = summaries;
            })
            (resolve_summary_window env session (some summaries))
            (needs_session (is_advanced_authenticated d) _ _ h s.summary_open)
            (summary-Answers summaries s.summary_known),
      )
