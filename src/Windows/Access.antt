-- ===== src/Windows/Access.antt =====
-- `resolveBenchWindow` and `resolveSummaryWindow` (frontend/src/api/bench-window.server.ts): which
-- windows a request may read.
use perps_latency_benchmark.Prelude.{
  is_blank, not, ℕ, ◌≡◌, refl, inl, inr, Bool, true, false, Option, none, some, List, Text, txt,
  arith, Bool-cases, ◌===◌, if◌then◌else◌, MemText, includes_text_iff, includes_text, ◌&&◌, not,
  is_blank,
}
use perps_latency_benchmark.Http.{Outcome, ok, thrown, ◌>>=◌, Env, Response}
use perps_latency_benchmark.Auth.{
  auth_error, Session, require_advanced_auth, is_advanced_authenticated,
}
use perps_latency_benchmark.Windows.{
  default_window, default_summary_window, is_window_option, is_public_window_option, window_options,
  summary_window_options, is_summary_window_option, is_public_summary_window_option,
  bench_window_to_api_param, summary_window_to_api_param, summary_window_limit, option_or,
}

pub record BenchWindow : Type 0 where
  pub api_window : Text
  pub window : Text

pub record SummaryWindow : Type 0 where
  pub api_window : Text
  pub limit : ℕ
  pub window : Text

pub data Resolved (A : Type 0) : Type 0 where
  granted : A → Resolved A
  response : Response → Resolved A

abbrev resolution : {A : Type 0} → A → Option Response → Resolved A
resolution a none = granted a
resolution a (some r) = response r

-- The window that a request asks for; an unknown one is the default.
abbrev pub bench_window_of : Option Text → Text
bench_window_of value = option_or is_window_option default_window value

abbrev pub summary_window_of : Option Text → Text
summary_window_of value = option_or is_summary_window_option default_summary_window value

unfoldable pub resolve_bench_window : Env → Session → Option Text → Outcome (Resolved BenchWindow)
resolve_bench_window env session value =
    let window = bench_window_of value in
    let result : BenchWindow = record {
      api_window = bench_window_to_api_param window;
      window = window;
    } in
    if is_public_window_option window
    then ok (granted result)
    else require_advanced_auth env session >>= λ auth_error. ok (resolution result auth_error)

unfoldable pub resolve_summary_window :
    Env → Session → Option Text → Outcome (Resolved SummaryWindow)
resolve_summary_window env session value =
    let window = summary_window_of value in
    let result : SummaryWindow = record {
      api_window = summary_window_to_api_param window;
      limit = summary_window_limit window;
      window = window;
    } in
    if is_public_summary_window_option window
    then ok (granted result)
    else require_advanced_auth env session >>= λ auth_error. ok (resolution result auth_error)

-- What a request for a window is answered: the window, where it is public or the session is
-- authenticated, else 401; and the error, where the session cannot be opened.
abbrev pub Answers : {A : Type 0} → Bool → Outcome Bool → A → Outcome (Resolved A) → Type 0
Answers true authenticated a o = o ≡ ok (granted a)
Answers false (ok true) a o = o ≡ ok (granted a)
Answers false (ok false) a o = (r : Response) × (o ≡ ok (response r)) × (r.status ≡ 401)
Answers false (thrown m) a o = o ≡ thrown m

Answers-if :
    {A : Type 0} (public : Bool) (authenticated : Outcome Bool) (a : A)
    → Answers public authenticated a (
        if public
        then ok (granted a)
        else authenticated >>= (λ b. ok (auth_error b)) >>= λ e. ok (resolution a e))
Answers-if true authenticated a = refl
Answers-if false (ok true) a = refl
Answers-if false (ok false) a = (_, refl, refl)
Answers-if false (thrown m) a = refl

option_or-Mem :
    (options : List Text) (default : Text) (value : Option Text)
    → MemText default options
    → MemText (option_or (includes_text options) default value) options
option_or-Mem options default none d = d
option_or-Mem options default (some v) d =
    elim (Bool-cases (not (is_blank v) && includes_text options v)) [
      | inl asked ↦ rw asked ((includes_text_iff options v).0 (ground arith))
      | inr other ↦ rw other d
    ]

pub resolve_bench_window-Answers :
    (env : Env) (s : Session) (value : Option Text)
    → let window = bench_window_of value in
      MemText window window_options
      × Answers
          (is_public_window_option window)
          (is_advanced_authenticated env s)
          (record { api_window = bench_window_to_api_param window; window = window })
          (resolve_bench_window env s value)
unfolding resolve_bench_window require_advanced_auth is_window_option
resolve_bench_window-Answers env s value = (
  option_or-Mem window_options default_window value (inr (inl refl)),
  Answers-if _ (is_advanced_authenticated env s) _,
)

-- For every query parameter and session: the summaries up to a day and of all time are open to all,
-- with at most a million samples for all time and a hundred thousand otherwise, and those of a week
-- and more are answered 401 without an authenticated session. The parameter is the asked window, or
-- 24h for a missing or unknown one.
pub resolve_summary_window-Answers :
    (env : Env) (s : Session) (value : Option Text)
    → let window = summary_window_of value in
      MemText window summary_window_options
      × Answers
          (is_public_summary_window_option window)
          (is_advanced_authenticated env s)
          (record {
            api_window = summary_window_to_api_param window;
            limit = if window === txt "all" then 1_000_000 else 100_000;
            window = window;
          })
          (resolve_summary_window env s value)
unfolding resolve_summary_window require_advanced_auth is_summary_window_option summary_window_limit
resolve_summary_window-Answers env s value = (
  option_or-Mem summary_window_options default_summary_window value (inr (inr (inl refl))),
  Answers-if _ (is_advanced_authenticated env s) _,
)
