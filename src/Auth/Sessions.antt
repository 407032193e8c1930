-- ===== src/Auth/Sessions.antt =====
-- What a sequence of requests to the routes frontend/src/routes/api/bench/auth/login.ts, logout.ts
-- and session.ts does to a session (frontend/src/api/advanced-auth.server.ts).
use perps_latency_benchmark.Prelude.{
  ◌≡◌, refl, ◌⊎◌, inl, inr, true, false, Option, none, some, List, [], ◌∷◌, Text, Bool-cases,
}
use perps_latency_benchmark.Json.{Json}
use perps_latency_benchmark.Http.{Outcome, ok, thrown, ◌>>=◌, Env, read_env, Response}
use perps_latency_benchmark.Auth.{
  advanced_auth_configured, Session, SessionConfig, session_reply, constant_time_equal,
  password_name, secret_name, password_of, advanced_session_config, create_advanced_login_response,
  create_advanced_logout_response, login_with,
}
use perps_latency_benchmark.Auth.Compare.{constant_time_equal_iff}

pub data AuthRequest : Type 0 where
  login : Option Json → AuthRequest
  logout status : AuthRequest

abbrev pub session_after : Outcome (Response × Session) → Session → Session
session_after (ok (_, s)) old = s
session_after (thrown _) old = old

-- A handler that throws leaves the cookie as it was.
unfoldable pub handle_auth : Env → Session → AuthRequest → Session
handle_auth env s (login body) = session_after (create_advanced_login_response env body s) s
handle_auth env s logout = session_after (create_advanced_logout_response env s) s
handle_auth env s status = s

unfoldable pub run_auth : Env → Session → List AuthRequest → Session
run_auth env s [] = s
run_auth env s (e ∷ es) = run_auth env (handle_auth env s e) es

-- The body holds the configured password, and both secrets are configured.
pub record Accepts (env : Env) (body : Option Json) : Type 0 where
  pub configured : read_env env password_name ≡ some (password_of body)
  pub secret : Text
  pub has_secret : read_env env secret_name ≡ some secret

-- A login's reply says that the session is authenticated, and the session is.
abbrev pub IsAuthorized : Outcome (Response × Session) → Type 0
IsAuthorized (ok (r, s)) = (r.status ≡ 200) × (s ≡ some true)
IsAuthorized (thrown _) = ⊥

-- A login's reply is a refusal, and the session is the old one.
abbrev pub IsRefused : Session → Outcome (Response × Session) → Type 0
IsRefused old (ok (r, s)) = ((r.status ≡ 401) ⊎ (r.status ≡ 503)) × (s ≡ old)
IsRefused old (thrown _) = ⊥

module _ (env : Env) (body : Option Json) (s : Session) where
  login_with-cases :
      (p q : Option Text)
      → read_env env password_name ≡ p
      → read_env env secret_name ≡ q
      → (IsAuthorized (login_with env p q body s) × Accepts env body)
        ⊎ (IsRefused s (login_with env p q body s) × ¬ Accepts env body)
  unfolding advanced_session_config
  login_with-cases (some c) (some k) ep eq =
      elim (Bool-cases (constant_time_equal (password_of body) c)) [
        | inl same ↦ inl (
          rw (same, eq) (refl, refl),
          record {
            configured = cc ((constant_time_equal_iff (password_of body) c).0 same);
            secret = k;
            has_secret = eq;
          },
        )
        | inr other ↦ inr (
          rw other (inl refl, refl),
          λ a. cc ((constant_time_equal_iff (password_of body) c).1 (cc (a.configured))),
        )
      ]
  login_with-cases none q ep eq = inr ((inr refl, refl), λ a. cc (a.configured))
  login_with-cases (some c) none ep eq = inr ((inr refl, refl), λ a. cc (a.has_secret))

  pub create_advanced_login_response-cases :
      (IsAuthorized (create_advanced_login_response env body s) × Accepts env body)
      ⊎ (IsRefused s (create_advanced_login_response env body s) × ¬ Accepts env body)
  unfolding create_advanced_login_response
  create_advanced_login_response-cases = login_with-cases _ _ refl refl

-- With the secret configured a logout clears the session.
pub handle_auth-logout :
    (env : Env) (s : Session) (k : Text)
    → read_env env secret_name ≡ some k
    → handle_auth env s logout ≡ none
unfolding handle_auth create_advanced_logout_response
handle_auth-logout env s k e = rw e

pub handle_auth-login :
    (env : Env) (s : Session) (body : Option Json)
    → ((handle_auth env s (login body) ≡ some true) × Accepts env body)
      ⊎ ((handle_auth env s (login body) ≡ s) × ¬ Accepts env body)
unfolding handle_auth
handle_auth-login env s body =
    go (create_advanced_login_response env body s) (create_advanced_login_response-cases env body s)
  where
    go :
        (o : Outcome (Response × Session))
        → (IsAuthorized o × Accepts env body) ⊎ (IsRefused s o × ¬ Accepts env body)
        → ((session_after o s ≡ some true) × Accepts env body)
          ⊎ ((session_after o s ≡ s) × ¬ Accepts env body)
    go (ok (r, s')) (inl (h, a)) = inl (h.1, a)
    go (ok (r, s')) (inr (h, n)) = inr (h.1, n)
    go (thrown m) (inl (h, a)) = inl (absurd h, a)
    go (thrown m) (inr (h, n)) = inr (refl, n)

pub handle_auth-status : (env : Env) (s : Session) → handle_auth env s status ≡ s
unfolding handle_auth
handle_auth-status env s = refl

-- A logout never brings a session to life.
pub handle_auth-logout_none : (env : Env) → handle_auth env none logout ≡ none
unfolding handle_auth create_advanced_logout_response
handle_auth-logout_none env = go (advanced_session_config env)
  where
    go :
        (o : Outcome SessionConfig)
        → session_after
            (o >>= λ _. ok (session_reply false (advanced_auth_configured env) none 200, none))
            none
          ≡ none
    go (ok c) = refl
    go (thrown m) = refl
