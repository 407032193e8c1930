-- ===== src/Auth/Grants.antt =====
-- Which requests authenticate a session (frontend/src/api/advanced-auth.server.ts).
use perps_latency_benchmark.Prelude.{
  ◌≡◌, refl, ap, ◌⊎◌, inl, inr, true, Option, none, some, List, [], ◌∷◌, ◌++◌, Text, All,
}
use perps_latency_benchmark.Json.{Json}
use perps_latency_benchmark.Http.{Env, read_env}
use perps_latency_benchmark.Auth.{Session, secret_name}
use perps_latency_benchmark.Auth.Sessions.{
  AuthRequest, login, logout, status, Accepts, run_auth, handle_auth, handle_auth-login,
  handle_auth-logout, handle_auth-status, handle_auth-logout_none,
}

abbrev pub IsLogout : AuthRequest → Type 0
IsLogout logout = Unit
IsLogout _ = ⊥

-- The requests contain an accepted login with no logout behind it.
pub record GrantedBy (env : Env) (requests : List AuthRequest) : Type 0 where
  pub before : List AuthRequest
  pub body : Option Json
  pub after : List AuthRequest
  pub in_order : requests ≡ before ++ login body ∷ after
  pub accepted : Accepts env body
  pub no_logout : All (λ e. ¬ IsLogout e) after

module _ (env : Env) where
  later : {e : AuthRequest} {es : List AuthRequest} → GrantedBy env es → GrantedBy env (e ∷ es)
  later {e} g = record {
    before = e ∷ g.before;
    body = g.body;
    after = g.after;
    in_order = ap (λ (l : List AuthRequest). e ∷ l) g.in_order;
    accepted = g.accepted;
    no_logout = g.no_logout;
  }

  -- Every authenticated session was so at the start, with no logout since, or was granted.
  run_auth-cases :
      (k : Text)
      → read_env env secret_name ≡ some k
      → (s : Session) (es : List AuthRequest) → run_auth env s es ≡ some true
      → ((s ≡ some true) × All (λ e. ¬ IsLogout e) es) ⊎ GrantedBy env es
  unfolding run_auth
  run_auth-cases k e s [] h = inl (h, tt)
  run_auth-cases k e s (logout ∷ es) h = elim (run_auth-cases k e (handle_auth env s logout) es h) [
    | inl kept ↦ cc (handle_auth-logout env s k e, kept.0)
    | inr g ↦ inr (later g)
  ]
  run_auth-cases k e s (status ∷ es) h = elim (run_auth-cases k e (handle_auth env s status) es h) [
    | inl kept ↦ inl (cc (handle_auth-status env s, kept.0), ((λ n. n), kept.1))
    | inr g ↦ inr (later g)
  ]
  run_auth-cases k e s (login body ∷ es) h =
      elim (run_auth-cases k e (handle_auth env s (login body)) es h) [
        | inr g ↦ inr (later g)
        | inl kept ↦ elim (handle_auth-login env s body) [
          | inl granted ↦ inr (record {
            before = [];
            body = body;
            after = es;
            in_order = refl;
            accepted = granted.1;
            no_logout = kept.1;
          })
          | inr refused ↦ inl (cc, ((λ n. n), kept.1))
        ]
      ]

  -- Without the secret no login is accepted, and the session never changes.
  run_auth_of_no_secret :
      read_env env secret_name ≡ none → (es : List AuthRequest) → run_auth env none es ≡ none
  unfolding run_auth
  run_auth_of_no_secret e [] = refl
  run_auth_of_no_secret e (logout ∷ es) =
      rw (handle_auth-logout_none env) (run_auth_of_no_secret e es)
  run_auth_of_no_secret e (status ∷ es) =
      rw (handle_auth-status env none) (run_auth_of_no_secret e es)
  run_auth_of_no_secret e (login body ∷ es) = elim (handle_auth-login env none body) [
    | inl granted ↦ cc (granted.1.has_secret)
    | inr refused ↦ rw (refused.0) (run_auth_of_no_secret e es)
  ]

  -- Whatever requests come from a fresh session, it is authenticated only if some login held the
  -- configured password, with both secrets configured, and no logout came after that login.
  pub run_auth-GrantedBy :
      (es : List AuthRequest) → run_auth env none es ≡ some true → GrantedBy env es
  run_auth-GrantedBy es h = go (read_env env secret_name) refl
    where
      go : (q : Option Text) → read_env env secret_name ≡ q → GrantedBy env es
      go none e = cc (run_auth_of_no_secret e es)
      go (some k) e = elim (run_auth-cases k e none es h) [ inl kept ↦ cc (kept.0) | inr g ↦ g ]
