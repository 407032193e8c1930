-- ===== src/Auth.antt =====
-- The advanced session (frontend/src/api/advanced-auth.server.ts). The session cookie is sealed by
-- the server framework; what the code reads and writes of it is the field `advanced`, so a session
-- is `Option Bool`, with `none` for a cleared one. Requests are handled one at a time.
mod Bits
pub mod Compare
pub mod Sessions
pub mod Grants
use Prim.Native.Nat.{bit_or, bit_xor}
use perps_latency_benchmark.Prelude.{
  ℕ, zero, suc, ◌+◌, ◌*◌, max, Bool, true, false, ◌&&◌, not, Option, none, some, List, [], ◌∷◌,
  Text, txt, ◌===◌, length, get_elem?, value_or, ◌==◌, if◌then◌else◌, ◌≡◌, refl,
}
use perps_latency_benchmark.Json
use perps_latency_benchmark.Json.{Json, obj, str, bool, omit_undefined}
use perps_latency_benchmark.Http.{Outcome, ok, thrown, ◌>>=◌, Env, read_env, Response}

abbrev pub advanced_auth_ttl_seconds : ℕ
advanced_auth_ttl_seconds = 30 * 24 * 60 * 60

abbrev pub Session : Type 0
Session = Option Bool

pub record SessionConfig : Type 0 where
  pub secure : Bool
  pub max_age : ℕ
  pub name : Text
  pub password : Text

-- `left.charCodeAt(index) || 0`
abbrev pub unit_at : Text → ℕ → ℕ
unit_at s i = value_or (get_elem? s i) 0

-- The loop at `index`, with `left` rounds to go. JavaScript's operators work on 32 bits, which hold
-- both a code unit and the length of a string.
abbrev pub diff_from : ℕ → ℕ → ℕ → Text → Text → ℕ
diff_from zero index diff left right = diff
diff_from (suc rounds) index diff left right =
    diff_from rounds (suc index) (bit_or diff (bit_xor (unit_at left index) (unit_at right index)))
      left right

unfoldable pub constant_time_equal : Text → Text → Bool
constant_time_equal left right =
    diff_from (max (length left) (length right)) 0 (bit_xor (length left) (length right)) left right
    == 0

-- `isRecord(value)` of this file: arrays are no records.
abbrev pub is_plain_record : Json → Bool
is_plain_record (obj _) = true
is_plain_record _ = false

unfoldable pub private_no_store_headers : List (Text × Text)
private_no_store_headers =
    (txt "Cache-Control", txt "private, no-store") ∷ (txt "Vary", txt "Cookie, Authorization") ∷ []

abbrev pub password_name : Text
password_name = txt "PERPS_BENCH_ADVANCED_PASSWORD"

abbrev pub secret_name : Text
secret_name = txt "PERPS_BENCH_AUTH_SECRET"

abbrev pub is_production : Env → Bool
is_production env = elim (env.process (txt "NODE_ENV")) [
  | none ↦ false
  | some v ↦ v === txt "production"
]

unfoldable pub fallback_dev_secret : Env → Outcome Text
unfolding ◌===◌
fallback_dev_secret env =
    if is_production env
    then thrown (txt "PERPS_BENCH_AUTH_SECRET is not configured")
    else ok (txt "development-only-perps-bench-auth-secret-32-chars")

abbrev pub session_secret : Env → Option Text → Outcome Text
session_secret env (some secret) = ok secret
session_secret env none = fallback_dev_secret env

unfoldable pub advanced_session_config : Env → Outcome SessionConfig
unfolding fallback_dev_secret ◌===◌
advanced_session_config env = session_secret env (read_env env secret_name) >>= λ secret.
    ok (record {
      secure = is_production env;
      max_age = advanced_auth_ttl_seconds;
      name = txt "perps-bench-advanced";
      password = secret;
    })

abbrev pub is_some : Option Text → Bool
is_some none = false
is_some (some _) = true

unfoldable pub advanced_auth_configured : Env → Bool
advanced_auth_configured env =
    is_some (read_env env password_name) && is_some (read_env env secret_name)

-- `session.data.advanced === true`, after the session was opened.
unfoldable pub is_advanced_authenticated : Env → Session → Outcome Bool
unfolding advanced_session_config
is_advanced_authenticated env session =
    advanced_session_config env >>= λ _. ok (value_or session false)

abbrev pub reply : ℕ → List (Text × Option Json) → Response
reply status fields = record {
  status = status;
  headers = private_no_store_headers;
  body = obj (omit_undefined fields);
}

abbrev pub auth_error : Bool → Option Response
auth_error true = none
auth_error false = some (
    reply 401 (
      (txt "ok", some (bool false))
      ∷ (txt "error", some (str (txt "advanced authentication required")))
      ∷ []))

-- `null` is `none`: the request may go on.
unfoldable pub require_advanced_auth : Env → Session → Outcome (Option Response)
require_advanced_auth env session =
    is_advanced_authenticated env session >>= λ authenticated. ok (auth_error authenticated)

unfoldable pub advanced_auth_status : Env → Session → Outcome (List (Text × Option Json))
unfolding is_advanced_authenticated advanced_auth_configured
advanced_auth_status env session =
    let enabled = advanced_auth_configured env in
    (if enabled then is_advanced_authenticated env session else ok false) >>= λ authenticated.
    ok
      ((txt "authenticated", some (bool authenticated)) ∷ (txt "enabled", some (bool enabled)) ∷ [])

-- The password of a login's body; `none` is a body that is no JSON.
unfoldable pub password_of : Option Json → Text
password_of none = []
password_of (some body) =
    if is_plain_record body
    then elim (Json.get (txt "password") body) [ some (str p) ↦ p | _ ↦ [] ]
    else []

abbrev pub session_reply : Bool → Bool → Option Text → ℕ → Response
session_reply authenticated enabled error status = reply status (
    (txt "authenticated", some (bool authenticated))
    ∷ (txt "enabled", some (bool enabled))
    ∷ (txt "error", elim error [ none ↦ none | some e ↦ some (str e) ])
    ∷ [])

-- `!configuredPassword || !readAuthEnv("PERPS_BENCH_AUTH_SECRET")`, by the value of each.
abbrev pub login_with :
    Env → Option Text → Option Text → Option Json → Session → Outcome (Response × Session)
login_with env (some configured) (some _) body session =
    if not (constant_time_equal (password_of body) configured)
    then ok (session_reply false true (some (txt "invalid password")) 401, session)
    else advanced_session_config env >>= λ _. ok (session_reply true true none 200, some true)
login_with env _ _ body session =
    ok (session_reply false false (some (txt "advanced auth is not configured")) 503, session)

unfoldable pub create_advanced_login_response :
    Env → Option Json → Session → Outcome (Response × Session)
create_advanced_login_response env body session =
    login_with env (read_env env password_name) (read_env env secret_name) body session

unfoldable pub create_advanced_logout_response : Env → Session → Outcome (Response × Session)
unfolding advanced_session_config advanced_auth_configured
create_advanced_logout_response env session = advanced_session_config env >>= λ _.
    ok (session_reply false (advanced_auth_configured env) none 200, none)
