-- ===== src/Windows/Fetch.antt =====
-- The requests of the browser (fetchJSON, postJSON, loginAdvanced and logoutAdvanced of
-- frontend/src/api/bench.ts). `fetch` is the browser's, and gives a reply or throws; reading the body as
-- JSON of a type may throw, and the type is the one it is cast to.
use perps_latency_benchmark.Prelude.{ℕ, Bool, List, [], ◌∷◌, ◌++◌, Text, txt, if◌then◌else◌}
use perps_latency_benchmark.Prelude.{decimal}
use perps_latency_benchmark.Http.{Outcome, thrown, ◌>>=◌}
use perps_latency_benchmark.Json.{Json, str, obj, field, end}
use perps_latency_benchmark.Data.{AdvancedAuthSession}

pub record Reply (A : Type 0) : Type 0 where
  pub is_ok : Bool
  pub status : ℕ
  pub json : Outcome A

-- A request with a body: its method, its headers and the body that is made a text.
pub record PostOptions : Type 0 where
  pub body : Json
  pub headers : List (Text × Text)
  pub method : Text

module _ {A : Type 0} where
  -- `if (!response.ok) throw new Error(`Request failed: ${response.status}`)`
  abbrev pub read_json : Reply A → Outcome A
  unfolding decimal
  read_json reply =
      if reply.is_ok then reply.json else thrown (txt "Request failed: " ++ decimal reply.status)

  unfoldable pub fetch_json : (Text → Outcome (Reply A)) → Text → Outcome A
  unfolding decimal
  fetch_json fetch path = fetch path >>= λ reply. read_json reply

  unfoldable pub post_json : (Text → PostOptions → Outcome (Reply A)) → Text → Json → Outcome A
  unfolding decimal
  post_json fetch path body =
      fetch path record {
        body = body;
        headers = (txt "Content-Type", txt "application/json") ∷ [];
        method = txt "POST";
      }
      >>= λ reply. read_json reply

-- The requests of the login and the logout.
unfoldable pub login_advanced :
    (Text → PostOptions → Outcome (Reply AdvancedAuthSession)) → Text → Outcome AdvancedAuthSession
unfolding post_json
login_advanced fetch password =
    post_json fetch (txt "/api/bench/auth/login") (obj (field (txt "password") (str password) end))

unfoldable pub logout_advanced :
    (Text → PostOptions → Outcome (Reply AdvancedAuthSession)) → Outcome AdvancedAuthSession
unfolding post_json
logout_advanced fetch = post_json fetch (txt "/api/bench/auth/logout") (obj end)
