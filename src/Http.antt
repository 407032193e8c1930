-- ===== src/Http.antt =====
-- The environment, responses and thrown errors of the server's handlers
-- (frontend/src/api/bench.server.ts, frontend/src/api/advanced-auth.server.ts).
use perps_latency_benchmark.Prelude.{
  ℕ, Option, none, some, List, Text, trim, is_blank, or_option, if◌then◌else◌,
}
use perps_latency_benchmark.Json.{Json}

-- A computation that may throw; the error is its message.
pub data Outcome {ℓ} (A : Type ℓ) : Type ℓ where
  ok : A → Outcome A
  thrown : Text → Outcome A

infixl 5 ◌>>=◌
abbrev pub ◌>>=◌ {ℓ κ} : {A : Type ℓ} {B : Type κ} → Outcome A → (A → Outcome B) → Outcome B
ok a >>= f = f a
thrown e >>= f = thrown e

-- The Worker's bindings and the process environment.
pub record Env : Type 0 where
  pub binding : Text → Option Text
  pub process : Text → Option Text

-- A trimmed value that is not empty.
abbrev trimmed : Option Text → Option Text
trimmed none = none
trimmed (some v) = let t = trim v in if is_blank t then none else some t

unfoldable pub read_env : Env → Text → Option Text
unfolding trim
read_env env name = trimmed (or_option (env.binding name) (env.process name))

pub record Response : Type 0 where
  pub status : ℕ
  pub headers : List (Text × Text)
  pub body : Json
