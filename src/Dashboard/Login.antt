-- ===== src/Dashboard/Login.antt =====
-- The login of the page (AdvancedAuthControls of frontend/src/components/dashboard/dashboard-page.tsx): its
-- dialog and the requests it sends, which are answered at any time and in any order. A request is observed
-- until the dialog is closed, which resets the mutation; its handlers are called all the same.
pub mod Tidy
use perps_latency_benchmark.Prelude.{
  ℕ, zero, suc, ◌+◌, ◌-◌, ◌*◌, ◌/◌, ◌%◌, ◌≤◌, ◌<◌, ◌≡◌, refl, sym, ap, ◌∙◌, subst, ◌≢◌, ◌↔◌, ◌⊎◌,
  inl, inr, Bool, true, false, not, ◌&&◌, ◌||◌, Option, none, some, List, [], ◌∷◌, ◌++◌, map, arith,
  length, get_elem?, keep, any, All, All-map, All-imp, get_elem?-IsInside, Text, txt, ◌===◌,
  ===_iff, ltb, leb, ◌==◌, ==_iff, Bool-cases, if◌then◌else◌, value_or, min, max,
}
use perps_latency_benchmark.Prelude.{trim, is_blank}

-- The mutation as the dialog sees it.
pub data LoginStatus : Type 0 where
  idle pending failed succeeded : LoginStatus

-- The hooks, the request that is observed, those that are not any more, all passwords that were sent, the
-- last one first, and how often the session was asked for again.
pub record LoginForm : Type 0 where
  pub password : Text
  pub open_now : Bool
  pub status : LoginStatus
  pub observed : Option Text
  pub others : List Text
  pub sent : List Text
  pub session_changes : ℕ

unfoldable pub initial_login : LoginForm
initial_login = record {
  password = [];
  open_now = false;
  status = idle;
  observed = none;
  others = [];
  sent = [];
  session_changes = 0;
}

abbrev pub is_pending : LoginStatus → Bool
is_pending pending = true
is_pending _ = false

abbrev forgotten : Option Text → List Text → List Text
forgotten none others = others
forgotten (some password) others = password ∷ others

-- `onOpenChange`
unfoldable pub change_open : Bool → LoginForm → LoginForm
change_open true form = record form { open_now = true }
change_open false form = record form {
  open_now = false;
  password = [];
  status = idle;
  observed = none;
  others = forgotten form.observed form.others;
}

abbrev pub cleared : LoginStatus → LoginStatus
cleared failed = idle
cleared status = status

-- `onChange` of the field
unfoldable pub change_password : Text → LoginForm → LoginForm
change_password password form = record form { password = password; status = cleared form.status }

-- `disabled={login.isPending || !password.trim()}`
unfoldable pub can_submit : LoginForm → Bool
unfolding trim
can_submit form = not (is_pending form.status || is_blank (trim form.password))

-- `onSubmit`
unfoldable pub submit : LoginForm → LoginForm
unfolding trim
submit form =
    let trimmed = trim form.password in
    if is_blank trimmed then form else record form {
      status = pending;
      observed = some trimmed;
      others = forgotten form.observed form.others;
      sent = trimmed ∷ form.sent;
    }

-- `onSuccess`
abbrev on_success : LoginForm → LoginForm
on_success form = record form {
  password = [];
  open_now = false;
  session_changes = suc form.session_changes;
}

-- The answer to the request that is observed, and whether it is a success.
unfoldable pub answer_observed : Bool → LoginForm → LoginForm
answer_observed true form = record (on_success form) { status = succeeded; observed = none }
answer_observed false form = record form { status = failed; observed = none }

-- The answer to one that is not.
unfoldable pub answer_other : Bool → List Text → LoginForm → LoginForm
answer_other true rest form = record (on_success form) { others = rest }
answer_other false rest form = record form { others = rest }

pub data Step : LoginForm → LoginForm → Type 0 where
  opened_or_closed : (next_open : Bool) (form : LoginForm) → Step form (change_open next_open form)
  typed :
      (password : Text) (form : LoginForm)
      → form.open_now ≡ true
      → Step form (change_password password form)
  submitted :
      (form : LoginForm) → form.open_now ≡ true → can_submit form ≡ true → Step form (submit form)
  answered :
      (success : Bool) (password : Text) (form : LoginForm)
      → form.observed ≡ some password
      → Step form (answer_observed success form)
  answered_late :
      (success : Bool) (before : List Text) (password : Text) (after : List Text) (form : LoginForm)
      → form.others ≡ before ++ (password ∷ after)
      → Step form (answer_other success (before ++ after) form)

pub data Reachable : LoginForm → Type 0 where
  mounted : Reachable initial_login
  next : {form form' : LoginForm} → Reachable form → Step form form' → Reachable form'

abbrev pub IsObserved : LoginStatus → Option Text → Type 0
IsObserved pending observed = (password : Text) × (observed ≡ some password)
IsObserved _ observed = observed ≡ none

-- A closed dialog keeps no password; a request is observed exactly while the button is pending; and what was
-- sent is never blank.
pub record IsTidy (form : LoginForm) : Type 0 where
  pub closed : form.open_now ≡ false → form.password ≡ []
  pub observed : IsObserved form.status form.observed
  pub sent : All (λ password. is_blank password ≡ false) form.sent
