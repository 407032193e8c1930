-- ===== src/Dashboard/Login/Tidy.antt =====
-- What holds of the login of the page however it is used (AdvancedAuthControls of
-- frontend/src/components/dashboard/dashboard-page.tsx).
use perps_latency_benchmark.Prelude.{
  ◌≡◌, refl, inl, inr, Bool, true, false, Option, List, ◌++◌, Text, Bool-cases,
}
use perps_latency_benchmark.Prelude.{trim, is_blank}
use perps_latency_benchmark.Dashboard.Login.{
  LoginStatus, idle, pending, failed, succeeded, LoginForm, initial_login, is_pending, change_open,
  cleared, change_password, can_submit, submit, answer_observed, answer_other, Step,
  opened_or_closed, typed, submitted, answered, answered_late, Reachable, mounted, next, IsObserved,
  IsTidy,
}

initial_login-IsTidy : IsTidy initial_login
unfolding initial_login
initial_login-IsTidy = record { closed = λ h. refl; observed = refl; sent = tt }

change_open-IsTidy :
    (next_open : Bool) (form : LoginForm) → IsTidy form → IsTidy (change_open next_open form)
unfolding change_open
change_open-IsTidy true form h = record { closed = λ e. cc e; observed = h.observed; sent = h.sent }
change_open-IsTidy false form h = record { closed = λ e. refl; observed = refl; sent = h.sent }

cleared-IsObserved :
    (status : LoginStatus) (observed : Option Text)
    → IsObserved status observed
    → IsObserved (cleared status) observed
cleared-IsObserved idle observed h = h
cleared-IsObserved pending observed h = h
cleared-IsObserved failed observed h = h
cleared-IsObserved succeeded observed h = h

change_password-IsTidy :
    (password : Text) (form : LoginForm)
    → form.open_now ≡ true
    → IsTidy form
    → IsTidy (change_password password form)
unfolding change_password
change_password-IsTidy password form e h = record {
  closed = λ f. cc (e, f);
  observed = cleared-IsObserved form.status form.observed h.observed;
  sent = h.sent;
}

submit-IsTidy : (form : LoginForm) → form.open_now ≡ true → IsTidy form → IsTidy (submit form)
unfolding submit
submit-IsTidy form e h = elim (Bool-cases (is_blank (trim form.password))) [
  | inl f ↦ rw f h
  | inr f ↦
      rw f record {
        closed = λ g. cc (e, g);
        observed = (trim form.password, refl);
        sent = (f, h.sent);
      }
]

answer_observed-IsTidy :
    (success : Bool) (form : LoginForm) → IsTidy form → IsTidy (answer_observed success form)
unfolding answer_observed
answer_observed-IsTidy true form h = record { closed = λ f. refl; observed = refl; sent = h.sent }
answer_observed-IsTidy false form h = record { closed = h.closed; observed = refl; sent = h.sent }

answer_other-IsTidy :
    (success : Bool) (rest : List Text) (form : LoginForm)
    → IsTidy form
    → IsTidy (answer_other success rest form)
unfolding answer_other
answer_other-IsTidy true rest form h = record {
  closed = λ e. refl;
  observed = h.observed;
  sent = h.sent;
}
answer_other-IsTidy false rest form h = record {
  closed = h.closed;
  observed = h.observed;
  sent = h.sent;
}

Step-IsTidy : {form form' : LoginForm} → Step form form' → IsTidy form → IsTidy form'
Step-IsTidy (opened_or_closed next_open form) h = change_open-IsTidy next_open form h
Step-IsTidy (typed password form e) h = change_password-IsTidy password form e h
Step-IsTidy (submitted form e f) h = submit-IsTidy form e h
Step-IsTidy (answered success password form e) h = answer_observed-IsTidy success form h
Step-IsTidy (answered_late success before password after form e) h =
    answer_other-IsTidy success (before ++ after) form h

-- However the dialog is opened, typed in, submitted and closed, and in whatever order the requests are
-- answered: a closed dialog keeps no password, a request is observed exactly while the button is pending,
-- and no password was sent that is blank when trimmed.
pub Reachable-IsTidy : {form : LoginForm} → Reachable form → IsTidy form
Reachable-IsTidy mounted = initial_login-IsTidy
Reachable-IsTidy (next r s) = Step-IsTidy s (Reachable-IsTidy r)

-- What steps lead to.
pub data Leads (form : LoginForm) : LoginForm → Type 0 where
  stays : Leads form form
  then_step : {form' form'' : LoginForm} → Leads form form' → Step form' form'' → Leads form form''

-- The dialog is open with the password, and it can be submitted.
abbrev pub IsReady : Text → LoginForm → Type 0
IsReady password form =
    (form.open_now ≡ true) × (form.password ≡ password) × (can_submit form ≡ true)

cleared-not_pending :
    (status : LoginStatus) → is_pending status ≡ false → is_pending (cleared status) ≡ false
cleared-not_pending idle h = refl
cleared-not_pending pending h = h
cleared-not_pending failed h = refl
cleared-not_pending succeeded h = refl

-- Opening the dialog and typing the password.
typed-IsReady :
    (password : Text) (start form : LoginForm)
    → is_blank (trim password) ≡ false
    → is_pending form.status ≡ false
    → Leads start form
    → (form' : LoginForm) × Leads start form' × IsReady password form'
unfolding can_submit change_open change_password
typed-IsReady password start form blank idle_now l =
    let opened = change_open true form in
    (
      change_password password opened,
      then_step (then_step l (opened_or_closed true form)) (typed password opened refl),
      (refl, refl, rw (blank, cleared-not_pending form.status idle_now) refl),
    )

answer_observed-not_pending :
    (form : LoginForm) → is_pending (answer_observed false form).status ≡ false
unfolding answer_observed
answer_observed-not_pending form = refl

IsReady-after :
    (password : Text) (form : LoginForm) (status : LoginStatus)
    → is_blank (trim password) ≡ false
    → form.status ≡ status
    → IsObserved status form.observed
    → (form' : LoginForm) × Leads form form' × IsReady password form'
IsReady-after password form pending blank e (sent, o) =
    typed-IsReady password form (answer_observed false form) blank
      (answer_observed-not_pending form) (then_step stays (answered false sent form o))
IsReady-after password form idle blank e o =
    typed-IsReady password form form blank (rw e refl) stays
IsReady-after password form failed blank e o =
    typed-IsReady password form form blank (rw e refl) stays
IsReady-after password form succeeded blank e o =
    typed-IsReady password form form blank (rw e refl) stays

-- From wherever the login has come to while the dialog is shown, a refusal of the request that is observed,
-- if there is one, opening the dialog and typing lead to the open dialog with any password that is not blank
-- when trimmed, and it can be submitted.
pub Reachable-IsReady :
    {form : LoginForm} (password : Text)
    → Reachable form
    → is_blank (trim password) ≡ false
    → (form' : LoginForm) × Leads form form' × IsReady password form'
Reachable-IsReady {form} password r blank =
    IsReady-after password form form.status blank refl (Reachable-IsTidy r).observed
