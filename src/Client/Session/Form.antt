-- ===== src/Client/Session/Form.antt =====
-- frontend/app/login/page.tsx and frontend/app/signup/page.tsx: what the form shows, and how often it
-- can be sent.
--
-- A browser does not send a form whose button is disabled.
use shard_leak.Common.{
  ℕ, ◌+◌, ◌≡◌, ◌⊎◌, inl, inr, Bool, false, Option, none, some, List, [], ◌∷◌, if◌then◌else◌, refl,
  arith, length, Bool-cases,
}
use shard_leak.Common.Texts.{Text, codes}
use shard_leak.Client.Api.{Call, Result, ok, throw}
use shard_leak.Client.Session.{AuthForm, App, login_start, login_done}

-- What the form shows. A password of the signup form has at least `min_length` characters.
pub record AuthView : Type 0 where
  pub heading : Text
  pub error : Option Text
  pub email : Text
  pub password : Text
  pub min_length : ℕ
  pub button : Text
  pub disabled : Bool
  pub link : Text

-- `error && …`
abbrev pub shown_error : Text → Option Text
shown_error [] = none
shown_error (c ∷ s) = some (c ∷ s)

unfoldable pub login_view : AuthForm → AuthView
login_view f = record {
  heading = codes "Sign in";
  error = shown_error f.error;
  email = f.email;
  password = f.password;
  min_length = 0;
  button = if f.loading then codes "Signing in..." else codes "Sign In";
  disabled = f.loading;
  link = codes "/signup";
}

unfoldable pub signup_view : AuthForm → AuthView
signup_view f = record {
  heading = codes "Create account";
  error = shown_error f.error;
  email = f.email;
  password = f.password;
  min_length = 8;
  button = if f.loading then codes "Creating account..." else codes "Create Account";
  disabled = f.loading;
  link = codes "/login";
}

-- What happens to the login page.
pub data LoginEvent : Type 0 where
  type_email type_password : Text → LoginEvent
  submit : LoginEvent
  answered : Result Text → LoginEvent

-- The form and the rest of the page, and the calls that were made and that were answered.
pub record LoginPage : Type 0 where
  pub form : AuthForm
  pub app : App
  pub calls : List Call
  pub answers : ℕ

unfoldable pub login_submit : LoginPage → LoginPage
unfolding login_view
login_submit p =
    let (f, call) = login_start p.form in
    if (login_view p.form).disabled then p else record p { form = f; calls = call ∷ p.calls }

-- Without a call in flight there is nothing to be answered.
unfoldable pub answer_login : Result Text → LoginPage → LoginPage
answer_login r p =
    let (f, a) = login_done r (p.form, p.app) in
    if p.form.loading then record p { form = f; app = a; answers = p.answers + 1 } else p

unfoldable pub login_step : LoginEvent → LoginPage → LoginPage
unfolding login_submit answer_login
login_step (type_email v) p = record p { form = record p.form { email = v } }
login_step (type_password v) p = record p { form = record p.form { password = v } }
login_step submit p = login_submit p
login_step (answered r) p = answer_login r p

unfoldable pub login_run : List LoginEvent → LoginPage → LoginPage
login_run [] p = p
login_run (e ∷ es) p = login_run es (login_step e p)

abbrev pub in_flight : AuthForm → ℕ
in_flight f = if f.loading then 1 else 0

-- Every call but the one in flight is answered, and while it is in flight no error is shown.
pub record LoginIsValid (p : LoginPage) : Type 0 where
  pub counted : length p.calls ≡ p.answers + in_flight p.form
  pub quiet : (p.form.loading ≡ false) ⊎ ((login_view p.form).error ≡ none)

login_step-LoginIsValid :
    (e : LoginEvent) (p : LoginPage) → LoginIsValid p → LoginIsValid (login_step e p)
unfolding login_step login_submit answer_login login_view login_start login_done
login_step-LoginIsValid (type_email v) p h = record { counted = h.counted; quiet = h.quiet }
login_step-LoginIsValid (type_password v) p h = record { counted = h.counted; quiet = h.quiet }
login_step-LoginIsValid submit p h = elim (Bool-cases p.form.loading) [
  | inl busy ↦ simp busy h
  | inr idle ↦
      let before = h.counted in
      rw idle (record { counted = omega (arith, rw idle at before); quiet = inr refl })
]
login_step-LoginIsValid (answered (ok token)) p h = elim (Bool-cases p.form.loading) [
  | inl busy ↦
      let before = h.counted in
      rw busy (record { counted = omega (arith, rw busy at before); quiet = inl refl })
  | inr idle ↦ simp idle h
]
login_step-LoginIsValid (answered (throw e)) p h = elim (Bool-cases p.form.loading) [
  | inl busy ↦
      let before = h.counted in
      rw busy (record { counted = omega (arith, rw busy at before); quiet = inl refl })
  | inr idle ↦ simp idle h
]

login_run-LoginIsValid :
    (es : List LoginEvent) (p : LoginPage) → LoginIsValid p → LoginIsValid (login_run es p)
unfolding login_run
login_run-LoginIsValid [] p h = h
login_run-LoginIsValid (e ∷ es) p h =
    login_run-LoginIsValid es (login_step e p) (login_step-LoginIsValid e p h)

abbrev pub fresh_login : App → LoginPage
fresh_login app = record {
  form = record { email = []; password = []; error = []; loading = false };
  app = app;
  calls = [];
  answers = 0;
}

-- The login form is not sent a second time before it is answered: whatever is typed, pressed and
-- answered on a fresh page, all its calls but the one in flight are answered, there is one in flight
-- exactly while the page is loading, and meanwhile no error is shown.
pub login_run-fresh :
    (app : App) (es : List LoginEvent) → LoginIsValid (login_run es (fresh_login app))
login_run-fresh app es =
    login_run-LoginIsValid es (fresh_login app) (record { counted = refl; quiet = inl refl })
