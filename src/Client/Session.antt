-- ===== src/Client/Session.antt =====
-- The session of the browser: frontend/app/login/page.tsx, frontend/app/signup/page.tsx and
-- frontend/app/dashboard/layout.tsx.
--
-- The router is the list of the paths that it was sent to, the last one first. A handler that awaits is
-- two functions or more: up to each call, which it returns, and from the answer on.
pub mod Guard
pub mod Form
use shard_leak.Common.{
  ℕ, ◌<◌, Bool, true, false, Option, none, some, List, [], ◌∷◌, if◌then◌else◌, ltb, ◌==◌, length,
}
use shard_leak.Common.Texts.{Text, codes}
use shard_leak.Client.Api.{
  Browser, User, Call, Thrown, api_error, other_error, Result, ok, throw, get_token, set_token,
  clear_token, is_authenticated, truthy,
}
use shard_leak.Client.Calls

-- `router.push` and `router.replace`
pub data Move : Type 0 where
  push replace : Text → Move

-- What the pages share: the browser's storage and the router.
pub record App : Type 0 where
  pub browser : Browser
  pub moves : List Move

-- The form of the login page, and of the signup page.
pub record AuthForm : Type 0 where
  pub email : Text
  pub password : Text
  pub error : Text
  pub loading : Bool

-- The effect of both pages when they are mounted.
unfoldable pub auth_mount : App → App
auth_mount a =
    if is_authenticated a.browser
    then record a { moves = replace (codes "/dashboard") ∷ a.moves }
    else a

abbrev pub unreachable : Text
unreachable = codes "Unable to connect to the API. Is the backend running?"

-- `handleSubmit` of the login page, up to the call.
unfoldable pub login_start : AuthForm → AuthForm × Call
login_start f = (record f { error = []; loading = true }, Calls.login f.email f.password)

abbrev pub login_failure : Thrown → Text
login_failure (api_error status code message) =
    if status == 401 then codes "Invalid email or password." else message
login_failure (other_error message) = unreachable

abbrev pub signed_in : Text → App → App
signed_in token a = record {
  browser = set_token token a.browser;
  moves = push (codes "/dashboard") ∷ a.moves;
}

-- From the answer on.
unfoldable pub login_done : Result Text → AuthForm × App → AuthForm × App
login_done (ok token) (f, a) = (record f { loading = false }, signed_in token a)
login_done (throw e) (f, a) = (record f { error = login_failure e; loading = false }, a)

-- `handleSubmit` of the signup page, up to the first call.
unfoldable pub signup_start : AuthForm → AuthForm × Option Call
signup_start f =
    if ltb (length f.password) 8
    then (record f { error = codes "Password must be at least 8 characters." }, none)
    else (record f { error = []; loading = true }, some (Calls.signup f.email f.password))

abbrev pub signup_failure : Thrown → Text
signup_failure (api_error status code message) =
    if status == 409 then codes "An account with this email already exists." else message
signup_failure (other_error message) = unreachable

-- From the answer to the first call up to the second; the email and the password are those that the
-- closure holds.
unfoldable pub signup_created : Text → Text → Result User → AuthForm → AuthForm × Option Call
signup_created email password (ok user) f = (f, some (Calls.login email password))
signup_created email password (throw e) f =
    (record f { error = signup_failure e; loading = false }, none)

-- From the answer to the second call on.
unfoldable pub signup_done : Result Text → AuthForm × App → AuthForm × App
signup_done (ok token) (f, a) = (record f { loading = false }, signed_in token a)
signup_done (throw e) (f, a) = (record f { error = signup_failure e; loading = false }, a)

-- The dashboard's layout: the pages below it are shown once it is ready.
pub record Layout : Type 0 where
  pub user : Option User
  pub ready : Bool

unfoldable pub layout_initial : Layout
layout_initial = record { user = none; ready = false }

-- The effect, up to the call of `me`.
unfoldable pub layout_mount : App → App × Option Call
layout_mount a =
    if truthy (get_token a.browser)
    then (a, some Calls.me)
    else (record a { moves = replace (codes "/login") ∷ a.moves }, none)

abbrev pub is_unauthorized : Thrown → Bool
is_unauthorized (api_error status code message) = status == 401
is_unauthorized (other_error message) = false

-- From the answer on.
unfoldable pub layout_done : Result User → Layout × App → Layout × App
layout_done (ok user) (l, a) = (record { user = some user; ready = true }, a)
layout_done (throw e) (l, a) = (
  record l { ready = true },
  if is_unauthorized e
      then record { browser = clear_token a.browser; moves = replace (codes "/login") ∷ a.moves }
      else a,
)

-- `handleLogout`
unfoldable pub logout : App → App
logout a = record { browser = clear_token a.browser; moves = push (codes "/") ∷ a.moves }
