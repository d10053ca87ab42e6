-- ===== src/Client/Session/Guard.antt =====
-- The session's rules: who gets into the dashboard, and what the requests carry.
use shard_leak.Common.{
  ℕ, ◌==◌, Bool-cases, inl, inr, true, false, Option, none, some, [], ◌∷◌, ◌++◌, if◌then◌else◌, leb,
  length, is_some, ◌≡◌, ◌≢◌, refl, arith,
}
use shard_leak.Common.Texts.{Text, codes}
use shard_leak.Client.Api.{
  Browser, User, Call, Thrown, ok, throw, api_error, other_error, get_token, set_token, clear_token,
  is_authenticated, truthy, bearer, build_request,
}
use shard_leak.Client.Calls
use shard_leak.Client.Session.{
  App, AuthForm, replace, login_done, signup_start, signup_created, signup_done, layout_initial,
  layout_mount, layout_done, logout,
}

bearer-truthy : (t : Option Text) → is_some (bearer t) ≡ truthy t
bearer-truthy none = refl
bearer-truthy (some []) = refl
bearer-truthy (some (c ∷ s)) = refl

-- A request carries a session exactly when the page counts as signed in: for a call with no token of
-- its own, an `Authorization` header is set if and only if `isAuthenticated` holds.
pub authorization-is_authenticated :
    (base : Text) (c : Call) (b : Browser)
    → c.override_token ≡ none
    → is_some (build_request base c b).authorization ≡ is_authenticated b
unfolding build_request is_authenticated
authorization-is_authenticated base c b h = rw h (bearer-truthy (get_token b))

-- After a login with a token that is not empty the page counts as signed in, every call with no
-- token of its own carries it as `Bearer`, and the dashboard asks for the user; after a logout none
-- of this holds, and the dashboard sends the visitor to the login page. The page runs in a browser.
pub login_done-logout :
    (f : AuthForm) (a : App) (base token : Text) (c : Call)
    → a.browser.has_window ≡ true
    → token ≢ []
    → c.override_token ≡ none
    → let inside = (login_done (ok token) (f, a)).1 in
      let outside = logout inside in
      (is_authenticated inside.browser ≡ true)
      × ((build_request base c inside.browser).authorization ≡ some (codes "Bearer " ++ token))
      × ((layout_mount inside).1 ≡ some Calls.me)
      × (is_authenticated outside.browser ≡ false)
      × ((build_request base c outside.browser).authorization ≡ none)
      × ((layout_mount outside).1 ≡ none)
      × ((layout_mount outside).0.moves ≡ replace (codes "/login") ∷ outside.moves)
unfolding build_request is_authenticated login_done logout layout_mount set_token clear_token
login_done-logout f a base [] c w t h = absurd (t refl)
login_done-logout f a base (d ∷ token) c w t h =
    rw (w, h) (refl, refl, refl, refl, refl, refl, refl)

-- A failed call of `me` ends the session exactly with the status 401: then no token is left, so that
-- requests with none of their own carry no header, and the visitor is sent to the login page. With any
-- other status the session and the router stay as they were, and so does all where no answer came. Either
-- way the dashboard is shown, with no user. The page runs in a browser.
pub layout_done-throw :
    (status : ℕ) (code message : Text) (a : App) (base : Text) (c : Call)
    → a.browser.has_window ≡ true
    → c.override_token ≡ none
    → let failed = λ (e : Thrown). layout_done (throw e) (layout_initial, a) in
      let b = (failed (api_error status code message)).1 in
      (is_authenticated b.browser ≡ (if status == 401 then false else is_authenticated a.browser))
      × ((build_request base c b.browser).authorization
          ≡ (if status == 401 then none else (build_request base c a.browser).authorization))
      × (b.moves ≡ (if status == 401 then replace (codes "/login") ∷ a.moves else a.moves))
      × ((failed (other_error message)).1 ≡ a)
      × ((failed (api_error status code message)).0 ≡ record { user = none; ready = true })
      × ((failed (other_error message)).0 ≡ record { user = none; ready = true })
unfolding layout_done layout_initial is_authenticated clear_token build_request
layout_done-throw status code message a base c w h = elim (Bool-cases (status == 401)) [
  | inl ended ↦ rw (ended, w, h) (refl, refl, refl, refl, refl, refl)
  | inr other ↦ rw other (refl, refl, refl, refl, refl, refl)
]

-- The signup form creates no account with a password under eight units, and otherwise calls the
-- signup and then the login with one and the same email and password, those of the form at the click,
-- whatever is typed in between; a failure of either call leaves the session and the router alone,
-- and makes the form ready again, with one message for a given failure.
pub signup_steps :
    (f typed : AuthForm) (a : App) (u : User) (e : Thrown)
    → let (g, first) = signup_start f in
      let mid = signup_created f.email f.password (ok u) typed in
      let early = (signup_created f.email f.password (throw e) typed).0 in
      let late = signup_done (throw e) (mid.0, a) in
      let long = leb 8 (length f.password) in
      (first ≡ (if long then some (Calls.signup f.email f.password) else none))
      × (g.loading ≡ (if long then true else f.loading))
      × (mid.1 ≡ some (Calls.login f.email f.password))
      × (late.1 ≡ a)
      × (late.0 ≡ early)
      × (early.loading ≡ false)
unfolding signup_start signup_created signup_done
signup_steps f typed a u e = ground arith
