-- ===== src/Tests/Client.antt =====
-- frontend: the theorems of its API client and of the session at small inputs.
use shard_leak.Common.{true, false, none, some, List, [], ◌∷◌, ◌≡◌, refl}
use shard_leak.Common.Texts.{Text, codes, text_eq}
use shard_leak.Client.Api.{
  Thrown, User, api_error, other_error, ok, throw, build_request, is_authenticated, set_token,
}
use shard_leak.Client.Calls
use shard_leak.Client.Site.{
  routes, links_at, Tab, Visit, opened, then_step, handled, routed, clicked, logged_in, handle,
  is_among, to_page, navbar_links,
}
use shard_leak.Client.Site.Reached.{all_resolve, Visit-resolve}
use shard_leak.Client.Session.{
  App, AuthForm, push, replace, login_done, logout, layout_mount, layout_done, layout_initial,
}
use shard_leak.Client.Session.Guard.{login_done-logout, layout_done-throw}
use shard_leak.Client.Session.Form.{LoginEvent, type_email, submit, answered}

abbrev ann : AuthForm
ann = record {
  email = codes "ann@example.com";
  password = codes "correct horse";
  error = [];
  loading = false;
}

abbrev fresh : App
fresh = record { browser = record { has_window = true; stored = none }; moves = [] }

abbrev ann_user : User
ann_user = record { id = codes "1"; email = codes "ann@example.com"; created_at = [] }

abbrev base : Text
base = codes "http://localhost:8082"

login_done-logout_example :
    let inside = (login_done (ok (codes "jwt")) (ann, fresh)).1 in
    let outside = logout inside in
    (is_authenticated inside.browser ≡ true)
    × ((build_request base Calls.list_keys inside.browser).authorization
        ≡ some (codes "Bearer jwt"))
    × ((layout_mount inside).1 ≡ some Calls.me)
    × (is_authenticated outside.browser ≡ false)
    × ((build_request base Calls.list_keys outside.browser).authorization ≡ none)
    × ((layout_mount outside).1 ≡ none)
    × ((layout_mount outside).0.moves ≡ replace (codes "/login") ∷ outside.moves)
unfolding Calls.list_keys
login_done-logout_example =
    login_done-logout ann fresh base (codes "jwt") Calls.list_keys refl (λ e. cc) refl

abbrev signed : App
signed = (login_done (ok (codes "jwt")) (ann, fresh)).1

layout_done-throw_example :
    let failed = λ (e : Thrown). layout_done (throw e) (layout_initial, signed) in
    let b = (failed (api_error 401 [] [])).1 in
    (is_authenticated b.browser ≡ false)
    × ((build_request base Calls.list_keys b.browser).authorization ≡ none)
    × (b.moves ≡ replace (codes "/login") ∷ signed.moves)
    × ((failed (other_error [])).1 ≡ signed)
    × ((failed (api_error 401 [] [])).0 ≡ record { user = none; ready = true })
    × ((failed (other_error [])).0 ≡ record { user = none; ready = true })
unfolding Calls.list_keys login_done set_token
layout_done-throw_example = layout_done-throw 401 [] [] signed base Calls.list_keys refl refl

abbrev login_events : List LoginEvent
login_events =
    type_email (codes "a@b.c") ∷ submit ∷ submit ∷ answered (throw (other_error [])) ∷ submit ∷ []

-- The tab after a click on `Sign In` of the landing page, a login, and what the router does then.
abbrev landed : Tab
landed = record { path = codes "/"; app = record { browser = fresh.browser; moves = [] } }

abbrev at_login : Tab
at_login = record landed { path = codes "/login" }

abbrev logged : Tab
logged = record at_login { app = handle (logged_in ann (ok (codes "jwt"))) at_login.app }

abbrev on_dashboard : Tab
on_dashboard = record logged { path = codes "/dashboard" }

on_dashboard-Visit : Visit on_dashboard
unfolding routes links_at navbar_links handle login_done text_eq
on_dashboard-Visit =
    then_step
      (then_step
        (then_step (opened (codes "/") fresh.browser refl)
          (clicked true 5 (to_page (codes "/login") (codes "Sign In")) (codes "/login") refl refl))
        (handled (logged_in ann (ok (codes "jwt")))))
      (routed 0 (push (codes "/dashboard")) refl)

Visit-resolve_example :
    (is_among (codes "/dashboard") routes ≡ true) × (all_resolve true (codes "/dashboard") ≡ true)
Visit-resolve_example = Visit-resolve on_dashboard-Visit true
