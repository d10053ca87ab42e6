-- ===== src/Backend/Auth/Session.antt =====
-- The session of the dashboard against the backend: `GET /api/v1/auth/me`, with `Me` of
-- backend/internal/handlers/auth.go.
--
-- The answer is given as what `fetch` makes of it.
use shard_leak.Common.{
  ℕ, ◌⊎◌, inl, inr, ◌≡◌, ◌≢◌, Bool, true, false, Option, none, some, [], ◌∷◌, if◌then◌else◌, refl,
  ap,
}
use shard_leak.Common.Texts.{Text, codes}
use shard_leak.Client.Api.{
  User, Fetched, failure, success, object_body, bearer, build_request, get_token, clear_token,
  read_response,
}
use shard_leak.Client.Calls
use shard_leak.Client.Session.{App, layout_done, layout_initial, replace}
use shard_leak.Backend.Auth.{bearer_token, jwt_auth, session_user, admit_session}
use shard_leak.Backend.Auth.Bearer.{bearer_token-bearer}

-- `writeErrJSON` and `writeError`
abbrev pub error_answer {ℓ} : {T : Type ℓ} → ℕ → Text → Text → Fetched T
error_answer status code message =
    failure status (some (object_body (some (record { code = some code; message = some message }))))

-- `Me` from the answer of `GetUserByID` on.
unfoldable pub me_answer : Option User → Fetched User
me_answer none = error_answer 500 (codes "INTERNAL_ERROR") (codes "failed to retrieve user")
me_answer (some user) = success 200 (some user)

-- `Me`, with the user that `GetUserByID` finds, if it succeeds.
unfoldable pub me_handler : (Text → Option User) → Text → Fetched User
unfolding me_answer
me_handler find_user [] = error_answer 401 (codes "UNAUTHORIZED") (codes "not authenticated")
me_handler find_user (c ∷ id) = me_answer (find_user (c ∷ id))

-- The handler behind `JWTAuth`.
unfoldable pub me_behind : (Text → Option User) → Text ⊎ Text → Fetched User
unfolding me_handler
me_behind find_user (inl message) = error_answer 401 (codes "UNAUTHORIZED") message
me_behind find_user (inr id) = me_handler find_user id

-- The route.
unfoldable pub get_me : (Text → Option Text) → (Text → Option User) → Option Text → Fetched User
unfolding jwt_auth me_behind
get_me subject find_user header = me_behind find_user (jwt_auth subject header)

-- The user whom a token is for, if the backend takes it.
abbrev pub accepted : Option Text → Bool
accepted none = false
accepted (some []) = false
accepted (some (c ∷ id)) = true

-- And the user that the backend has for it.
abbrev pub owner : (Text → Option User) → Option Text → Option User
owner find_user none = none
owner find_user (some []) = none
owner find_user (some (c ∷ id)) = find_user (c ∷ id)

-- What the layout makes of the answer, when the session is still unknown to it.
abbrev pub Settled : (Text → Option User) → Option Text → App → Fetched User → Type 0
Settled find_user subject a answer =
    let (l, b) = layout_done (read_response answer) (layout_initial, a) in
    (l.ready ≡ true)
    × (l.user ≡ owner find_user subject)
    × (b.browser ≡ (if accepted subject then a.browser else clear_token a.browser))
    × (b.moves ≡ (if accepted subject then a.moves else replace (codes "/login") ∷ a.moves))

settled_answer :
    (o : Option User) (a : App)
    → let (l, b) = layout_done (read_response (me_answer o)) (layout_initial, a) in
      (l.ready ≡ true) × (l.user ≡ o) × (b.browser ≡ a.browser) × (b.moves ≡ a.moves)
unfolding me_answer layout_done layout_initial read_response
settled_answer none a = (refl, refl, refl, refl)
settled_answer (some u) a = (refl, refl, refl, refl)

me_behind-Settled :
    (find_user : Text → Option User) (o : Option Text) (a : App)
    → Settled find_user o a (me_behind find_user (session_user o))
unfolding me_behind session_user layout_done layout_initial read_response
me_behind-Settled find_user none a = (refl, refl, refl, refl)
me_behind-Settled find_user (some []) a = (refl, refl, refl, refl)
me_behind-Settled find_user (some (c ∷ id)) a = settled_answer (find_user (c ∷ id)) a

get_me-token :
    (subject : Text → Option Text) (find_user : Text → Option User) (header : Option Text)
    (t : Text)
    → bearer_token header ≡ t
    → t ≢ []
    → get_me subject find_user header ≡ me_behind find_user (session_user (subject t))
unfolding get_me jwt_auth admit_session
get_me-token subject find_user header [] e named = absurd (named refl)
get_me-token subject find_user header (c ∷ t) e named =
    ap (λ token. me_behind find_user (admit_session subject token)) e

-- The dashboard keeps a session exactly if the backend takes its token. The browser holds a token that
-- is not empty, and the layout asks for the user with it. If the token is valid for a user id, the
-- session and the path stay, and the layout shows the user if the backend finds one; else the token is
-- removed and the visitor is sent to the login page.
pub layout_done-get_me :
    (subject : Text → Option Text) (find_user : Text → Option User) (base : Text) (a : App)
    {t : Text}
    → get_token a.browser ≡ some t
    → t ≢ []
    → Settled find_user
        (subject t)
        a
        (get_me subject find_user (build_request base Calls.me a.browser).authorization)
unfolding build_request Calls.me
layout_done-get_me subject find_user base a {t} held named =
    rw
      (
        held,
        get_me-token subject find_user (bearer (some t)) t (bearer_token-bearer (some t)) named,
      )
      (me_behind-Settled find_user (subject t) a)
