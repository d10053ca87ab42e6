-- ===== src/Backend/Api/Signup/Session.antt =====
-- backend/internal/handlers/auth.go: an account from `Signup` over `Login` to `Me`, over any requests.
use shard_leak.Common.{
  ℕ, ◌+◌, ◌*◌, ◌≤◌, ◌<◌, true, false, ltb, some, List, [], ◌∷◌, ◌≡◌, ◌≢◌, refl, ap, ◌∙◌,
}
use shard_leak.Common.Texts.{Text}
use shard_leak.Client.Api.{User, success, bearer}
use shard_leak.Backend.RateLimit.{up}
use shard_leak.Backend.Auth.{jwt_auth, admit_session, session_user}
use shard_leak.Backend.Auth.Bearer.{bearer_token-bearer}
use shard_leak.Backend.Auth.Session.{me_answer}
use shard_leak.Backend.Store.{Store, UserRow, first_of, user_has_email, user_has_id, query_row}
use shard_leak.Backend.Store.Users.{get_user_by_email, get_user_by_id}
use shard_leak.Backend.Store.Rows.{Change-user}
use shard_leak.Backend.Handlers.{for_user}
use shard_leak.Backend.Accounts.{
  create_token, validate_token, Credentials, valid_email, byte_length, index, user_response,
  login_checked, login_handler, login_answer, token_answer, found_user,
}
use shard_leak.Backend.Api.{
  Library, Exchange, user, token, signup, login, me, session, me_of, route, serve, run,
}
use shard_leak.Backend.Api.Changes.{serve-Change}
use shard_leak.Backend.Api.Signup.{IsLawful, run-email, run-user, route-HasAccount}

module _ (lib : Library) where
  -- The email and the password of an account are not empty.
  login-row :
      (l : Exchange) (email password : Text) (s : Store) {row : UserRow}
      → valid_email email ≡ true
      → ltb (byte_length password) 8 ≡ false
      → lib.compare_password row.password_hash password ≡ true
      → first_of (user_has_email email) s.users ≡ some row
      → l.link ≡ up
      → (login_checked lib.compare_password (create_token lib.sign l.now) l.link email password s).1
        ≡ token_answer (create_token lib.sign l.now row.id)
  unfolding login_checked get_user_by_email query_row login_answer valid_email index
  login-row l [] password s valid long right there link = cc
  login-row l (c ∷ email) [] s valid long right there link = cc
  login-row l (c ∷ email) (p ∷ password) s valid long right there link =
      rw (link, there, right) refl

  -- A token is valid for its user for 24 hours.
  day_valid :
      IsLawful lib
      → {now later : ℕ} {id t : Text} → create_token lib.sign now id ≡ some t
      → now ≤ later
      → later < now + 24 * 3600
      → validate_token lib.parse later t ≡ some id
  unfolding create_token validate_token
  day_valid lawful signed from' until = rw (lawful.signs signed from' until, validate_token) refl

  day_named :
      IsLawful lib
      → (now : ℕ) (id : Text) {t : Text} → create_token lib.sign now id ≡ some t
      → t ≢ []
  unfolding create_token
  day_named lawful now id signed = lawful.named signed

  me-row :
      (m : Exchange) (t id : Text) (s : Store) {row : UserRow}
      → m.authorization ≡ bearer (some t)
      → t ≢ []
      → validate_token lib.parse m.now t ≡ some id
      → id ≢ []
      → first_of (user_has_id id) s.users ≡ some row
      → m.link ≡ up
      → (for_user (session lib m) (me_of lib m) s).1
        ≡ success 200 (some (user_response lib.shown row))
  unfolding session jwt_auth admit_session session_user for_user me_of get_user_by_id query_row
      me_answer found_user
  me-row m [] id s header sent subject named there link = absurd (sent refl)
  me-row m (c ∷ t) [] s header sent subject named there link = absurd (named refl)
  me-row m (c ∷ t) (d ∷ id) s header sent subject named there link =
      rw (header, bearer_token-bearer (some (c ∷ t)), subject, link, there) refl

  serve-login :
      (l : Exchange) (s : Store) (c d : Credentials) (id : Text) {t : Text}
      → l.request ≡ login (some d)
      → lib.normal d.email ≡ lib.normal c.email
      → d.password ≡ c.password
      → (login_checked lib.compare_password
          (create_token lib.sign l.now)
          l.link
          (lib.normal c.email)
          c.password
          s).1
        ≡ token_answer (create_token lib.sign l.now id)
      → create_token lib.sign l.now id ≡ some t
      → (serve lib l s).1 ≡ token (success 200 (some t))
  unfolding serve route login_handler token_answer
  serve-login l s c d id logs email password answered signed =
      rw (logs, email, password, answered, signed) refl

  serve-me :
      (m : Exchange) (s : Store) {u : User}
      → m.request ≡ me
      → (for_user (session lib m) (me_of lib m) s).1 ≡ success 200 (some u)
      → (serve lib m s).1 ≡ user (success 200 (some u))
  unfolding serve route
  serve-me m s asks answered = rw (asks, answered) refl

  -- An account works from its creation on. If a request to sign up was answered with a user, then
  -- whatever requests are served after it, a login with the same password, and with an email of the
  -- same normal form, is answered with the token that is signed for the user, if there is one; and
  -- whatever requests are served in the next 24 hours, `Me` answers the session of that token with
  -- the same id, email and time of creation. Both need their statement on the database to succeed,
  -- and the user an id that is not empty.
  pub me-signup :
      IsLawful lib
      → (e l m : Exchange) (es more : List Exchange) (s : Store) (c d : Credentials) {u : User}
        {t : Text}
      → e.request ≡ signup (some c)
      → (serve lib e s).1 ≡ user (success 201 (some u))
      → u.id ≢ []
      → l.request ≡ login (some d)
      → lib.normal d.email ≡ lib.normal c.email
      → d.password ≡ c.password
      → l.link ≡ up
      → create_token lib.sign l.now u.id ≡ some t
      → m.request ≡ me
      → m.authorization ≡ bearer (some t)
      → m.link ≡ up
      → l.now ≤ m.now
      → m.now < l.now + 24 * 3600
      → let signed_up = run lib es (serve lib e s).0 in
        let (signed_in, answer) = serve lib l signed_up in
        (answer ≡ token (success 200 (some t)))
        × ((serve lib m (run lib more signed_in)).1 ≡ user (success 200 (some u)))
  unfolding user_response serve
  me-signup lawful e l m es more s c d {u} {t} asked answered named logs email password link signed
        asks header link' from' until =
      let account = route-HasAccount lib e e.request s c asked answered in
      let signed_up = run lib es (serve lib e s).0 in
      let id : account.row.id ≡ u.id = ap (λ v. v.id) account.shown in
      let by_email = run-email lib (lib.normal c.email) es (serve lib e s).0 account.by_email in
      let logged_in =
        login-row l (lib.normal c.email) c.password signed_up account.valid account.long
          (lawful.compares account.hashed) by_email link in
      let signed' : create_token lib.sign l.now account.row.id ≡ some t = rw id signed in
      let by_id = run-user lib account.row.id es (serve lib e s).0 account.by_id in
      let by_id' =
        run-user lib account.row.id more (serve lib l signed_up).0
          (Change-user account.row.id (serve-Change lib l signed_up) by_id) in
      let shown =
        me-row m t account.row.id (run lib more (serve lib l signed_up).0) header
          (day_named lawful l.now account.row.id signed') (day_valid lawful signed' from' until)
          (rw id named) by_id' link' in
      (
        serve-login l signed_up c d account.row.id logs email password logged_in signed',
        serve-me m (run lib more (serve lib l signed_up).0) asks
            (shown ∙ ap (λ v. success 200 (some v)) account.shown),
      )
