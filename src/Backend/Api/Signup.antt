-- ===== src/Backend/Api/Signup.antt =====
-- backend/internal/handlers/auth.go: `Signup`, and the account that it makes, over any requests.
pub mod Session
use shard_leak.Common.{
  ℕ, ◌+◌, ◌*◌, ◌≤◌, ◌<◌, inl, inr, true, false, ltb, Option, none, some, List, [], ◌∷◌, ◌≡◌, ◌≢◌,
  refl, ap, ◌∙◌, Bool-cases,
}
use shard_leak.Common.Texts.{Text}
use shard_leak.Client.Api.{User, success, bearer}
use shard_leak.Backend.RateLimit.{up}
use shard_leak.Backend.Auth.{jwt_auth, admit_session, session_user}
use shard_leak.Backend.Auth.Bearer.{bearer_token-bearer}
use shard_leak.Backend.Auth.Session.{me_answer}
use shard_leak.Backend.Store.{
  Store, UserRow, Outcome, done, err_not_found, err_conflict, err_db, first_of, user_has_email,
  user_has_id, query_row,
}
use shard_leak.Backend.Store.Users.{get_user_by_email, get_user_by_id}
use shard_leak.Backend.Store.Rows.{Change-email, Change-user, create_user-done}
use shard_leak.Backend.Handlers.{for_user}
use shard_leak.Backend.Accounts.{
  Claims, create_token, validate_token, Credentials, valid_email, byte_length, index, signup_hashed,
  signup_checked, signup_handler, signup_answer, user_response, login_checked, login_handler,
  login_answer, token_answer, found_user,
}
use shard_leak.Backend.Api.{
  Library, Request, Exchange, user, token, signup, login, me, session, me_of, route, serve, run,
}
use shard_leak.Backend.Api.Changes.{serve-Change}

-- What the backend relies on: bcrypt's comparison takes the password that a hash was made of, and a
-- token that was signed has its claims until they expire, and is not empty.
pub record IsLawful (lib : Library) : Type 0 where
  pub compares :
      {salt password hash : Text}
      → lib.hash_password salt password ≡ some hash
      → lib.compare_password hash password ≡ true
  pub signs :
      {claims : Claims} {later : ℕ} {t : Text}
      → lib.sign claims ≡ some t
      → claims.issued_at ≤ later
      → later < claims.expires_at
      → lib.parse later t ≡ some claims
  pub named : {claims : Claims} {t : Text} → lib.sign claims ≡ some t → t ≢ []

module _ (lib : Library) where
  pub run-email :
      (email : Text) (es : List Exchange) (s : Store) {u : UserRow}
      → first_of (user_has_email email) s.users ≡ some u
      → first_of (user_has_email email) (run lib es s).users ≡ some u
  unfolding run
  run-email email [] s h = h
  run-email email (e ∷ es) s h =
      run-email email es (serve lib e s).0 (Change-email email (serve-Change lib e s) h)

  pub run-user :
      (id : Text) (es : List Exchange) (s : Store) {u : UserRow}
      → first_of (user_has_id id) s.users ≡ some u
      → first_of (user_has_id id) (run lib es s).users ≡ some u
  unfolding run
  run-user id [] s h = h
  run-user id (e ∷ es) s h =
      run-user id es (serve lib e s).0 (Change-user id (serve-Change lib e s) h)

  -- The row of an account that was made.
  pub record HasAccount (e : Exchange) (email password : Text) (s : Store) (u : User) : Type 0 where
    pub row : UserRow
    pub shown : user_response lib.shown row ≡ u
    pub hashed : lib.hash_password e.salt password ≡ some row.password_hash
    pub long : ltb (byte_length password) 8 ≡ false
    pub valid : valid_email email ≡ true
    pub by_email : first_of (user_has_email email) s.users ≡ some row
    pub by_id : first_of (user_has_id row.id) s.users ≡ some row

  signup_answer-success :
      (o : Outcome UserRow) {u : User}
      → signup_answer lib.shown o ≡ success 201 (some u)
      → (row : UserRow) × (o ≡ done row) × (user_response lib.shown row ≡ u)
  unfolding signup_answer
  signup_answer-success (done row) e = (row, refl, cc)
  signup_answer-success err_not_found e = cc
  signup_answer-success err_conflict e = cc
  signup_answer-success err_db e = cc

  hashed-HasAccount :
      (e : Exchange) (email password : Text) (o : Option Text) (s : Store) {u : User}
      → lib.hash_password e.salt password ≡ o
      → ltb (byte_length password) 8 ≡ false
      → valid_email email ≡ true
      → (let (after, answer) = signup_hashed lib.shown e.link e.new_id e.now email o s in
          answer ≡ success 201 (some u) → HasAccount e email password after u)
  unfolding signup_hashed
  hashed-HasAccount e email password none s hashed long valid h = cc
  hashed-HasAccount e email password (some hash) s hashed long valid h =
      let (row, made, shown) = signup_answer-success _ h in
      let (same, by_email, by_id) = create_user-done e.link e.new_id e.now email hash s made in
      record {
        row = row;
        shown = shown;
        hashed = hashed ∙ ap (λ r. some r.password_hash) same;
        long = long;
        valid = valid;
        by_email = by_email;
        by_id = rw (← ap (λ (r : UserRow). r.id) same) by_id;
      }

  checked-HasAccount :
      (e : Exchange) (email password : Text) (s : Store) {u : User}
      → (let (after, answer) =
            signup_checked
              (lib.hash_password e.salt)
              lib.shown
              e.link
              e.new_id
              e.now
              email
              password
              s in
          answer ≡ success 201 (some u) → HasAccount e email password after u)
  unfolding signup_checked
  checked-HasAccount e email password s h = elim (Bool-cases (valid_email email)) [
    | inr bad ↦ let wrong = rw bad at h in cc
    | inl good ↦ elim (Bool-cases (ltb (byte_length password) 8)) [
      | inl short ↦ let wrong = rw (good, short) at h in cc
      | inr long ↦
          let right = rw (good, long) at h in
          rw (good, long)
            (hashed-HasAccount e email password (lib.hash_password e.salt password) s refl long good
              right)
    ]
  ]

  pub route-HasAccount :
      (e : Exchange) (r : Request) (s : Store) (c : Credentials) {u : User}
      → r ≡ signup (some c)
      → (route lib e r s).1 ≡ user (success 201 (some u))
      → HasAccount e (lib.normal c.email) c.password (route lib e r s).0 u
  unfolding route signup_handler
  route-HasAccount e r s c {u} asked answered =
      let made : (route lib e (signup (some c)) s).1 ≡ user (success 201 (some u)) =
        rw asked at answered in
      rw asked (checked-HasAccount e (lib.normal c.email) c.password s {u = u} cc)
