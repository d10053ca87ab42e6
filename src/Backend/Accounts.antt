-- ===== src/Backend/Accounts.antt =====
-- backend/internal/handlers/auth.go: `Signup`, `Login` and `validEmail`, with the tokens of
-- backend/internal/auth/auth.go.
--
-- Arguments are: `strings.ToLower` after `strings.TrimSpace` (`normal`), bcrypt with its salt and its
-- comparison, and the signing and parsing of the JWT library, which has the secret.
use shard_leak.Common.{
  ℕ, suc, ◌+◌, ◌-◌, ◌*◌, Bool, false, ◌&&◌, ◌||◌, not, Option, none, some, [], ◌∷◌, ltb, leb, ◌==◌,
  if◌then◌else◌, is_some, length, drop,
}
use shard_leak.Common.Texts.{Text, codes, starts_with}
use shard_leak.Client.Api.{User, Fetched, success}
use shard_leak.Backend.RateLimit.{Link}
use shard_leak.Backend.Auth.Session.{error_answer}
use shard_leak.Backend.Store.{UserRow, Outcome, done, err_not_found, err_conflict, err_db}
use shard_leak.Backend.Store.Users.{create_user, get_user_by_email}
use shard_leak.Backend.Handlers.{Handler, bad_request, internal_error, answer_with}

-- `strings.Index` for one character.
unfoldable pub index : Text → ℕ → Option ℕ
index [] sought = none
index (c ∷ s) sought =
    let rest = index s sought in
    if c == sought then some 0 else elim rest [ none ↦ none | some n ↦ some (suc n) ]

-- `validEmail`
unfoldable pub valid_email : Text → Bool
unfolding index
valid_email email = elim (index email b'@') [
  | none ↦ false
  | some at' ↦
      if ltb at' 1 || leb (length email - 1) at'
      then false
      else let domain = drop (at' + 1) email in
        is_some (index domain b'.') && not (starts_with (codes ".") domain)
]

-- How many bytes UTF-8 takes for a UTF-16 unit: two for each half of a pair of surrogates.
abbrev pub unit_bytes : ℕ → ℕ
unit_bytes c =
    if ltb c 128 then 1 else if ltb c 2048 then 2 else if leb 55296 c && ltb c 57344 then 2 else 3

-- `len` of a string.
abbrev pub byte_length : Text → ℕ
byte_length [] = 0
byte_length (c ∷ s) = unit_bytes c + byte_length s

-- Times are in seconds.
pub record Claims : Type 0 where
  pub subject : Text
  pub issued_at : ℕ
  pub expires_at : ℕ

-- `CreateToken`
unfoldable pub create_token : (Claims → Option Text) → ℕ → Text → Option Text
create_token sign now user_id =
    sign (record { subject = user_id; issued_at = now; expires_at = now + 24 * 3600 })

-- `ValidateToken` at a time, and the subject of the claims that it gives; the library's parser looks
-- at the signature and at the time of expiry.
unfoldable pub validate_token : (ℕ → Text → Option Claims) → ℕ → Text → Option Text
validate_token parse now token = elim (parse now token) [
  | none ↦ none
  | some claims ↦ some claims.subject
]

-- `signupResponse` and `meResponse`; how JSON prints a time is an argument.
unfoldable pub user_response : (ℕ → Text) → UserRow → User
user_response shown u = record { id = u.id; email = u.email; created_at = shown u.created_at }

unfoldable pub signup_answer : (ℕ → Text) → Outcome UserRow → Fetched User
unfolding user_response
signup_answer shown (done u) = success 201 (some (user_response shown u))
signup_answer shown err_conflict =
    error_answer 409 (codes "CONFLICT") (codes "email already registered")
signup_answer shown err_not_found = internal_error (codes "failed to create user")
signup_answer shown err_db = internal_error (codes "failed to create user")

-- The body of `Signup` and of `Login`.
pub record Credentials : Type 0 where
  pub email : Text
  pub password : Text

-- `Signup` from the result of `HashPassword` on.
unfoldable pub signup_hashed : (ℕ → Text) → Link → Text → ℕ → Text → Option Text → Handler User
unfolding signup_answer create_user
signup_hashed shown link id now email none s =
    (s, internal_error (codes "failed to process request"))
signup_hashed shown link id now email (some hash) s =
    answer_with (signup_answer shown) (create_user link id now email hash s)

-- `Signup` with the email in its normal form.
unfoldable pub signup_checked :
    (Text → Option Text) → (ℕ → Text) → Link → Text → ℕ → Text → Text → Handler User
unfolding signup_hashed valid_email
signup_checked hash_password shown link id now email password s =
    if not (valid_email email)
    then (s, bad_request (codes "invalid email address"))
    else if ltb (byte_length password) 8
    then (s, bad_request (codes "password must be at least 8 characters"))
    else signup_hashed shown link id now email (hash_password password) s

-- `Signup`
unfoldable pub signup_handler :
    (Text → Text)
    → (Text → Option Text)
    → (ℕ → Text)
    → Link
    → Text
    → ℕ
    → Option Credentials
    → Handler User
unfolding signup_checked
signup_handler normal hash_password shown link id now none s =
    (s, bad_request (codes "invalid JSON body"))
signup_handler normal hash_password shown link id now (some req) s =
    signup_checked hash_password shown link id now (normal req.email) req.password s

abbrev pub invalid_credentials {ℓ} : {T : Type ℓ} → Fetched T
invalid_credentials = error_answer 401 (codes "UNAUTHORIZED") (codes "invalid credentials")

-- `Login` from the result of `CreateToken` on.
unfoldable pub token_answer : Option Text → Fetched Text
token_answer none = internal_error (codes "failed to issue token")
token_answer (some token) = success 200 (some token)

-- `Login` from the result of `GetUserByEmail` on: the comparison of the password with a hash, and the
-- token of a user, are arguments.
unfoldable pub login_answer :
    (Text → Text → Bool) → (Text → Option Text) → Text → Outcome UserRow → Fetched Text
unfolding token_answer
login_answer compare_password sign password (done u) =
    if compare_password u.password_hash password
    then token_answer (sign u.id)
    else invalid_credentials
login_answer compare_password sign password err_not_found = invalid_credentials
login_answer compare_password sign password err_conflict = invalid_credentials
login_answer compare_password sign password err_db = invalid_credentials

-- `Login` with the email in its normal form. Its answer is the token.
unfoldable pub login_checked :
    (Text → Text → Bool) → (Text → Option Text) → Link → Text → Text → Handler Text
unfolding login_answer get_user_by_email
login_checked compare_password sign link [] password s =
    (s, bad_request (codes "email and password are required"))
login_checked compare_password sign link (c ∷ email) [] s =
    (s, bad_request (codes "email and password are required"))
login_checked compare_password sign link (c ∷ email) (p ∷ password) s =
    answer_with (login_answer compare_password sign (p ∷ password))
      (get_user_by_email link (c ∷ email) s)

-- `Login`
unfoldable pub login_handler :
    (Text → Text)
    → (Text → Text → Bool)
    → (Text → Option Text)
    → Link
    → Option Credentials
    → Handler Text
unfolding login_checked
login_handler normal compare_password sign link none s =
    (s, bad_request (codes "invalid JSON body"))
login_handler normal compare_password sign link (some req) s =
    login_checked compare_password sign link (normal req.email) req.password s

-- What `Me` takes for the user of an id: any error of the store is none.
unfoldable pub found_user : (ℕ → Text) → Outcome UserRow → Option User
unfolding user_response
found_user shown (done u) = some (user_response shown u)
found_user shown err_not_found = none
found_user shown err_conflict = none
found_user shown err_db = none
