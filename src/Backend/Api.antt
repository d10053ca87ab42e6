-- ===== src/Backend/Api.antt =====
-- backend/cmd/server/main.go: the routes under /api/v1, as steps of the store.
--
-- Of POST /api/v1/check this has what the middleware does: its handler does not use the store. A
-- request comes with what the server draws while it serves it: the fate of the one statement that it
-- runs, the time (in seconds, the same for the server and the database), the id of a new row, the
-- salt of bcrypt and the random bytes of a key.
pub mod Changes
pub mod KeyLife
pub mod Signup
pub mod Invariant
pub mod Isolation
use shard_leak.Common.{ℕ, ◌⊎◌, inl, inr, Bool, Option, none, some, List, [], ◌∷◌, is_some}
use shard_leak.Common.Texts.{Text}
use shard_leak.Client.Api.{CheckRequest as CheckConfig}
use shard_leak.Client.Api.{User, ApiKeyMeta, LimitConfig, Fetched}
use shard_leak.Backend.RateLimit.{Link}
use shard_leak.Backend.Check.{CheckRequest}
use shard_leak.Backend.Auth.{ApiKey, bearer_token, jwt_auth, api_key_auth}
use shard_leak.Backend.Auth.Session.{me_answer}
use shard_leak.Backend.Store.{
  Store, UserRow, KeyRow, LimitRow, Outcome, done, err_not_found, err_conflict, err_db,
}
use shard_leak.Backend.Store.Users.{get_user_by_id}
use shard_leak.Backend.Store.Keys.{get_api_key_by_hash}
use shard_leak.Backend.Store.Limits.{create_limit_config}
use shard_leak.Backend.Handlers.{Handler, answer_with, for_user}
use shard_leak.Backend.Accounts.{
  Claims, create_token, validate_token, Credentials, signup_handler, login_handler, found_user,
}
use shard_leak.Backend.Keys
use shard_leak.Backend.Limits

-- What the backend uses of its libraries and of PostgreSQL.
pub record Library : Type 0 where
  -- `strings.ToLower` after `strings.TrimSpace`
  pub normal : Text → Text
  -- bcrypt: a hash from a salt and a password, and its comparison with a password.
  pub hash_password : Text → Text → Option Text
  pub compare_password : Text → Text → Bool
  -- The JWT library: the token of claims, and the claims of a token that is valid at a time.
  pub sign : Claims → Option Text
  pub parse : ℕ → Text → Option Claims
  pub sha256 : Text → Text
  -- How JSON prints a time, and `%q` a text.
  pub shown : ℕ → Text
  pub quote : Text → Text
  -- Whether the JSON text of a configuration has at most 4096 bytes and its numbers fit an `int`.
  pub decodes : CheckConfig → Bool
  -- Whether PostgreSQL reads a text as a UUID.
  pub is_uuid : Text → Bool
  -- `ORDER BY created_at DESC`
  pub latest_keys : List KeyRow → List KeyRow
  pub latest_configs : List LimitRow → List LimitRow

pub data Request : Type 0 where
  signup login : Option Credentials → Request
  me list_keys list_limits check : Request
  create_key : Option Text → Request
  revoke_key get_limit delete_limit : Text → Request
  create_limit : Option CheckRequest → Request

pub record Exchange : Type 0 where
  pub authorization : Option Text
  pub request : Request
  pub link : Link
  pub now : ℕ
  pub new_id : Text
  pub salt : Text
  pub random : Option (List ℕ)

pub data Answer : Type 0 where
  user : Fetched User → Answer
  token : Fetched Text → Answer
  key : Fetched Keys.CreatedKey → Answer
  keys : Fetched (List ApiKeyMeta) → Answer
  config : Fetched LimitConfig → Answer
  configs : Fetched (List LimitConfig) → Answer
  status : Fetched (Unit {0}) → Answer
  admitted : Text ⊎ Text → Answer

abbrev answered {ℓ} : {T : Type ℓ} → (T → Answer) → Store × T → Store × Answer
answered form (s, t) = (s, form t)

-- What `APIKeyAuth` makes of the result of `GetAPIKeyByHash`: any error is none.
unfoldable pub found_key : Outcome KeyRow → Option ApiKey
found_key (done k) = some (record { user_id = k.user_id; revoked = is_some k.revoked_at })
found_key err_not_found = none
found_key err_conflict = none
found_key err_db = none

module _ (lib : Library) where
  -- The refusal of `JWTAuth`, or the user of the session.
  unfoldable pub session : Exchange → Text ⊎ Text
  unfolding jwt_auth validate_token
  session e = jwt_auth (validate_token lib.parse e.now) e.authorization

  -- `Me` of a user that is signed in.
  unfoldable pub me_of : Exchange → Text → Handler User
  unfolding get_user_by_id me_answer found_user
  me_of e user_id s =
      answer_with (λ o. me_answer (found_user lib.shown o)) (get_user_by_id e.link user_id s)

  -- `APIKeyAuth` on the row that the store has for a hash.
  unfoldable pub admit : Exchange → Store → Text ⊎ Text
  unfolding api_key_auth found_key get_api_key_by_hash
  admit e s =
      api_key_auth lib.sha256 (λ hash. found_key (get_api_key_by_hash e.link hash s).1)
        e.authorization

  -- And the store after it: a header without a token runs no statement.
  unfoldable pub looked_up : Exchange → Text → Store → Store
  unfolding get_api_key_by_hash
  looked_up e [] s = s
  looked_up e (c ∷ t) s = (get_api_key_by_hash e.link (lib.sha256 (c ∷ t)) s).0

  unfoldable pub route : Exchange → Request → Store → Store × Answer
  unfolding session create_token signup_handler login_handler for_user me_of Keys.create_handler
      Keys.list_handler Keys.revoke_handler create_limit_config Limits.create_handler
      Limits.list_handler Limits.get_handler Limits.delete_handler admit looked_up
  route e (signup body) s =
      answered user (
        signup_handler lib.normal (lib.hash_password e.salt) lib.shown e.link e.new_id e.now body s)
  route e (login body) s =
      answered token
        (login_handler lib.normal lib.compare_password (create_token lib.sign e.now) e.link body s)
  route e me s = answered user (for_user (session e) (me_of e) s)
  route e (create_key body) s = answered key (
      for_user (session e)
        (Keys.create_handler lib.sha256 lib.shown e.link e.new_id e.now e.random body) s)
  route e list_keys s =
      answered keys (for_user (session e) (Keys.list_handler lib.shown lib.latest_keys e.link) s)
  route e (revoke_key id) s =
      answered status (for_user (session e) (Keys.revoke_handler lib.is_uuid e.link e.now id) s)
  route e (create_limit body) s = answered config (
      for_user (session e)
        (λ user_id.
          Limits.create_handler lib.quote lib.shown
            (create_limit_config e.link e.new_id e.now user_id) body)
        s)
  route e list_limits s =
      answered configs
        (for_user (session e) (Limits.list_handler lib.shown lib.latest_configs e.link) s)
  route e (get_limit identifier) s =
      answered config (for_user (session e) (Limits.get_handler lib.shown e.link identifier) s)
  route e (delete_limit identifier) s =
      answered status (for_user (session e) (Limits.delete_handler e.link identifier) s)
  route e check s = (looked_up e (bearer_token e.authorization) s, admitted (admit e s))

  unfoldable pub serve : Exchange → Store → Store × Answer
  unfolding route
  serve e s = route e e.request s

  unfoldable pub run : List Exchange → Store → Store
  unfolding serve
  run [] s = s
  run (e ∷ es) s = run es (serve e s).0
