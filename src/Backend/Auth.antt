-- ===== src/Backend/Auth.antt =====
-- backend/internal/middleware: who may call, by the header Authorization.
--
-- The hash of a key, the row that the database has for a hash, and the validation of a session's token
-- are arguments: they are the work of libraries and of PostgreSQL. A header is taken to arrive as it was
-- sent.
pub mod Bearer
pub mod Page
pub mod Session
use shard_leak.Common.{
  ℕ, ◌⊎◌, inl, inr, Bool, true, false, Option, none, some, List, [], ◌∷◌, if◌then◌else◌, drop,
  length,
}
use shard_leak.Common.Texts.{Text, codes, starts_with}
use shard_leak.Backend.Redis.{Redis}
use shard_leak.Backend.RateLimit.{Link}
use shard_leak.Backend.Check.{CheckRequest, Response, error, plain, Server, check_handler}

-- Of a row of `api_keys`, its owner, and whether `revoked_at` is set.
pub record ApiKey : Type 0 where
  pub user_id : Text
  pub revoked : Bool

-- `strings.TrimPrefix`
unfoldable pub trim_prefix : Text → Text → Text
trim_prefix p s = if starts_with p s then drop (length p) s else s

-- `bearerToken`; a header that is not there reads as the empty string.
unfoldable pub bearer_token : Option Text → Text
unfolding trim_prefix
bearer_token none = []
bearer_token (some header) =
    if starts_with (codes "Bearer ") header then trim_prefix (codes "Bearer ") header else []

abbrev pub unauthorized : Text → Response
unauthorized message = error 401 (codes "UNAUTHORIZED") (plain message)

-- `APIKeyAuth` from its read of the database on.
unfoldable pub admit_key : Option ApiKey → Text ⊎ Text
admit_key none = inl (codes "invalid API key")
admit_key (some key) =
    if key.revoked then inl (codes "API key has been revoked") else inr key.user_id

-- `APIKeyAuth` with the token of the header.
unfoldable pub admit_token : (Text → Text) → (Text → Option ApiKey) → Text → Text ⊎ Text
unfolding admit_key
admit_token hash find [] = inl (codes "API key required")
admit_token hash find (c ∷ token) = admit_key (find (hash (c ∷ token)))

-- `APIKeyAuth`, up to the call of the next handler: the message of the refusal, or the user.
unfoldable pub api_key_auth : (Text → Text) → (Text → Option ApiKey) → Option Text → Text ⊎ Text
unfolding bearer_token admit_token
api_key_auth hash find header = admit_token hash find (bearer_token header)

-- `JWTAuth` from the validation of the token on, which gives the user of a token that is valid.
unfoldable pub session_user : Option Text → Text ⊎ Text
session_user none = inl (codes "invalid or expired token")
session_user (some user_id) = inr user_id

-- `JWTAuth` with the token of the header.
unfoldable pub admit_session : (Text → Option Text) → Text → Text ⊎ Text
unfolding session_user
admit_session subject [] = inl (codes "missing or invalid Authorization header")
admit_session subject (c ∷ token) = session_user (subject (c ∷ token))

-- `JWTAuth`, likewise.
unfoldable pub jwt_auth : (Text → Option Text) → Option Text → Text ⊎ Text
unfolding bearer_token admit_session
jwt_auth subject header = admit_session subject (bearer_token header)

module _ (R : Redis) where
  -- The handler behind a middleware.
  unfoldable pub behind :
      Text ⊎ Text → Link → ℕ → Option CheckRequest → Server R → Server R × Response
  behind (inl message) link now_ms body server = (server, unauthorized message)
  behind (inr user_id) link now_ms body server = check_handler R link now_ms body server

  -- The route `POST /api/v1/check`.
  unfoldable pub post_check :
      (Text → Text)
      → (Text → Option ApiKey)
      → Option Text
      → Link
      → ℕ
      → Option CheckRequest
      → Server R
      → Server R × Response
  unfolding api_key_auth behind
  post_check hash find header link now_ms body server =
      behind (api_key_auth hash find header) link now_ms body server
