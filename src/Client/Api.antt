-- ===== src/Client/Api.antt =====
-- frontend/lib/api.ts, frontend/lib/auth.ts and frontend/types/api.ts.
--
-- `fetch`, `res.json()` and `JSON.stringify` are not modelled: a request is the value that is handed to
-- `fetch`, and an answer is what comes of it. A body that is sent stays a value. The backend is taken
-- to answer a success with JSON of the declared type, and a failure with JSON that is `null` or an
-- object; either may also fail to parse.
use shard_leak.Common.{
  ℕ, Bool, true, false, Option, none, some, [], ◌∷◌, ◌++◌, if◌then◌else◌, get_or,
}
use shard_leak.Common.Int.{ℤ}
use shard_leak.Common.Texts.{Text, codes, decimal}

pub data Algorithm : Type 0 where
  token_bucket fixed_window : Algorithm

pub record User : Type 0 where
  pub id : Text
  pub email : Text
  pub created_at : Text

pub record ApiKeyMeta : Type 0 where
  pub id : Text
  pub name : Text
  pub created_at : Text
  pub revoked_at : Option Text

pub record ApiKeyCreated : Type 0 where
  pub meta : ApiKeyMeta
  pub key : Text

pub record LimitConfig : Type 0 where
  pub identifier : Text
  pub algorithm : Algorithm
  pub limit : ℤ
  pub window_seconds : ℤ
  pub created_at : Text
  pub updated_at : Text

pub record CheckRequest : Type 0 where
  pub identifier : Text
  pub algorithm : Algorithm
  pub limit : ℤ
  pub window_seconds : ℤ

pub record CheckResult : Type 0 where
  pub allowed : Bool
  pub remaining : ℤ
  pub reset_at : Text
  pub retry_after : Option ℕ

-- Whether there is a `window`, and what `localStorage` holds under the token's key.
pub record Browser : Type 0 where
  pub has_window : Bool
  pub stored : Option Text

unfoldable pub get_token : Browser → Option Text
get_token b = if b.has_window then b.stored else none

unfoldable pub set_token : Text → Browser → Browser
set_token token b = record b { stored = some token }

unfoldable pub clear_token : Browser → Browser
clear_token b = record b { stored = none }

-- A string or `null` under `!!`: the empty string is false, too.
abbrev pub truthy : Option Text → Bool
truthy none = false
truthy (some []) = false
truthy (some (c ∷ s)) = true

unfoldable pub is_authenticated : Browser → Bool
unfolding get_token
is_authenticated b = truthy (get_token b)

pub data Method : Type 0 where
  get_method post_method delete_method : Method

pub data Body : Type 0 where
  empty : Body
  credentials : Text → Text → Body
  key_name : Text → Body
  config : CheckRequest → Body

-- What `request` is called with.
pub record Call : Type 0 where
  pub path : Text
  pub method : Method
  pub body : Body
  pub override_token : Option Text

-- What `request` hands to `fetch`. No caller gives headers of its own.
pub record HttpRequest : Type 0 where
  pub url : Text
  pub method : Method
  pub body : Body
  pub content_type : Text
  pub authorization : Option Text

-- `overrideToken ?? getToken()`
abbrev pub or_else : Option Text → Option Text → Option Text
or_else none other = other
or_else (some t) other = some t

-- The header is set if the token is truthy.
abbrev pub bearer : Option Text → Option Text
bearer none = none
bearer (some []) = none
bearer (some (c ∷ s)) = some (codes "Bearer " ++ (c ∷ s))

unfoldable pub build_request : Text → Call → Browser → HttpRequest
unfolding get_token
build_request base c b =
    let token = or_else c.override_token (get_token b) in
    record {
      url = base ++ c.path;
      method = c.method;
      body = c.body;
      content_type = codes "application/json";
      authorization = bearer token;
    }

-- `error` of a failure's body, with the parts that it has.
pub record ErrorDetail : Type 0 where
  pub code : Option Text
  pub message : Option Text

-- `null`, with the message of the `TypeError` that reading `error` of it raises; or an object.
pub data ErrorBody : Type 0 where
  null_body : Text → ErrorBody
  object_body : Option ErrorDetail → ErrorBody

-- `fetch` rejects with a message, or answers; `none` stands for a body that is no JSON.
pub data Fetched {ℓ} (T : Type ℓ) : Type ℓ where
  rejected : Text → Fetched T
  success : ℕ → Option T → Fetched T
  failure : ℕ → Option ErrorBody → Fetched T

-- What is thrown: an `ApiError` with its status, code and message, or another `Error`.
pub data Thrown : Type 0 where
  api_error : ℕ → Text → Text → Thrown
  other_error : Text → Thrown

pub data Result {ℓ} (T : Type ℓ) : Type ℓ where
  ok : T → Result T
  throw : Thrown → Result T

abbrev pub message_of : Thrown → Text
message_of (api_error status code message) = message
message_of (other_error message) = message

abbrev pub parse_error : ℕ → Thrown
parse_error status =
    api_error status (codes "PARSE_ERROR") (codes "Server returned an unexpected response")

abbrev pub code_of : Option ErrorDetail → Text
code_of none = codes "UNKNOWN"
code_of (some e) = get_or e.code (codes "UNKNOWN")

abbrev pub text_of : ℕ → Option ErrorDetail → Text
text_of status none = codes "Request failed with status " ++ decimal status
text_of status (some e) = get_or e.message (codes "Request failed with status " ++ decimal status)

-- `request` from the answer of `fetch` on.
unfoldable pub read_response {ℓ} : {T : Type ℓ} → Fetched T → Result T
read_response (rejected message) = throw (other_error message)
read_response (success status none) = throw (parse_error status)
read_response (success status (some body)) = ok body
read_response (failure status none) = throw (parse_error status)
read_response (failure status (some (null_body message))) = throw (other_error message)
read_response (failure status (some (object_body e))) =
    throw (api_error status (code_of e) (text_of status e))
