-- ===== src/Backend/Keys.antt =====
-- backend/internal/handlers/apikeys.go, for a user that is signed in, with `GenerateAPIKey` of
-- backend/internal/auth/auth.go.
--
-- The random bytes are an argument (`none` if there are none to be had), and so is SHA-256, with its
-- result in hexadecimal.
use shard_leak.Common.{
  Bool, ℕ, ◌+◌, ◌-◌, ◌/◌, ◌%◌, Option, none, some, List, [], ◌∷◌, ◌++◌, map, ltb, if◌then◌else◌,
}
use shard_leak.Common.Texts.{Text, codes}
use shard_leak.Client.Api.{ApiKeyMeta, Fetched, success}
use shard_leak.Backend.RateLimit.{Link}
use shard_leak.Backend.Auth.Session.{error_answer}
use shard_leak.Backend.Store.{KeyRow, Outcome, done, err_not_found, err_conflict, err_db}
use shard_leak.Backend.Store.Keys.{create_api_key, get_api_keys_by_user, revoke_api_key}
use shard_leak.Backend.Handlers.{Handler, bad_request, internal_error, answer_with}

-- `hex.EncodeToString`
abbrev pub hex_digit : ℕ → ℕ
hex_digit n = if ltb n 10 then b'0' + n else b'a' + (n - 10)

unfoldable pub hex : List ℕ → Text
hex [] = []
hex (b ∷ bytes) = hex_digit (b / 16 % 16) ∷ hex_digit (b % 16) ∷ hex bytes

-- The key that `GenerateAPIKey` makes of 32 bytes.
unfoldable pub plaintext_of : List ℕ → Text
unfolding hex
plaintext_of bytes = codes "sk_shard_" ++ hex bytes

-- `createAPIKeyResponse`
pub record CreatedKey : Type 0 where
  pub id : Text
  pub name : Text
  pub key : Text
  pub created_at : Text

-- The answer to what the store says of the new row.
unfoldable pub created_answer : (ℕ → Text) → Text → Outcome KeyRow → Fetched CreatedKey
created_answer shown plaintext (done k) =
    success 201
      (some (record { id = k.id; name = k.name; key = plaintext; created_at = shown k.created_at }))
created_answer shown plaintext err_not_found = internal_error (codes "failed to create API key")
created_answer shown plaintext err_conflict = internal_error (codes "failed to create API key")
created_answer shown plaintext err_db = internal_error (codes "failed to create API key")

-- `Create` from the call of `GenerateAPIKey` on.
unfoldable pub create_generated :
    (Text → Text)
    → (ℕ → Text)
    → Link
    → Text
    → ℕ
    → Option (List ℕ)
    → Text
    → Text
    → Handler CreatedKey
unfolding plaintext_of created_answer create_api_key
create_generated sha256 shown link id now none name user_id s =
    (s, internal_error (codes "failed to generate API key"))
create_generated sha256 shown link id now (some bytes) name user_id s =
    answer_with (created_answer shown (plaintext_of bytes))
      (create_api_key link id now user_id (sha256 (plaintext_of bytes)) name s)

-- `Create`
unfoldable pub create_handler :
    (Text → Text)
    → (ℕ → Text)
    → Link
    → Text
    → ℕ
    → Option (List ℕ)
    → Option Text
    → Text
    → Handler CreatedKey
unfolding create_generated
create_handler sha256 shown link id now random none user_id s =
    (s, bad_request (codes "invalid JSON body"))
create_handler sha256 shown link id now random (some []) user_id s =
    (s, bad_request (codes "name is required"))
create_handler sha256 shown link id now random (some (c ∷ name)) user_id s =
    create_generated sha256 shown link id now random (c ∷ name) user_id s

-- `apiKeyMeta`
unfoldable pub meta_response : (ℕ → Text) → KeyRow → ApiKeyMeta
meta_response shown k = record {
  id = k.id;
  name = k.name;
  created_at = shown k.created_at;
  revoked_at = elim k.revoked_at [ none ↦ none | some time ↦ some (shown time) ];
}

unfoldable pub listed_answer : (ℕ → Text) → Outcome (List KeyRow) → Fetched (List ApiKeyMeta)
unfolding meta_response
listed_answer shown (done rows) = success 200 (some (map (meta_response shown) rows))
listed_answer shown err_not_found = internal_error (codes "failed to retrieve API keys")
listed_answer shown err_conflict = internal_error (codes "failed to retrieve API keys")
listed_answer shown err_db = internal_error (codes "failed to retrieve API keys")

-- `List`; its answer is the list under `api_keys`.
unfoldable pub list_handler :
    (ℕ → Text) → (List KeyRow → List KeyRow) → Link → Text → Handler (List ApiKeyMeta)
unfolding listed_answer get_api_keys_by_user
list_handler shown latest_first link user_id s =
    answer_with (listed_answer shown) (get_api_keys_by_user latest_first link user_id s)

unfoldable pub revoked_answer : Outcome (Unit {0}) → Fetched (Unit {0})
revoked_answer (done _) = success 200 (some tt)
revoked_answer err_not_found = error_answer 404 (codes "NOT_FOUND") (codes "API key not found")
revoked_answer err_conflict = internal_error (codes "failed to revoke API key")
revoked_answer err_db = internal_error (codes "failed to revoke API key")

-- `Revoke`, with the parameter that the router takes out of the path.
unfoldable pub revoke_handler : (Text → Bool) → Link → ℕ → Text → Text → Handler (Unit {0})
unfolding revoked_answer revoke_api_key
revoke_handler is_uuid link now [] user_id s = (s, bad_request (codes "id is required"))
revoke_handler is_uuid link now (c ∷ id) user_id s =
    answer_with revoked_answer (revoke_api_key is_uuid link now (c ∷ id) user_id s)
