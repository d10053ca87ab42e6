-- ===== src/Backend/Limits.antt =====
-- backend/internal/handlers/limits.go, for a user that is signed in.
pub mod Page
pub mod Dashboard
use shard_leak.Common.{
  ℕ, ◌⊎◌, inl, inr, Bool, true, false, Option, none, some, List, [], ◌∷◌, ◌++◌, map, if◌then◌else◌,
}
use shard_leak.Common.Int.{ℤ, pos}
use shard_leak.Common.Texts.{Text, codes, text_eq}
use shard_leak.Client.Api.{LimitConfig, Fetched, success}
use shard_leak.Backend.RateLimit.{Algorithm, Link}
use shard_leak.Backend.Check.{
  CheckRequest, Message, plain, unsupported_algorithm, above_zero, algorithm_of,
}
use shard_leak.Backend.Auth.Session.{error_answer}
use shard_leak.Backend.Store.{Store, LimitRow, Outcome, done, err_not_found, err_conflict, err_db}
use shard_leak.Backend.Store.Limits.{get_limit_config, list_limit_configs, delete_limit_config}
use shard_leak.Backend.Handlers.{Handler, bad_request, internal_error, answer_with}

-- `limitConfigResponse`; how JSON prints a time is an argument.
unfoldable pub config_response : (ℕ → Text) → LimitRow → LimitConfig
config_response shown c = record {
  identifier = c.identifier;
  algorithm = c.algorithm;
  limit = c.limit;
  window_seconds = c.window_seconds;
  created_at = shown c.created_at;
  updated_at = shown c.updated_at;
}

-- The checks of the body, in their order.
unfoldable pub limit_validated : Option CheckRequest → Message ⊎ CheckRequest
limit_validated none = inl (plain (codes "invalid JSON body"))
limit_validated (some req) =
    if text_eq req.identifier []
    then inl (plain (codes "identifier is required"))
    else elim (algorithm_of req.algorithm) [
      | none ↦ inl (unsupported_algorithm req.algorithm)
      | some algorithm ↦ elim (above_zero req.limit) [
        | none ↦ inl (plain (codes "limit must be greater than zero"))
        | some limit ↦ elim (above_zero req.window_seconds) [
          | none ↦ inl (plain (codes "window_seconds must be greater than zero"))
          | some window_seconds ↦ inr req
        ]
      ]
    ]

-- The answer to what the store says.
unfoldable pub inserted_answer : (ℕ → Text) → Outcome LimitRow → Fetched LimitConfig
unfolding config_response
inserted_answer shown (done row) = success 201 (some (config_response shown row))
inserted_answer shown err_conflict =
    error_answer 409 (codes "CONFLICT") (codes "configuration already exists for this identifier")
inserted_answer shown err_not_found = internal_error (codes "failed to create configuration")
inserted_answer shown err_db = internal_error (codes "failed to create configuration")

-- How a message is printed; `quote` is the `%q` of Go.
abbrev pub printed : (Text → Text) → Message → Text
printed quote (plain m) = m
printed quote (unsupported_algorithm a) =
    codes "unsupported algorithm " ++ quote a ++ codes "; use token_bucket or fixed_window"

-- `CreateLimitConfig` for the user of the session.
abbrev pub Insertion : Type 0
Insertion = CheckRequest → Store → Store × Outcome LimitRow

unfoldable pub create_answer :
    (Text → Text) → (ℕ → Text) → Insertion → Message ⊎ CheckRequest → Handler LimitConfig
unfolding inserted_answer
create_answer quote shown insert (inl message) s = (s, bad_request (printed quote message))
create_answer quote shown insert (inr req) s = answer_with (inserted_answer shown) (insert req s)

-- `Create`
unfoldable pub create_handler :
    (Text → Text) → (ℕ → Text) → Insertion → Option CheckRequest → Handler LimitConfig
unfolding limit_validated create_answer
create_handler quote shown insert body s = create_answer quote shown insert (limit_validated body) s

abbrev pub config_not_found {ℓ} : {T : Type ℓ} → Fetched T
config_not_found = error_answer 404 (codes "NOT_FOUND") (codes "configuration not found")

unfoldable pub got_answer : (ℕ → Text) → Outcome LimitRow → Fetched LimitConfig
unfolding config_response
got_answer shown (done row) = success 200 (some (config_response shown row))
got_answer shown err_not_found = config_not_found
got_answer shown err_conflict = internal_error (codes "failed to retrieve configuration")
got_answer shown err_db = internal_error (codes "failed to retrieve configuration")

-- `Get`, with the parameter that the router takes out of the path.
unfoldable pub get_handler : (ℕ → Text) → Link → Text → Text → Handler LimitConfig
unfolding got_answer get_limit_config
get_handler shown link [] user_id s = (s, bad_request (codes "identifier is required"))
get_handler shown link (c ∷ identifier) user_id s =
    answer_with (got_answer shown) (get_limit_config link user_id (c ∷ identifier) s)

unfoldable pub listed_answer : (ℕ → Text) → Outcome (List LimitRow) → Fetched (List LimitConfig)
unfolding config_response
listed_answer shown (done rows) = success 200 (some (map (config_response shown) rows))
listed_answer shown err_not_found = internal_error (codes "failed to retrieve configurations")
listed_answer shown err_conflict = internal_error (codes "failed to retrieve configurations")
listed_answer shown err_db = internal_error (codes "failed to retrieve configurations")

-- `List`; its answer is the list under `configs`.
unfoldable pub list_handler :
    (ℕ → Text) → (List LimitRow → List LimitRow) → Link → Text → Handler (List LimitConfig)
unfolding listed_answer list_limit_configs
list_handler shown latest_first link user_id s =
    answer_with (listed_answer shown) (list_limit_configs latest_first link user_id s)

unfoldable pub deleted_answer : Outcome (Unit {0}) → Fetched (Unit {0})
deleted_answer (done _) = success 200 (some tt)
deleted_answer err_not_found = config_not_found
deleted_answer err_conflict = internal_error (codes "failed to delete configuration")
deleted_answer err_db = internal_error (codes "failed to delete configuration")

-- `Delete`, likewise with the parameter of the path.
unfoldable pub delete_handler : Link → Text → Text → Handler (Unit {0})
unfolding deleted_answer delete_limit_config
delete_handler link [] user_id s = (s, bad_request (codes "identifier is required"))
delete_handler link (c ∷ identifier) user_id s =
    answer_with deleted_answer (delete_limit_config link user_id (c ∷ identifier) s)
