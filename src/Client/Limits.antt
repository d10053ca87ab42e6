-- ===== src/Client/Limits.antt =====
-- frontend/app/dashboard/limits/page.tsx: the state of `LimitsPage` and its handlers.
--
-- A handler that awaits is two functions: up to the call, which it returns, and from the answer on.
-- The number inputs give integers.
pub mod Replay
pub mod Form
pub mod View
use shard_leak.Common.{
  ℕ, Bool, true, false, not, Option, none, some, List, [], ◌∷◌, if◌then◌else◌, get_or, keep_if,
  ◌==◌,
}
use shard_leak.Common.Int.{ℤ, pos, negsuc}
use shard_leak.Common.Texts.{Text, codes, text_eq}
use shard_leak.Client.Api.{
  Algorithm, token_bucket, LimitConfig, CheckRequest, Call, Thrown, api_error, other_error, Result,
  ok, throw, message_of,
}
use shard_leak.Client.Calls
use shard_leak.Client.Uri.{trim}

pub record LimitsPage : Type 0 where
  pub configs : List LimitConfig
  pub loading : Bool
  pub fetch_error : Text
  pub show_create : Bool
  pub identifier : Text
  pub algorithm : Algorithm
  pub limit : ℤ
  pub window_seconds : ℤ
  pub form_error : Text
  pub creating : Bool
  pub deleting : Option Text
  pub alerts : List Text

unfoldable pub initial : LimitsPage
initial = record {
  configs = [];
  loading = true;
  fetch_error = [];
  show_create = false;
  identifier = [];
  algorithm = token_bucket;
  limit = pos 100;
  window_seconds = pos 60;
  form_error = [];
  creating = false;
  deleting = none;
  alerts = [];
}

-- `load` from the answer on; the list may be `null`.
unfoldable pub load_done : Result (Option (List LimitConfig)) → LimitsPage → LimitsPage
load_done (ok listed) p = record p { configs = get_or listed []; loading = false }
load_done (throw e) p = record p { fetch_error = message_of e; loading = false }

-- `n <= 0`
abbrev pub not_positive : ℤ → Bool
not_positive (pos n) = n == 0
not_positive (negsuc n) = true

-- The guards of `handleCreate` with the trimmed identifier: the error that they set, if any.
unfoldable pub form_guard : Text → ℤ → ℤ → Option Text
form_guard [] limit window_seconds = some (codes "Identifier is required.")
form_guard (c ∷ id) limit window_seconds =
    if not_positive limit
    then some (codes "Limit must be greater than zero.")
    else if not_positive window_seconds
    then some (codes "Window must be greater than zero.")
    else none

-- `handleCreate` after its guards, up to the call.
unfoldable pub create_guarded : Option Text → LimitsPage → LimitsPage × Option Call
create_guarded (some e) p = (record p { form_error = e }, none)
create_guarded none p = (
  record p { form_error = []; creating = true },
  some (
      Calls.create_limit (record {
        identifier = trim p.identifier;
        algorithm = p.algorithm;
        limit = p.limit;
        window_seconds = p.window_seconds;
      })),
)

unfoldable pub create_start : LimitsPage → LimitsPage × Option Call
unfolding create_guarded
create_start p = create_guarded (form_guard (trim p.identifier) p.limit p.window_seconds) p

abbrev pub create_failure : Thrown → Text
create_failure (api_error status code message) =
    if status == 409 then codes "A configuration for this identifier already exists." else message
create_failure (other_error message) = codes "Failed to create configuration."

-- `handleCreate` from the answer on.
unfoldable pub create_done : Result LimitConfig → LimitsPage → LimitsPage
create_done (ok cfg) p = record p {
  configs = cfg ∷ p.configs;
  identifier = [];
  limit = pos 100;
  window_seconds = pos 60;
  algorithm = token_bucket;
  show_create = false;
  creating = false;
}
create_done (throw e) p = record p { form_error = create_failure e; creating = false }

-- `handleDelete` up to the call.
unfoldable pub delete_start : Text → LimitsPage → LimitsPage × Option Call
delete_start id p = (record p { deleting = some id }, some (Calls.delete_limit id))

abbrev pub differs : Text → LimitConfig → Bool
differs id c = not (text_eq c.identifier id)

-- `handleDelete` from the answer on.
unfoldable pub delete_done : Text → Result (Unit {0}) → LimitsPage → LimitsPage
delete_done id (ok _) p = record p { configs = keep_if (differs id) p.configs; deleting = none }
delete_done id (throw e) p = record p { alerts = message_of e ∷ p.alerts; deleting = none }

pub data Event : Type 0 where
  loaded : Result (Option (List LimitConfig)) → Event
  type_identifier : Text → Event
  pick_algorithm : Algorithm → Event
  type_limit : ℤ → Event
  type_window : ℤ → Event
  toggle_create : Event
  open_create : Event
  submit : Event
  created : Result LimitConfig → Event
  click_delete : Text → Event
  deleted : Text → Result (Unit {0}) → Event

unfoldable pub step : Event → LimitsPage → LimitsPage
step (loaded r) p = load_done r p
step (type_identifier v) p = record p { identifier = v }
step (pick_algorithm a) p = record p { algorithm = a }
step (type_limit n) p = record p { limit = n }
step (type_window n) p = record p { window_seconds = n }
step toggle_create p = record p { show_create = not p.show_create; form_error = [] }
step open_create p = record p { show_create = true }
step submit p = (create_start p).0
step (created r) p = create_done r p
step (click_delete id) p = (delete_start id p).0
step (deleted id r) p = delete_done id r p

unfoldable pub run : List Event → LimitsPage → LimitsPage
run [] p = p
run (e ∷ es) p = run es (step e p)
