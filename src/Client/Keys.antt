-- ===== src/Client/Keys.antt =====
-- frontend/app/dashboard/api-keys/page.tsx: the state of `APIKeysPage` and its handlers.
--
-- A handler that awaits is two functions: up to the call, which it returns, and from the answer on.
pub mod Replay
pub mod Form
pub mod View
pub mod Copy
use shard_leak.Common.{
  ℕ, Bool, true, false, not, Option, none, some, List, [], ◌∷◌, map, if◌then◌else◌, get_or,
}
use shard_leak.Common.Texts.{Text, codes, text_eq}
use shard_leak.Client.Api.{
  ApiKeyMeta, ApiKeyCreated, Call, Thrown, api_error, other_error, Result, ok, throw, message_of,
}
use shard_leak.Client.Calls
use shard_leak.Client.Uri.{trim}

pub record NewKey : Type 0 where
  pub name : Text
  pub key : Text

pub record KeysPage : Type 0 where
  pub keys : List ApiKeyMeta
  pub loading : Bool
  pub fetch_error : Text
  pub show_create : Bool
  pub key_name : Text
  pub form_error : Text
  pub creating : Bool
  pub new_key : Option NewKey
  pub revoking : Option Text
  pub alerts : List Text

unfoldable pub initial : KeysPage
initial = record {
  keys = [];
  loading = true;
  fetch_error = [];
  show_create = false;
  key_name = [];
  form_error = [];
  creating = false;
  new_key = none;
  revoking = none;
  alerts = [];
}

-- `load` from the answer on; the list may be `null`.
unfoldable pub load_done : Result (Option (List ApiKeyMeta)) → KeysPage → KeysPage
load_done (ok listed) p = record p { keys = get_or listed []; loading = false }
load_done (throw e) p = record p { fetch_error = message_of e; loading = false }

-- `handleCreate` with the trimmed name, up to the call.
unfoldable pub create_named : Text → KeysPage → KeysPage × Option Call
create_named [] p = (record p { form_error = codes "Name is required." }, none)
create_named (c ∷ name) p =
    (record p { form_error = []; creating = true }, some (Calls.create_key (c ∷ name)))

unfoldable pub create_start : KeysPage → KeysPage × Option Call
unfolding create_named
create_start p = create_named (trim p.key_name) p

abbrev pub meta_of : ApiKeyCreated → ApiKeyMeta
meta_of created = record {
  id = created.meta.id;
  name = created.meta.name;
  created_at = created.meta.created_at;
  revoked_at = none;
}

abbrev pub create_failure : Thrown → Text
create_failure (api_error status code message) = message
create_failure (other_error message) = codes "Failed to create API key."

-- `handleCreate` from the answer on.
unfoldable pub create_done : Result ApiKeyCreated → KeysPage → KeysPage
create_done (ok created) p = record p {
  new_key = some (record { name = created.meta.name; key = created.key });
  keys = meta_of created ∷ p.keys;
  key_name = [];
  show_create = false;
  creating = false;
}
create_done (throw e) p = record p { form_error = create_failure e; creating = false }

-- `handleRevoke` up to the call; the answer to `confirm` is given.
unfoldable pub revoke_start : Text → Bool → KeysPage → KeysPage × Option Call
revoke_start id confirmed p =
    if not confirmed
    then (p, none)
    else (record p { revoking = some id }, some (Calls.revoke_key id))

-- The row of the list after a revocation at `now`.
abbrev pub revoke_row : Text → Text → ApiKeyMeta → ApiKeyMeta
revoke_row id now k = if text_eq k.id id then record k { revoked_at = some now } else k

-- `handleRevoke` from the answer on; `now` is `new Date().toISOString()`.
unfoldable pub revoke_done : Text → Text → Result (Unit {0}) → KeysPage → KeysPage
revoke_done id now (ok _) p = record p { keys = map (revoke_row id now) p.keys; revoking = none }
revoke_done id now (throw e) p = record p { alerts = message_of e ∷ p.alerts; revoking = none }

pub data Event : Type 0 where
  loaded : Result (Option (List ApiKeyMeta)) → Event
  type_name : Text → Event
  toggle_create : Event
  open_create : Event
  dismiss : Event
  submit : Event
  created : Result ApiKeyCreated → Event
  click_revoke : Text → Bool → Event
  revoked : Text → Text → Result (Unit {0}) → Event

unfoldable pub step : Event → KeysPage → KeysPage
step (loaded r) p = load_done r p
step (type_name v) p = record p { key_name = v }
step toggle_create p = record p { show_create = not p.show_create; form_error = [] }
step open_create p = record p { show_create = true }
step dismiss p = record p { new_key = none }
step submit p = (create_start p).0
step (created r) p = create_done r p
step (click_revoke id confirmed) p = (revoke_start id confirmed p).0
step (revoked id now r) p = revoke_done id now r p

unfoldable pub run : List Event → KeysPage → KeysPage
run [] p = p
run (e ∷ es) p = run es (step e p)

-- What a row of the table shows: its badge, and whether it has a `Revoke` button and this is enabled.
pub data Badge : Type 0 where
  active revoked_badge : Badge

pub record Row : Type 0 where
  pub name : Text
  pub badge : Badge
  pub revoke_enabled : Option Bool

abbrev pub eq_some : Option Text → Text → Bool
eq_some none id = false
eq_some (some other) id = text_eq other id

-- The dates that the row shows are left out. A time of revocation is no empty text.
unfoldable pub row_of : Option Text → ApiKeyMeta → Row
row_of revoking k = elim k.revoked_at [
  | none ↦ record {
    name = k.name;
    badge = active;
    revoke_enabled = some (not (eq_some revoking k.id));
  }
  | some time ↦ record { name = k.name; badge = revoked_badge; revoke_enabled = none }
]
