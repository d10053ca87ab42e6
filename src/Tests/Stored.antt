-- ===== src/Tests/Stored.antt =====
-- frontend/app/dashboard/limits/page.tsx with the backend: the theorems at small inputs.
use mathlib.Core.List.Permᴰ
use shard_leak.Common.{some, List, [], ◌∷◌, refl, ◌≡◌, arith}
use shard_leak.Common.Int.{pos}
use shard_leak.Common.Texts.{codes, starts_with, text_eq}
use shard_leak.Client.Limits
use shard_leak.Client.Limits.Replay.{row_of}
use shard_leak.Client.Uri.{encode_component, encode_unit, percent_byte, hex_digit}
use shard_leak.Backend.Auth.{bearer_token, jwt_auth, admit_session, session_user, trim_prefix}
use shard_leak.Backend.Store.{Store, LimitRow, first_of}
use shard_leak.Backend.Store.Consistent.{Consistent}
use shard_leak.Backend.Limits.Dashboard.{
  Action, types, loads, submits, deletes, others, act, act_all,
}
use shard_leak.Backend.Limits.Dashboard.Found.{shown_row, stored}
use shard_leak.Backend.Limits.Dashboard.Shown.{row_of-stored}
use shard_leak.Backend.Limits.Dashboard.Missed.{delete_missed}
use shard_leak.Client.Api.{token_bucket}
use shard_leak.Backend.Api
use shard_leak.Backend.Api.{Exchange, session}
use shard_leak.Backend.Accounts.{validate_token}
use shard_leak.Tests.Api.{lib, asks, ada_session, eve_session, joined}

abbrev calls : Exchange
calls = asks ada_session Api.list_limits (codes "c")

abbrev eve_deletes : Exchange
eve_deletes = asks eve_session (Api.delete_limit (codes "search")) []

abbrev actions : List Action
actions =
    types (Limits.type_identifier (codes "search"))
    ∷ submits calls
    ∷ others (eve_deletes ∷ [])
    ∷ deletes (codes "ip") calls
    ∷ []

joined-Consistent : Consistent joined.tables
unfolding first_of
joined-Consistent = record {
  user_ids = (refl, tt);
  emails = (refl, tt);
  key_ids = tt;
  hashes = tt;
  key_owners = tt;
  config_ids = tt;
  places = tt;
  config_owners = tt;
  numbers = tt;
}

row_of-stored_example :
    let (after, kept) = act_all lib (λ t. t) (loads calls ∷ actions) (Limits.initial, joined) in
    row_of after.configs (codes "search")
    ≡ shown_row lib.shown (stored (codes "u") kept.tables (codes "search"))
unfolding session validate_token jwt_auth bearer_token trim_prefix starts_with admit_session
    session_user encode_component encode_unit
row_of-stored_example =
    row_of-stored lib (λ t. t) (codes "u") (λ e. cc) (λ rows. Permᴰ.refl rows) calls actions
      Limits.initial joined (codes "search") joined-Consistent refl refl
      (
        refl,
        (
          (refl, λ e. cc),
          (
            ((λ same. let never : some (codes "w") ≡ some (codes "u") = same in ground arith), tt),
            ((refl, (λ e. cc), refl), tt),
          ),
        ),
      )

abbrev stored_row : LimitRow
stored_row = record {
  id = codes "c";
  user_id = codes "u";
  identifier = codes "user:1";
  algorithm = token_bucket;
  limit = pos 10;
  window_seconds = pos 60;
  created_at = 5;
  updated_at = 5;
}

abbrev limited : Store
limited = record joined { tables = record joined.tables { configs = stored_row ∷ [] } }

-- The identifier has a colon, and the router does not decode the path.
delete_missed_example :
    let (after, kept) =
      act lib (λ t. t) (deletes (codes "user:1") calls) (Limits.initial, limited) in
    (kept ≡ limited)
    × (after.configs ≡ Limits.initial.configs)
    × (after.alerts ≡ codes "configuration not found" ∷ Limits.initial.alerts)
unfolding session validate_token jwt_auth bearer_token trim_prefix starts_with admit_session
    session_user encode_component encode_unit percent_byte hex_digit first_of text_eq
delete_missed_example =
    delete_missed lib (λ t. t) calls (codes "u") (codes "user:1") (codes "user%3A1") Limits.initial
      limited (λ e. cc) refl refl refl (λ e. cc) refl
