-- ===== src/Backend/Store/Keys.antt =====
-- backend/internal/store/store.go: the table `api_keys`.
use shard_leak.Common.{
  ℕ, Bool, true, false, ◌&&◌, ◌||◌, not, none, some, List, ◌∷◌, map, if◌then◌else◌, is_some,
  keep_if,
}
use shard_leak.Common.Texts.{Text, text_eq}
use shard_leak.Backend.RateLimit.{Link, unreachable}
use shard_leak.Backend.Store.{
  KeyRow, Tables, Store, Outcome, query_row, exec, Verdict, inserts, other_violation, insert_row,
  query, first_of, some_row, user_has_id, key_has_id, key_has_hash, key_of,
}

-- `CreateAPIKey`, for which a unique violation is an error like the others.
unfoldable pub judge_key : KeyRow → Tables → Verdict KeyRow
judge_key k t =
    if some_row (key_has_id k.id) t.api_keys
      || some_row (key_has_hash k.key_hash) t.api_keys
      || not (some_row (user_has_id k.user_id) t.users)
    then other_violation
    else inserts k (record t { api_keys = k ∷ t.api_keys })

-- The row of the INSERT.
abbrev pub new_key : Text → ℕ → Text → Text → Text → KeyRow
new_key id now user_id key_hash name = record {
  id = id;
  user_id = user_id;
  key_hash = key_hash;
  name = name;
  created_at = now;
  revoked_at = none;
}

unfoldable pub create_api_key :
    Link → Text → ℕ → Text → Text → Text → Store → Store × Outcome KeyRow
unfolding insert_row judge_key
create_api_key link id now user_id key_hash name s =
    insert_row link (judge_key (new_key id now user_id key_hash name) s.tables) s

-- The argument puts rows in the order of `created_at DESC`.
unfoldable pub get_api_keys_by_user :
    (List KeyRow → List KeyRow) → Link → Text → Store → Store × Outcome (List KeyRow)
unfolding query
get_api_keys_by_user latest_first link user_id s =
    query link (latest_first (keep_if (key_of user_id) s.api_keys)) s

unfoldable pub get_api_key_by_hash : Link → Text → Store → Store × Outcome KeyRow
unfolding query_row first_of
get_api_key_by_hash link hash s = query_row link (first_of (key_has_hash hash) s.api_keys) s

-- The rows that `RevokeAPIKey` touches, and what it does to a row.
unfoldable pub revocable : Text → Text → KeyRow → Bool
revocable id user_id k = text_eq k.id id && text_eq k.user_id user_id && not (is_some k.revoked_at)

unfoldable pub revoke : ℕ → Text → Text → KeyRow → KeyRow
unfolding revocable
revoke now id user_id k = if revocable id user_id k then record k { revoked_at = some now } else k

-- PostgreSQL refuses the statement for an id that it does not read as a UUID, and then it does nothing.
abbrev pub statement_link : Bool → Link → Link
statement_link true link = link
statement_link false link = unreachable

-- Whether PostgreSQL reads the id as a UUID is an argument.
unfoldable pub revoke_api_key :
    (Text → Bool) → Link → ℕ → Text → Text → Store → Store × Outcome (Unit {0})
unfolding exec first_of revocable revoke
revoke_api_key is_uuid link now id user_id s =
    exec (statement_link (is_uuid id) link) (some_row (revocable id user_id) s.api_keys)
      (record s.tables { api_keys = map (revoke now id user_id) s.api_keys }) s
