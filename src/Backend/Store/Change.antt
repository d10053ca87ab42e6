-- ===== src/Backend/Store/Change.antt =====
-- backend/internal/store/store.go: what the statements may do to the tables.
use shard_leak.Common.{
  Bool, ℕ, true, false, Option, none, some, ◌∷◌, map, keep_if, ◌≡◌, refl, arith,
}
use shard_leak.Common.Texts.{Text}
use shard_leak.Client.Api.{Algorithm}
use shard_leak.Backend.RateLimit.{Link}
use shard_leak.Backend.Check.{CheckRequest}
use shard_leak.Backend.Store.{
  UserRow, KeyRow, LimitRow, Tables, Store, inserts, some_row, user_has_id, user_has_email,
  key_has_id, key_has_hash, config_has_id, config_at,
}
use shard_leak.Backend.Store.Users.{judge_user, create_user}
use shard_leak.Backend.Store.Keys.{
  judge_key, create_api_key, revoke, revoke_api_key, statement_link,
}
use shard_leak.Backend.Store.Limits.{
  fits_column, new_config, judge_config, judge_named, named_algorithm, create_limit_config,
  other_config, delete_limit_config,
}
use shard_leak.Backend.Store.Statements.{insert_row-cases, exec-cases}

-- A new user has an id and an email of its own.
pub record FreshUser (u : UserRow) (t : Tables) : Type 0 where
  pub id : some_row (user_has_id u.id) t.users ≡ false
  pub email : some_row (user_has_email u.email) t.users ≡ false

-- A new key has an id and a hash of its own, is not revoked, and belongs to a user.
pub record FreshKey (k : KeyRow) (t : Tables) : Type 0 where
  pub id : some_row (key_has_id k.id) t.api_keys ≡ false
  pub hash : some_row (key_has_hash k.key_hash) t.api_keys ≡ false
  pub owner : some_row (user_has_id k.user_id) t.users ≡ true
  pub unrevoked : k.revoked_at ≡ none

-- A new configuration has an id of its own, its owner has none for the identifier, and its numbers are
-- positive and fit their columns.
pub record FreshConfig (c : LimitRow) (t : Tables) : Type 0 where
  pub id : some_row (config_has_id c.id) t.configs ≡ false
  pub place : some_row (config_at c.user_id c.identifier) t.configs ≡ false
  pub owner : some_row (user_has_id c.user_id) t.users ≡ true
  pub limit : fits_column c.limit ≡ true
  pub window_seconds : fits_column c.window_seconds ≡ true

-- What a request may do to the tables that a user makes, or nobody (`who`), and that asks for the
-- revocation of a key, or not (`target`).
pub data Change (who target : Option Text) (t : Tables) : Tables → Type 0 where
  unchanged : Change who target t t
  signed_up : (u : UserRow) → FreshUser u t → Change who target t (record t { users = u ∷ t.users })
  key_made :
      (k : KeyRow)
      → some k.user_id ≡ who
      → FreshKey k t
      → Change who target t (record t { api_keys = k ∷ t.api_keys })
  key_withdrawn :
      (now : ℕ) (id user_id : Text)
      → some id ≡ target
      → some user_id ≡ who
      → Change who target t (record t { api_keys = map (revoke now id user_id) t.api_keys })
  config_made :
      (c : LimitRow)
      → some c.user_id ≡ who
      → FreshConfig c t
      → Change who target t (record t { configs = c ∷ t.configs })
  config_dropped :
      (user_id identifier : Text)
      → some user_id ≡ who
      → Change who target t
          (record t { configs = keep_if (other_config user_id identifier) t.configs })

pub judge_user-inserts :
    (u row : UserRow) (t after : Tables)
    → judge_user u t ≡ inserts row after
    → (record t { users = u ∷ t.users } ≡ after)
      × (u ≡ row)
      × (some_row (user_has_id u.id) t.users ≡ false)
      × (some_row (user_has_email u.email) t.users ≡ false)
unfolding judge_user
judge_user-inserts u row t after e = ground arith

pub judge_key-inserts :
    (k row : KeyRow) (t after : Tables)
    → judge_key k t ≡ inserts row after
    → (record t { api_keys = k ∷ t.api_keys } ≡ after)
      × (k ≡ row)
      × (some_row (key_has_id k.id) t.api_keys ≡ false)
      × (some_row (key_has_hash k.key_hash) t.api_keys ≡ false)
      × (some_row (user_has_id k.user_id) t.users ≡ true)
unfolding judge_key
judge_key-inserts k row t after e = ground arith

pub judge_config-inserts :
    (c row : LimitRow) (t after : Tables)
    → judge_config c t ≡ inserts row after
    → (record t { configs = c ∷ t.configs } ≡ after)
      × (c ≡ row)
      × (some_row (config_has_id c.id) t.configs ≡ false)
      × (some_row (config_at c.user_id c.identifier) t.configs ≡ false)
      × (some_row (user_has_id c.user_id) t.users ≡ true)
      × (fits_column c.limit ≡ true)
      × (fits_column c.window_seconds ≡ true)
unfolding judge_config
judge_config-inserts c row t after e = ground arith

module _ (who target : Option Text) (link : Link) where
  judge_named-Change :
      (id : Text) (now : ℕ) (user_id : Text) (req : CheckRequest) (o : Option Algorithm) (s : Store)
      (row : LimitRow) (t : Tables)
      → some user_id ≡ who
      → judge_named id now user_id req o s.tables ≡ inserts row t
      → Change who target s.tables t
  unfolding judge_named
  judge_named-Change id now user_id req none s row t mine e = absurd (cc e)
  judge_named-Change id now user_id req (some algorithm) s row t mine e =
      let (after, same, own, place, owner, limit, window_seconds) =
        judge_config-inserts (new_config id now user_id req algorithm) row s.tables t e in
      rw (← after) (
        config_made _ mine (record {
          id = own;
          place = place;
          owner = owner;
          limit = limit;
          window_seconds = window_seconds;
        }))

  pub create_limit_config-Change :
      (id : Text) (now : ℕ) (user_id : Text) (req : CheckRequest) (s : Store)
      → some user_id ≡ who
      → Change who target s.tables (create_limit_config link id now user_id req s).0.tables
  unfolding create_limit_config
  create_limit_config-Change id now user_id req s mine =
      insert_row-cases (Change who target s.tables) link _ s unchanged λ row t e.
        judge_named-Change id now user_id req (named_algorithm req.algorithm) s row t mine e

  pub create_user-Change :
      (id : Text) (now : ℕ) (email hash : Text) (s : Store)
      → Change who target s.tables (create_user link id now email hash s).0.tables
  unfolding create_user judge_user
  create_user-Change id now email hash s =
      insert_row-cases (Change who target s.tables) link _ s unchanged λ u t e.
        let (after, same, own, email) = judge_user-inserts _ u s.tables t e in
        rw (← after) (signed_up _ (record { id = own; email = email }))

  pub create_api_key-Change :
      (id : Text) (now : ℕ) (user_id hash name : Text) (s : Store)
      → some user_id ≡ who
      → Change who target s.tables (create_api_key link id now user_id hash name s).0.tables
  unfolding create_api_key judge_key
  create_api_key-Change id now user_id hash name s mine =
      insert_row-cases (Change who target s.tables) link _ s unchanged λ k t e.
        let (after, same, own, hash, owner) = judge_key-inserts _ k s.tables t e in
        rw (← after)
          (key_made _ mine (record { id = own; hash = hash; owner = owner; unrevoked = refl }))

  pub revoke_api_key-Change :
      (is_uuid : Text → Bool) (now : ℕ) (id user_id : Text) (s : Store)
      → some id ≡ target
      → some user_id ≡ who
      → Change who target s.tables (revoke_api_key is_uuid link now id user_id s).0.tables
  unfolding revoke_api_key
  revoke_api_key-Change is_uuid now id user_id s aimed mine =
      exec-cases (Change who target s.tables) (statement_link (is_uuid id) link) _ _ s unchanged
        (key_withdrawn now id user_id aimed mine)

  pub delete_limit_config-Change :
      (user_id identifier : Text) (s : Store)
      → some user_id ≡ who
      → Change who target s.tables (delete_limit_config link user_id identifier s).0.tables
  unfolding delete_limit_config
  delete_limit_config-Change user_id identifier s mine =
      exec-cases (Change who target s.tables) link _ _ s unchanged
        (config_dropped user_id identifier mine)
