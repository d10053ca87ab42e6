-- ===== src/Backend/Api/Invariant/Handlers.antt =====
-- backend/internal/handlers: the handlers let into the tables what passes their checks.
use shard_leak.Common.{
  ℕ, ◌≤◌, ◌≡◌, ◌≢◌, ◌⊎◌, inl, inr, ltb, Option, none, some, List, [], ◌∷◌, map, All, refl, arith,
  Bool-cases, Option-cases,
}
use shard_leak.Common.Texts.{Text}
use shard_leak.Client.Api.{Algorithm}
use shard_leak.Backend.RateLimit.{Link}
use shard_leak.Backend.Check.{CheckRequest, Message}
use shard_leak.Backend.Store.{Store, Tables, KeyRow, LimitRow, inserts}
use shard_leak.Backend.Store.Users.{create_user, judge_user}
use shard_leak.Backend.Store.Keys.{
  create_api_key, judge_key, revoke, revoke_api_key, statement_link,
}
use shard_leak.Backend.Store.Limits.{
  create_limit_config, judge_named, named_algorithm, new_config, delete_limit_config, other_config,
}
use shard_leak.Backend.Store.Change.{judge_user-inserts, judge_key-inserts, judge_config-inserts}
use shard_leak.Backend.Store.Statements.{insert_row-cases, exec-cases}
use shard_leak.Backend.Accounts.{
  Credentials, valid_email, byte_length, signup_hashed, signup_checked, signup_handler,
}
use shard_leak.Backend.Keys
use shard_leak.Backend.Limits
use shard_leak.Backend.Api.{Library}
use shard_leak.Backend.Api.Invariant.Address.{cons-ne, IsAddress, valid_email-IsAddress}
use shard_leak.Backend.Api.Invariant.Made.{
  limit_validated-named, All-keep_if, KeyIsMade, ConfigIsMade, IsMade, revoke-KeyIsMade,
}

module _ (lib : Library) where
  module _ (link : Link) (s : Store) (m : IsMade lib s.tables) where
    create_user-IsMade :
        (id : Text) (now : ℕ) (raw hash salt password : Text)
        → IsAddress (lib.normal raw)
        → 8 ≤ byte_length password
        → lib.hash_password salt password ≡ some hash
        → IsMade lib (create_user link id now (lib.normal raw) hash s).0.tables
    unfolding create_user judge_user
    create_user-IsMade id now raw hash salt password address long hashed =
        insert_row-cases (IsMade lib) link _ s m λ u t e.
          let (after, same, own, email) = judge_user-inserts _ u s.tables t e in
          rw (← after) (record {
            users = ((address, (raw, refl), (salt, password, long, hashed)), m.users);
            api_keys = m.api_keys;
            configs = m.configs;
          })

    pub signup-IsMade :
        (salt : Text) (id : Text) (now : ℕ) (body : Option Credentials)
        → IsMade lib
            (signup_handler lib.normal
              (lib.hash_password salt)
              lib.shown
              link
              id
              now
              body
              s).0.tables
    unfolding signup_handler signup_checked signup_hashed
    signup-IsMade salt id now none = m
    signup-IsMade salt id now (some req) = elim (Bool-cases (valid_email (lib.normal req.email))) [
      | inr bad ↦ rw bad m
      | inl good ↦ elim (Bool-cases (ltb (byte_length req.password) 8)) [
        | inl short ↦ rw (good, short) m
        | inr long ↦ elim (Option-cases (lib.hash_password salt req.password)) [
          | inl failed ↦ rw (good, long, failed) m
          | inr (hash, hashed) ↦
              rw (good, long, hashed)
                (create_user-IsMade id now req.email hash salt req.password
                  (valid_email-IsAddress (lib.normal req.email) good) (ground arith) hashed)
        ]
      ]
    ]

    pub create_key-IsMade :
        (id : Text) (now : ℕ) (random : Option (List ℕ)) (body : Option Text) (user_id : Text)
        → IsMade lib
            (Keys.create_handler lib.sha256 lib.shown link id now random body user_id s).0.tables
    unfolding Keys.create_handler Keys.create_generated Keys.plaintext_of create_api_key judge_key
    create_key-IsMade id now random none user_id = m
    create_key-IsMade id now random (some []) user_id = m
    create_key-IsMade id now none (some (c ∷ name)) user_id = m
    create_key-IsMade id now (some bytes) (some (c ∷ name)) user_id =
        insert_row-cases (IsMade lib) link _ s m λ k t e.
          let (after, same, own, hash, owner) = judge_key-inserts _ k s.tables t e in
          rw (← after) (record {
            users = m.users;
            api_keys = ((cons-ne c name, (bytes, refl)), m.api_keys);
            configs = m.configs;
          })

    pub revoke_key-IsMade :
        (now : ℕ) (id user_id : Text)
        → IsMade lib (Keys.revoke_handler lib.is_uuid link now id user_id s).0.tables
    unfolding Keys.revoke_handler revoke_api_key
    revoke_key-IsMade now [] user_id = m
    revoke_key-IsMade now (c ∷ id) user_id =
        exec-cases (IsMade lib) (statement_link (lib.is_uuid (c ∷ id)) link) _ _ s m (record {
          users = m.users;
          api_keys = All-revoke s.api_keys m.api_keys;
          configs = m.configs;
        })
      where
        All-revoke :
            (keys : List KeyRow)
            → All (KeyIsMade lib) keys
            → All (KeyIsMade lib) (map (revoke now (c ∷ id) user_id) keys)
        All-revoke [] h = tt
        All-revoke (k ∷ keys) h =
            (revoke-KeyIsMade lib now (c ∷ id) user_id k h.0, All-revoke keys h.1)

    create_limit_config-IsMade :
        (id : Text) (now : ℕ) (user_id : Text) (req : CheckRequest)
        → req.identifier ≢ []
        → IsMade lib (create_limit_config link id now user_id req s).0.tables
    unfolding create_limit_config
    create_limit_config-IsMade id now user_id req named =
        insert_row-cases (IsMade lib) link _ s m
          λ row t e. judged (named_algorithm req.algorithm) row t e
      where
        judged :
            (o : Option Algorithm) (row : LimitRow) (t : Tables)
            → judge_named id now user_id req o s.tables ≡ inserts row t
            → IsMade lib t
        judged none row t e = absurd (cc e)
        judged (some algorithm) row t e =
            let (after, same, own, place, owner, limit, window) =
              judge_config-inserts (new_config id now user_id req algorithm) row s.tables t e in
            rw (← after)
              (record { users = m.users; api_keys = m.api_keys; configs = (named, m.configs) })

    pub create_limit-IsMade :
        (id : Text) (now : ℕ) (body : Option CheckRequest) (user_id : Text)
        → IsMade lib
            (Limits.create_handler lib.quote lib.shown
              (create_limit_config link id now user_id)
              body
              s).0.tables
    unfolding Limits.create_handler Limits.create_answer
    create_limit-IsMade id now body user_id = answered (Limits.limit_validated body) refl
      where
        answered :
            (o : Message ⊎ CheckRequest)
            → Limits.limit_validated body ≡ o
            → IsMade lib
                (Limits.create_answer lib.quote lib.shown
                  (create_limit_config link id now user_id)
                  o
                  s).0.tables
        answered (inl message) e = m
        answered (inr req) e =
            create_limit_config-IsMade id now user_id req (limit_validated-named body req e)

    pub delete_limit-IsMade :
        (identifier user_id : Text)
        → IsMade lib (Limits.delete_handler link identifier user_id s).0.tables
    unfolding Limits.delete_handler delete_limit_config
    delete_limit-IsMade [] user_id = m
    delete_limit-IsMade (c ∷ identifier) user_id = exec-cases (IsMade lib) link _ _ s m (record {
      users = m.users;
      api_keys = m.api_keys;
      configs =
          All-keep_if (ConfigIsMade lib) (other_config user_id (c ∷ identifier)) s.configs
            m.configs;
    })
