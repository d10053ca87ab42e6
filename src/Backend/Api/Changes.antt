-- ===== src/Backend/Api/Changes.antt =====
-- backend/cmd/server/main.go: what a request does to the tables is one of the changes of the store.
use shard_leak.Common.{
  ℕ, ◌⊎◌, inl, inr, Bool, not, ltb, Option, none, some, List, [], ◌∷◌, ◌≡◌, refl, Bool-cases,
}
use shard_leak.Common.Texts.{Text}
use shard_leak.Client.Api.{failure, success, ErrorBody}
use shard_leak.Backend.RateLimit.{Link}
use shard_leak.Backend.Check.{CheckRequest, Message}
use shard_leak.Backend.Auth.{bearer_token}
use shard_leak.Backend.Store.{Store, Tables}
use shard_leak.Backend.Store.Users.{get_user_by_email, get_user_by_id}
use shard_leak.Backend.Store.Keys.{get_api_keys_by_user, get_api_key_by_hash}
use shard_leak.Backend.Store.Limits.{get_limit_config, list_limit_configs, create_limit_config}
use shard_leak.Backend.Store.Change.{
  Change, unchanged, create_user-Change, create_api_key-Change, revoke_api_key-Change,
  create_limit_config-Change, delete_limit_config-Change,
}
use shard_leak.Backend.Store.Statements.{tables-query_row, tables-query}
use shard_leak.Backend.Handlers.{Handler, for_user}
use shard_leak.Backend.Accounts.{
  create_token, Credentials, valid_email, byte_length, signup_hashed, signup_checked,
  signup_handler, login_checked, login_handler,
}
use shard_leak.Backend.Keys
use shard_leak.Backend.Limits
use shard_leak.Backend.Api.{
  Library, Request, Exchange, signup, login, me, create_key, list_keys, revoke_key, create_limit,
  list_limits, get_limit, delete_limit, check, session, me_of, looked_up, route, serve,
}

-- For whom a request is made, and which key it asks to revoke.
abbrev pub actor : Text ⊎ Text → Option Text
actor (inl message) = none
actor (inr id) = some id

abbrev pub target_of : Request → Option Text
target_of (revoke_key id) = some id
target_of _ = none

for_user-Change {ℓ} :
    {T : Type ℓ} (target : Option Text) (o : Text ⊎ Text) (h : Text → Handler T) (s : Store)
    → ((id : Text) → some id ≡ actor o → Change (actor o) target s.tables (h id s).0.tables)
    → Change (actor o) target s.tables (for_user o h s).0.tables
unfolding for_user
for_user-Change target (inl message) h s k = unchanged
for_user-Change target (inr []) h s k = unchanged
for_user-Change target (inr (c ∷ id)) h s k = k (c ∷ id) refl

failure-ne-success {ℓ} :
    {T : Type ℓ} {code status' : ℕ} {b : Option ErrorBody} {t : Option T}
    → ¬ (failure status' b ≡ success code t)
failure-ne-success e = cc

-- A handler behind a session that succeeds has a user.
pub for_user-success {ℓ} :
    {T : Type ℓ} (o : Text ⊎ Text) (h : Text → Handler T) (s : Store) {code : ℕ} {t : Option T}
    → (for_user o h s).1 ≡ success code t
    → (id : Text) × (o ≡ inr id) × (for_user o h s ≡ h id s)
unfolding for_user
for_user-success (inl message) h s e = absurd (failure-ne-success e)
for_user-success (inr []) h s e = absurd (failure-ne-success e)
for_user-success (inr (c ∷ id)) h s e = (c ∷ id, refl, refl)

module _ (who target : Option Text) (link : Link) (s : Store) where
  read_only : {t : Tables} → t ≡ s.tables → Change who target s.tables t
  read_only e = rw e unchanged

  signup-Change :
      (normal : Text → Text) (hash_password : Text → Option Text) (shown : ℕ → Text) (id : Text)
      (now : ℕ) (body : Option Credentials)
      → Change who target s.tables
          (signup_handler normal hash_password shown link id now body s).0.tables
  unfolding signup_handler signup_checked signup_hashed
  signup-Change normal hash_password shown id now none = unchanged
  signup-Change normal hash_password shown id now (some req) =
      elim (Bool-cases (not (valid_email (normal req.email)))) [
        | inl bad ↦ rw bad unchanged
        | inr good ↦ elim (Bool-cases (ltb (byte_length req.password) 8)) [
          | inl short ↦ rw (good, short) unchanged
          | inr long ↦ rw (good, long) (hashed (hash_password req.password))
        ]
      ]
    where
      hashed :
          (o : Option Text)
          → Change who target s.tables
              (signup_hashed shown link id now (normal req.email) o s).0.tables
      hashed none = unchanged
      hashed (some h) = create_user-Change who target link id now (normal req.email) h s

  pub login-tables :
      (normal : Text → Text) (compare_password : Text → Text → Bool) (sign : Text → Option Text)
      (body : Option Credentials)
      → (login_handler normal compare_password sign link body s).0.tables ≡ s.tables
  unfolding login_handler login_checked get_user_by_email
  login-tables normal compare_password sign none = refl
  login-tables normal compare_password sign (some req) = checked (normal req.email) req.password
    where
      checked :
          (email password : Text)
          → (login_checked compare_password sign link email password s).0.tables ≡ s.tables
      checked [] password = refl
      checked (c ∷ email) [] = refl
      checked (c ∷ email) (p ∷ password) = tables-query_row link _ s

  create_key-Change :
      (sha256 : Text → Text) (shown : ℕ → Text) (id : Text) (now : ℕ) (random : Option (List ℕ))
      (body : Option Text) (user_id : Text)
      → some user_id ≡ who
      → Change who target s.tables
          (Keys.create_handler sha256 shown link id now random body user_id s).0.tables
  unfolding Keys.create_handler Keys.create_generated
  create_key-Change sha256 shown id now random none user_id mine = unchanged
  create_key-Change sha256 shown id now random (some []) user_id mine = unchanged
  create_key-Change sha256 shown id now none (some (c ∷ name)) user_id mine = unchanged
  create_key-Change sha256 shown id now (some bytes) (some (c ∷ name)) user_id mine =
      create_api_key-Change who target link id now user_id _ (c ∷ name) s mine

  revoke_key-Change :
      (is_uuid : Text → Bool) (now : ℕ) (id user_id : Text)
      → some id ≡ target
      → some user_id ≡ who
      → Change who target s.tables (Keys.revoke_handler is_uuid link now id user_id s).0.tables
  unfolding Keys.revoke_handler
  revoke_key-Change is_uuid now [] user_id aimed mine = unchanged
  revoke_key-Change is_uuid now (c ∷ id) user_id aimed mine =
      revoke_api_key-Change who target link is_uuid now (c ∷ id) user_id s aimed mine

  create_limit-Change :
      (quote : Text → Text) (shown : ℕ → Text) (id : Text) (now : ℕ) (body : Option CheckRequest)
      (user_id : Text)
      → some user_id ≡ who
      → Change who target s.tables
          (Limits.create_handler quote shown
            (create_limit_config link id now user_id)
            body
            s).0.tables
  unfolding Limits.create_handler Limits.create_answer
  create_limit-Change quote shown id now body user_id mine =
      answered_change (Limits.limit_validated body)
    where
      answered_change :
          (o : Message ⊎ CheckRequest)
          → Change who target s.tables
              (Limits.create_answer quote shown
                (create_limit_config link id now user_id)
                o
                s).0.tables
      answered_change (inl message) = unchanged
      answered_change (inr req) =
          create_limit_config-Change who target link id now user_id req s mine

  delete_limit-Change :
      (identifier user_id : Text)
      → some user_id ≡ who
      → Change who target s.tables (Limits.delete_handler link identifier user_id s).0.tables
  unfolding Limits.delete_handler
  delete_limit-Change [] user_id mine = unchanged
  delete_limit-Change (c ∷ identifier) user_id mine =
      delete_limit_config-Change who target link user_id (c ∷ identifier) s mine

  pub get_limit-tables :
      (shown : ℕ → Text) (identifier user_id : Text)
      → (Limits.get_handler shown link identifier user_id s).0.tables ≡ s.tables
  unfolding Limits.get_handler get_limit_config
  get_limit-tables shown [] user_id = refl
  get_limit-tables shown (c ∷ identifier) user_id = tables-query_row link _ s

module _ (lib : Library) (e : Exchange) where
  pub looked_up-tables : (t : Text) (s : Store) → (looked_up lib e t s).tables ≡ s.tables
  unfolding looked_up get_api_key_by_hash
  looked_up-tables [] s = refl
  looked_up-tables (c ∷ t) s = tables-query_row e.link _ s

  pub route-Change :
      (r : Request) (s : Store)
      → Change (actor (session lib e)) (target_of r) s.tables (route lib e r s).0.tables
  unfolding route me_of get_user_by_id Keys.list_handler get_api_keys_by_user Limits.list_handler
      list_limit_configs
  route-Change (signup body) s = signup-Change _ _ e.link s lib.normal _ _ _ _ body
  route-Change (login body) s = read_only _ _ e.link s (
      login-tables none none e.link s lib.normal lib.compare_password (create_token lib.sign e.now)
        body)
  route-Change me s =
      for_user-Change none (session lib e) _ s
        λ id mine. read_only _ _ e.link s (tables-query_row e.link _ s)
  route-Change (create_key body) s =
      for_user-Change none (session lib e) _ s
        λ id mine. create_key-Change _ _ e.link s lib.sha256 _ _ _ _ body id mine
  route-Change list_keys s =
      for_user-Change none (session lib e) _ s
        λ id mine. read_only _ _ e.link s (tables-query e.link _ s)
  route-Change (revoke_key id) s =
      for_user-Change (some id) (session lib e) _ s
        λ user_id mine. revoke_key-Change _ _ e.link s lib.is_uuid e.now id user_id refl mine
  route-Change (create_limit body) s =
      for_user-Change none (session lib e) _ s
        λ user_id mine. create_limit-Change _ _ e.link s lib.quote _ _ _ body user_id mine
  route-Change list_limits s =
      for_user-Change none (session lib e) _ s
        λ id mine. read_only _ _ e.link s (tables-query e.link _ s)
  route-Change (get_limit identifier) s = for_user-Change none (session lib e) _ s λ id mine.
      read_only _ _ e.link s (get_limit-tables none none e.link s lib.shown identifier id)
  route-Change (delete_limit identifier) s =
      for_user-Change none (session lib e) _ s
        λ id mine. delete_limit-Change _ _ e.link s identifier id mine
  route-Change check s = read_only _ _ e.link s (looked_up-tables (bearer_token e.authorization) s)

  -- Any request changes the tables in one of the ways of the store.
  pub serve-Change :
      (s : Store)
      → Change (actor (session lib e)) (target_of e.request) s.tables (serve lib e s).0.tables
  unfolding serve
  serve-Change s = route-Change e.request s
