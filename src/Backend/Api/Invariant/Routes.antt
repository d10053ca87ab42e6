-- ===== src/Backend/Api/Invariant/Routes.antt =====
-- backend/cmd/server/main.go: what the routes let into the tables.
use shard_leak.Common.{◌⊎◌, inl, inr, none, List, [], ◌∷◌, ◌≡◌}
use shard_leak.Common.Texts.{Text}
use shard_leak.Backend.Auth.{bearer_token}
use shard_leak.Backend.Store.{Store, Tables}
use shard_leak.Backend.Store.Users.{get_user_by_id}
use shard_leak.Backend.Store.Keys.{get_api_keys_by_user}
use shard_leak.Backend.Store.Limits.{list_limit_configs}
use shard_leak.Backend.Store.Statements.{tables-query_row, tables-query}
use shard_leak.Backend.Handlers.{Handler, for_user}
use shard_leak.Backend.Accounts.{create_token}
use shard_leak.Backend.Keys
use shard_leak.Backend.Limits
use shard_leak.Backend.Api.{
  Library, Request, Exchange, signup, login, me, create_key, list_keys, revoke_key, create_limit,
  list_limits, get_limit, delete_limit, check, session, me_of, route, serve, run,
}
use shard_leak.Backend.Api.Changes.{login-tables, get_limit-tables, looked_up-tables}
use shard_leak.Backend.Api.Invariant.Made.{IsMade}
use shard_leak.Backend.Api.Invariant.Handlers.{
  signup-IsMade, create_key-IsMade, revoke_key-IsMade, create_limit-IsMade, delete_limit-IsMade,
}

module _ (lib : Library) where
  for_user-IsMade {ℓ} :
      {T : Type ℓ} (o : Text ⊎ Text) (h : Text → Handler T) (s : Store)
      → IsMade lib s.tables
      → ((id : Text) → IsMade lib (h id s).0.tables)
      → IsMade lib (for_user o h s).0.tables
  unfolding for_user
  for_user-IsMade (inl message) h s m k = m
  for_user-IsMade (inr []) h s m k = m
  for_user-IsMade (inr (c ∷ id)) h s m k = k (c ∷ id)

  kept : (s : Store) {t : Tables} → IsMade lib s.tables → t ≡ s.tables → IsMade lib t
  kept s m e = rw e m

  route-IsMade :
      (e : Exchange) (r : Request) (s : Store)
      → IsMade lib s.tables
      → IsMade lib (route lib e r s).0.tables
  unfolding route me_of get_user_by_id Keys.list_handler get_api_keys_by_user Limits.list_handler
      list_limit_configs
  route-IsMade e (signup body) s m = signup-IsMade lib e.link s m e.salt e.new_id e.now body
  route-IsMade e (login body) s m = kept s m (
      login-tables none none e.link s lib.normal lib.compare_password (create_token lib.sign e.now)
        body)
  route-IsMade e me s m =
      for_user-IsMade (session lib e) _ s m λ id. kept s m (tables-query_row e.link _ s)
  route-IsMade e (create_key body) s m =
      for_user-IsMade (session lib e) _ s m
        λ id. create_key-IsMade lib e.link s m e.new_id e.now e.random body id
  route-IsMade e list_keys s m =
      for_user-IsMade (session lib e) _ s m λ id. kept s m (tables-query e.link _ s)
  route-IsMade e (revoke_key id) s m =
      for_user-IsMade (session lib e) _ s m
        λ user_id. revoke_key-IsMade lib e.link s m e.now id user_id
  route-IsMade e (create_limit body) s m =
      for_user-IsMade (session lib e) _ s m
        λ user_id. create_limit-IsMade lib e.link s m e.new_id e.now body user_id
  route-IsMade e list_limits s m =
      for_user-IsMade (session lib e) _ s m λ id. kept s m (tables-query e.link _ s)
  route-IsMade e (get_limit identifier) s m =
      for_user-IsMade (session lib e) _ s m
        λ id. kept s m (get_limit-tables none none e.link s lib.shown identifier id)
  route-IsMade e (delete_limit identifier) s m =
      for_user-IsMade (session lib e) _ s m λ id. delete_limit-IsMade lib e.link s m identifier id
  route-IsMade e check s m = kept s m (looked_up-tables lib e (bearer_token e.authorization) s)

  -- The checks of the handlers hold of all rows. Whatever requests are served, and however their
  -- statements end, if it was so before, then every user has an address in its normal form, with text on
  -- both sides of an `@`, and the bcrypt hash of a password of at least eight bytes; every API key has a
  -- name, and as its hash the SHA-256 of `sk_shard_` and random bytes in hexadecimal; and no
  -- configuration has an empty identifier.
  pub run-IsMade :
      (es : List Exchange) (s : Store) → IsMade lib s.tables → IsMade lib (run lib es s).tables
  unfolding run serve
  run-IsMade [] s m = m
  run-IsMade (e ∷ es) s m = run-IsMade es (serve lib e s).0 (route-IsMade e e.request s m)
