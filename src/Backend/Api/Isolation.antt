-- ===== src/Backend/Api/Isolation.antt =====
-- backend/internal/handlers: what the requests of other users do to the keys and the stored limits of
-- a user.
use shard_leak.Common.{
  ℕ, inr, Bool, true, false, Option, none, some, List, [], ◌∷◌, map, keep_if, All, ◌≡◌, ◌≢◌, refl,
  ap, sym, ◌∙◌, arith,
}
use shard_leak.Common.Texts.{Text, text_eq, text_eq_iff}
use shard_leak.Backend.RateLimit.{Link, up, unreachable, cut}
use shard_leak.Backend.Store.{
  KeyRow, LimitRow, Tables, Store, first_of, key_of, config_of, config_at, query, query_row, db_err,
}
use shard_leak.Backend.Store.Keys.{revoke, revocable, get_api_keys_by_user}
use shard_leak.Backend.Store.Limits.{other_config, list_limit_configs, get_limit_config}
use shard_leak.Backend.Store.Change.{
  Change, unchanged, signed_up, key_made, key_withdrawn, config_made, config_dropped,
}
use shard_leak.Backend.Handlers.{Handler, for_user}
use shard_leak.Backend.Keys
use shard_leak.Backend.Limits
use shard_leak.Backend.Api
use shard_leak.Backend.Api.{
  Library, Request, Exchange, signup, login, me, create_key, list_keys, revoke_key, create_limit,
  list_limits, get_limit, delete_limit, check, session, route, serve, run,
}
use shard_leak.Backend.Api.Changes.{actor, serve-Change}

-- The rows that belong to a user.
abbrev pub keys_of : Text → Tables → List KeyRow
keys_of v t = keep_if (key_of v) t.api_keys

abbrev pub configs_of : Text → Tables → List LimitRow
configs_of v t = keep_if (config_of v) t.configs

module _ (v : Text) where
  keys-revoke :
      (now : ℕ) (id user_id : Text) (keys : List KeyRow)
      → user_id ≢ v
      → keep_if (key_of v) (map (revoke now id user_id) keys) ≡ keep_if (key_of v) keys
  unfolding revoke revocable
  keys-revoke now id user_id [] other = refl
  keys-revoke now id user_id (k ∷ keys) other = ground (
    arith,
    text_eq_iff k.user_id v,
    text_eq_iff k.user_id user_id,
    keys-revoke now id user_id keys other,
    other,
  )

  configs-drop :
      (user_id identifier : Text) (configs : List LimitRow)
      → user_id ≢ v
      → keep_if (config_of v) (keep_if (other_config user_id identifier) configs)
        ≡ keep_if (config_of v) configs
  configs-drop user_id identifier [] other = refl
  configs-drop user_id identifier (c ∷ configs) other = ground (
    arith,
    text_eq_iff c.user_id v,
    text_eq_iff c.user_id user_id,
    configs-drop user_id identifier configs other,
    other,
  )

  not_mine :
      (owner : Text) {who : Option Text} → some owner ≡ who → who ≢ some v → text_eq owner v ≡ false
  not_mine owner mine other = ground (arith, text_eq_iff owner v)

  Change-others :
      {who target : Option Text} {t after : Tables}
      → Change who target t after
      → who ≢ some v
      → (keys_of v after ≡ keys_of v t) × (configs_of v after ≡ configs_of v t)
  Change-others unchanged other = (refl, refl)
  Change-others (signed_up u fresh) other = (refl, refl)
  Change-others (key_made k mine fresh) other = (rw (not_mine k.user_id mine other) refl, refl)
  Change-others {t = t} (key_withdrawn now id user_id aimed mine) other =
      (keys-revoke now id user_id t.api_keys (λ same. other (sym mine ∙ ap some same)), refl)
  Change-others (config_made c mine fresh) other = (refl, rw (not_mine c.user_id mine other) refl)
  Change-others {t = t} (config_dropped user_id identifier mine) other =
      (refl, configs-drop user_id identifier t.configs (λ same. other (sym mine ∙ ap some same)))

  module _ (lib : Library) where
    pub run-others :
        (es : List Exchange) (s : Store)
        → All (λ e. actor (session lib e) ≢ some v) es
        → (keys_of v (run lib es s).tables ≡ keys_of v s.tables)
          × (configs_of v (run lib es s).tables ≡ configs_of v s.tables)
    unfolding run
    run-others [] s others = (refl, refl)
    run-others (e ∷ es) s others =
        let (keys, configs) = Change-others (serve-Change lib e s) others.0 in
        let (keys', configs') = run-others es (serve lib e s).0 others.1 in
        (keys' ∙ keys, configs' ∙ configs)

-- The requests that only list or look up what a user has.
abbrev pub is_read : Request → Bool
is_read list_keys = true
is_read list_limits = true
is_read (get_limit identifier) = true
is_read _ = false

module _ {ℓ} {A : Type ℓ} where
  query-same :
      (link : Link) (rows : List A) (s t : Store) → (query link rows s).1 ≡ (query link rows t).1
  unfolding query db_err
  query-same up rows s t = refl
  query-same unreachable rows s t = refl
  query-same cut rows s t = refl

  query_row-same :
      (link : Link) (o : Option A) (s t : Store) → (query_row link o s).1 ≡ (query_row link o t).1
  unfolding query_row db_err
  query_row-same up none s t = refl
  query_row-same up (some row) s t = refl
  query_row-same unreachable o s t = refl
  query_row-same cut o s t = refl

pub first_of-config :
    (v identifier : Text) (configs : List LimitRow)
    → first_of (config_at v identifier) configs
      ≡ first_of (λ c. text_eq c.identifier identifier) (keep_if (config_of v) configs)
unfolding first_of
first_of-config v identifier [] = refl
first_of-config v identifier (c ∷ configs) = ground (arith, first_of-config v identifier configs)

module _ (lib : Library) (q : Exchange) where
  for_user-same {ℓ} :
      {T : Type ℓ} {v : Text} (h : Text → Handler T) (s t : Store)
      → session lib q ≡ inr v
      → (h v s).1 ≡ (h v t).1
      → (for_user (session lib q) h s).1 ≡ (for_user (session lib q) h t).1
  unfolding for_user
  for_user-same {v = []} h s t mine e = rw mine refl
  for_user-same {v = c ∷ v} h s t mine e = rw mine e

  get_handler-same :
      (identifier v : Text) (s t : Store)
      → configs_of v s.tables ≡ configs_of v t.tables
      → (Limits.get_handler lib.shown q.link identifier v s).1
        ≡ (Limits.get_handler lib.shown q.link identifier v t).1
  unfolding Limits.get_handler get_limit_config
  get_handler-same [] v s t e = refl
  get_handler-same (c ∷ identifier) v s t e = ap (Limits.got_answer lib.shown) (
      query_row-same q.link _ s t
      ∙ ap (λ o. (query_row q.link o t).1)
          (first_of-config v (c ∷ identifier) s.configs
            ∙ ap (first_of (λ x. text_eq x.identifier (c ∷ identifier))) e
            ∙ sym (first_of-config v (c ∷ identifier) t.configs)))

  route-same :
      (r : Request) (v : Text) (s t : Store)
      → is_read r ≡ true
      → session lib q ≡ inr v
      → keys_of v s.tables ≡ keys_of v t.tables
      → configs_of v s.tables ≡ configs_of v t.tables
      → (route lib q r s).1 ≡ (route lib q r t).1
  unfolding route Keys.list_handler get_api_keys_by_user Limits.list_handler list_limit_configs
  route-same list_keys v s t read mine keys configs = ap Api.keys (
      for_user-same _ s t mine (
        ap (Keys.listed_answer lib.shown)
          (query-same q.link _ s t ∙ ap (λ rows. (query q.link (lib.latest_keys rows) t).1) keys)))
  route-same list_limits v s t read mine keys configs = ap Api.configs (
      for_user-same _ s t mine (
        ap (Limits.listed_answer lib.shown) (
          query-same q.link _ s t
          ∙ ap (λ rows. (query q.link (lib.latest_configs rows) t).1) configs)))
  route-same (get_limit identifier) v s t read mine keys configs =
      ap Api.config (for_user-same _ s t mine (get_handler-same identifier v s t configs))
  route-same (signup body) v s t read mine keys configs = cc
  route-same (login body) v s t read mine keys configs = cc
  route-same me v s t read mine keys configs = cc
  route-same (create_key body) v s t read mine keys configs = cc
  route-same (revoke_key id) v s t read mine keys configs = cc
  route-same (create_limit body) v s t read mine keys configs = cc
  route-same (delete_limit identifier) v s t read mine keys configs = cc
  route-same check v s t read mine keys configs = cc

-- What a user sees is out of the reach of others. Whatever requests are served, if none of them is
-- made in the session of a user, then that user's request for the keys, for the stored limits or for
-- one of them is answered as before them, if its own statement ends in the same way.
pub serve-others :
    (lib : Library) (q : Exchange) (es : List Exchange) (s : Store) (v : Text)
    → session lib q ≡ inr v
    → is_read q.request ≡ true
    → All (λ e. actor (session lib e) ≢ some v) es
    → (serve lib q (run lib es s)).1 ≡ (serve lib q s).1
unfolding serve
serve-others lib q es s v mine read others =
    let (keys, configs) = run-others v lib es s others in
    route-same lib q q.request v (run lib es s) s read mine keys configs
