-- ===== src/Backend/Api/KeyLife.antt =====
-- The life of an API key: backend/internal/handlers/apikeys.go with
-- backend/internal/middleware/apikey_auth.go, over any requests.
pub mod Created
pub mod Revoked
use shard_leak.Common.{
  ℕ, ◌⊎◌, inl, inr, Bool, true, false, Option, none, some, List, [], ◌∷◌, ◌++◌, All, is_some,
  get_or, ◌≡◌, ◌≢◌, refl, ap, sym, arith, ◌∙◌, Option-cases,
}
use shard_leak.Common.Texts.{Text, codes, text_eq_refl}
use shard_leak.Client.Api.{success, bearer}
use shard_leak.Backend.RateLimit.{Link, up, unreachable, cut}
use shard_leak.Backend.Auth.{ApiKey, bearer_token, api_key_auth, admit_token, admit_key}
use shard_leak.Backend.Auth.Bearer.{bearer_token-bearer}
use shard_leak.Backend.Store.{
  Store, KeyRow, Outcome, done, err_not_found, err_conflict, err_db, first_of, key_has_hash,
  query_row, exec, db_err, insert_row,
}
use shard_leak.Backend.Store.Keys.{get_api_key_by_hash, revocable, revoke, revoke_api_key}
use shard_leak.Backend.Store.Statements.{exec-done}
use shard_leak.Backend.Store.Rows.{Survives, Change-key, first_of-revoke, create_api_key-done}
use shard_leak.Backend.Handlers.{for_user}
use shard_leak.Backend.Keys
use shard_leak.Backend.Api.{
  Library, Request, Exchange, Answer, key, signup, login, me, create_key, list_keys, create_limit,
  list_limits, get_limit, delete_limit, check, status, revoke_key, session, found_key, admit, route,
  serve, run,
}
use shard_leak.Backend.Api.Changes.{actor, target_of, for_user-success, serve-Change}

module _ (lib : Library) where
  -- The owner of a key asks for its revocation.
  abbrev pub Revokes : Text → Text → Exchange → Type 0
  Revokes id owner e = (target_of e.request ≡ some id) × (actor (session lib e) ≡ some owner)

  -- What a key keeps over requests.
  pub record Kept (es : List Exchange) (k after : KeyRow) : Type 0 where
    pub id : after.id ≡ k.id
    pub user_id : after.user_id ≡ k.user_id
    pub revoked : is_some k.revoked_at ≡ true → is_some after.revoked_at ≡ true
    pub live :
        k.revoked_at ≡ none → All (λ e. ¬ Revokes k.id k.user_id e) es → after.revoked_at ≡ none

  pub run-key :
      (hash : Text) (es : List Exchange) (s : Store) {k : KeyRow}
      → first_of (key_has_hash hash) s.api_keys ≡ some k
      → (after : KeyRow) × (first_of (key_has_hash hash) (run lib es s).api_keys ≡ some after)
        × Kept es k after
  unfolding run
  run-key hash [] s {k} h =
      (k, h, record { id = refl; user_id = refl; revoked = λ r. r; live = λ l _. l })
  run-key hash (e ∷ es) s {k} h =
      let (next, there, kept) = Change-key hash (serve-Change lib e s) h in
      let (after, found, rest) = run-key hash es (serve lib e s).0 there in
      (
        after,
        found,
        record {
          id = rest.id ∙ kept.id;
          user_id = rest.user_id ∙ kept.user_id;
          revoked = λ r. rest.revoked (kept.revoked r);
          live = λ l other. rest.live (kept.live l other.0) (rw (kept.id, kept.user_id) other.1);
        },
      )

  -- What `APIKeyAuth` sees of a row.
  abbrev pub seen : Link → KeyRow → Option ApiKey
  seen up k = some (record { user_id = k.user_id; revoked = is_some k.revoked_at })
  seen unreachable k = none
  seen cut k = none

  found_key-seen :
      (link : Link) (hash : Text) (s : Store) {k : KeyRow}
      → first_of (key_has_hash hash) s.api_keys ≡ some k
      → found_key (get_api_key_by_hash link hash s).1 ≡ seen link k
  unfolding get_api_key_by_hash query_row db_err found_key
  found_key-seen up hash s there = rw there refl
  found_key-seen unreachable hash s there = refl
  found_key-seen cut hash s there = refl

  -- What it says to a token whose hash a row has.
  pub admit-row :
      (e : Exchange) (s : Store) (c : ℕ) (t : Text) {k : KeyRow}
      → e.authorization ≡ bearer (some (c ∷ t))
      → first_of (key_has_hash (lib.sha256 (c ∷ t))) s.api_keys ≡ some k
      → admit lib e s ≡ admit_key (seen e.link k)
  unfolding admit api_key_auth admit_token
  admit-row e s c t header there =
      rw (header, bearer_token-bearer (some (c ∷ t)), found_key-seen e.link _ s there) refl
