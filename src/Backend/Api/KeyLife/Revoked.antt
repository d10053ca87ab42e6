-- ===== src/Backend/Api/KeyLife/Revoked.antt =====
-- backend/internal/handlers/apikeys.go: `Revoke`, and the key that it withdraws.
use shard_leak.Common.{ℕ, inl, inr, true, some, List, [], ◌∷◌, is_some, ◌≡◌, refl, arith, ◌∙◌}
use shard_leak.Common.Texts.{Text, codes, text_eq_refl}
use shard_leak.Client.Api.{success, bearer}
use shard_leak.Backend.RateLimit.{Link, up, unreachable, cut}
use shard_leak.Backend.Auth.{admit_key}
use shard_leak.Backend.Store.{
  Store, KeyRow, Outcome, done, err_not_found, err_conflict, err_db, first_of, key_has_hash,
}
use shard_leak.Backend.Store.Keys.{revocable, revoke, revoke_api_key, statement_link}
use shard_leak.Backend.Store.Statements.{exec-done}
use shard_leak.Backend.Store.Rows.{first_of-revoke}
use shard_leak.Backend.Handlers.{for_user}
use shard_leak.Backend.Keys
use shard_leak.Backend.Api.{
  Library, Exchange, status, revoke_key, session, admit, route, serve, run,
}
use shard_leak.Backend.Api.Changes.{for_user-success}
use shard_leak.Backend.Api.KeyLife.{run-key, seen, admit-row}

module _ (lib : Library) where
  abbrev pub refusal : Link → Text
  refusal up = codes "API key has been revoked"
  refusal unreachable = codes "invalid API key"
  refusal cut = codes "invalid API key"

  refused :
      (link : Link) (k : KeyRow)
      → is_some k.revoked_at ≡ true
      → admit_key (seen lib link k) ≡ inl (refusal link)
  unfolding admit_key
  refused up k e = rw e refl
  refused unreachable k e = refl
  refused cut k e = refl

  revoke-sets : (now : ℕ) (k : KeyRow) → is_some (revoke now k.id k.user_id k).revoked_at ≡ true
  unfolding revoke revocable
  revoke-sets now k = ground (arith, text_eq_refl k.id, text_eq_refl k.user_id)

  revoked_answer-success :
      (o : Outcome (Unit {0})) → Keys.revoked_answer o ≡ success 200 (some tt) → o ≡ done tt
  unfolding Keys.revoked_answer
  revoked_answer-success (done u) e = refl
  revoked_answer-success err_not_found e = cc
  revoked_answer-success err_conflict e = cc
  revoked_answer-success err_db e = cc

  revoked_row :
      (e : Exchange) (id user_id hash : Text) (s : Store) {k : KeyRow}
      → (Keys.revoke_handler lib.is_uuid e.link e.now id user_id s).1 ≡ success 200 (some tt)
      → first_of (key_has_hash hash) s.api_keys ≡ some k
      → first_of
          (key_has_hash hash)
          (Keys.revoke_handler lib.is_uuid e.link e.now id user_id s).0.api_keys
        ≡ some (revoke e.now id user_id k)
  unfolding Keys.revoke_handler revoke_api_key
  revoked_row e [] user_id hash s h there = cc
  revoked_row e (c ∷ id) user_id hash s h there =
      let executed =
        exec-done (statement_link (lib.is_uuid (c ∷ id)) e.link) _ _ s
          (revoked_answer-success _ h) in
      rw executed (first_of-revoke hash e.now (c ∷ id) user_id s.api_keys there)

  -- A revoked key is refused for good. If the owner's request to revoke a key was answered with
  -- success, then whatever requests are served after it, and whether or not the statement on the
  -- database succeeds, no request with the key in its header passes `APIKeyAuth`; if the statement
  -- succeeds, the refusal says that the key has been revoked.
  pub admit-revoked :
      (e later : Exchange) (es : List Exchange) (s : Store) (c : ℕ) (t : Text) {k : KeyRow}
      → first_of (key_has_hash (lib.sha256 (c ∷ t))) s.api_keys ≡ some k
      → e.request ≡ revoke_key k.id
      → session lib e ≡ inr k.user_id
      → (serve lib e s).1 ≡ status (success 200 (some tt))
      → later.authorization ≡ bearer (some (c ∷ t))
      → admit lib later (run lib es (serve lib e s).0) ≡ inl (refusal later.link)
  unfolding serve route
  admit-revoked e later es s c t {k} there asked mine answered header =
      let handler = Keys.revoke_handler lib.is_uuid e.link e.now k.id in
      let answered' : (route lib e (revoke_key k.id) s).1 ≡ status (success 200 (some tt)) =
        rw asked at answered in
      let success' : (for_user (session lib e) handler s).1 ≡ success 200 (some tt) = cc in
      let (user_id, whose, served) = for_user-success (session lib e) handler s success' in
      let same : user_id ≡ k.user_id = cc in
      let answered'' : (handler user_id s).1 ≡ success 200 (some tt) = rw served at success' in
      let withdrawn = revoked_row e k.id user_id (lib.sha256 (c ∷ t)) s answered'' there in
      let there' : first_of (key_has_hash (lib.sha256 (c ∷ t))) (serve lib e s).0.api_keys
          ≡ some (revoke e.now k.id user_id k) =
        rw (asked, served) withdrawn in
      let (after, found, kept) = run-key lib (lib.sha256 (c ∷ t)) es (serve lib e s).0 there' in
      let set : is_some (revoke e.now k.id user_id k).revoked_at ≡ true =
        rw same (revoke-sets e.now k) in
      admit-row lib later (run lib es (serve lib e s).0) c t header found
      ∙ refused later.link after (kept.revoked set)
