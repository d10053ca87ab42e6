-- ===== src/Backend/Api/KeyLife/Created.antt =====
-- backend/internal/handlers/apikeys.go: `Create`, and the key that it hands out.
use shard_leak.Common.{
  ℕ, inr, Option, none, some, List, [], ◌∷◌, ◌++◌, All, ◌≡◌, refl, ap, sym, ◌∙◌,
}
use shard_leak.Common.Texts.{Text, codes}
use shard_leak.Client.Api.{success, bearer}
use shard_leak.Backend.RateLimit.{up}
use shard_leak.Backend.Auth.{admit_key}
use shard_leak.Backend.Store.{
  Store, KeyRow, Outcome, done, err_not_found, err_conflict, err_db, first_of, key_has_hash,
}
use shard_leak.Backend.Store.Rows.{create_api_key-done}
use shard_leak.Backend.Handlers.{for_user}
use shard_leak.Backend.Keys
use shard_leak.Backend.Api.{
  Library, Request, Exchange, key, signup, login, me, create_key, list_keys, create_limit,
  list_limits, get_limit, delete_limit, check, revoke_key, session, admit, route, serve, run,
}
use shard_leak.Backend.Api.Changes.{for_user-success}
use shard_leak.Backend.Api.KeyLife.{Revokes, run-key, admit-row}

module _ (lib : Library) where
  -- A key that was created has a row, and the row is not revoked.
  record HasRow (e : Exchange) (s : Store) (made : Keys.CreatedKey) : Type 0 where
    pub row : KeyRow
    pub id : row.id ≡ made.id
    pub owner : session lib e ≡ inr row.user_id
    pub live : row.revoked_at ≡ none
    pub first : ℕ
    pub rest : Text
    pub named : made.key ≡ first ∷ rest
    pub there : first_of (key_has_hash (lib.sha256 made.key)) s.api_keys ≡ some row

  created_answer-success :
      (plaintext : Text) (o : Outcome KeyRow) {made : Keys.CreatedKey}
      → Keys.created_answer lib.shown plaintext o ≡ success 201 (some made)
      → (row : KeyRow) × (o ≡ done row) × (row.id ≡ made.id) × (plaintext ≡ made.key)
  unfolding Keys.created_answer
  created_answer-success plaintext (done row) e = (row, refl, cc, cc)
  created_answer-success plaintext err_not_found e = cc
  created_answer-success plaintext err_conflict e = cc
  created_answer-success plaintext err_db e = cc

  create_handler-HasRow :
      (e : Exchange) (random : Option (List ℕ)) (body : Option Text) (user_id : Text) (s : Store)
      {made : Keys.CreatedKey}
      → session lib e ≡ inr user_id
      → (let (after, answer) =
            Keys.create_handler lib.sha256 lib.shown e.link e.new_id e.now random body user_id s in
          answer ≡ success 201 (some made) → HasRow e after made)
  unfolding Keys.create_handler Keys.create_generated Keys.plaintext_of
  create_handler-HasRow e random none user_id s mine h = cc
  create_handler-HasRow e random (some []) user_id s mine h = cc
  create_handler-HasRow e none (some (c ∷ name)) user_id s mine h = cc
  create_handler-HasRow e (some bytes) (some (c ∷ name)) user_id s {made} mine h =
      let (row, inserted, id, named) = created_answer-success _ _ h in
      let (same, there) = create_api_key-done e.link e.new_id e.now user_id _ _ s inserted in
      record {
        row = row;
        id = id;
        owner = mine ∙ ap (λ k. inr k.user_id) same;
        live = ap (λ k. k.revoked_at) (sym same);
        first = b's';
        rest = codes "k_shard_" ++ Keys.hex bytes;
        named = sym named;
        there = rw (← named) there;
      }

  created-HasRow :
      (e : Exchange) (r : Request) (s : Store) {made : Keys.CreatedKey}
      → (route lib e r s).1 ≡ key (success 201 (some made))
      → HasRow e (route lib e r s).0 made
  unfolding route
  created-HasRow e (create_key body) s {made} h =
      let create = Keys.create_handler lib.sha256 lib.shown e.link e.new_id e.now e.random body in
      let made' : (for_user (session lib e) create s).1 ≡ success 201 (some made) = cc in
      let (user_id, mine, served) = for_user-success (session lib e) create s made' in
      let made'' : (create user_id s).1 ≡ success 201 (some made) = cc in
      rw served (create_handler-HasRow e e.random body user_id s mine made'')
  created-HasRow e (signup body) s h = cc
  created-HasRow e (login body) s h = cc
  created-HasRow e me s h = cc
  created-HasRow e list_keys s h = cc
  created-HasRow e (revoke_key id) s h = cc
  created-HasRow e (create_limit body) s h = cc
  created-HasRow e list_limits s h = cc
  created-HasRow e (get_limit identifier) s h = cc
  created-HasRow e (delete_limit identifier) s h = cc
  created-HasRow e check s h = cc

  -- An API key is accepted from its creation until its owner asks to revoke it. If a request was
  -- answered with a new key, and whatever requests were served after it the owner has not asked for
  -- the revocation of that key, then a request with the key in its header passes `APIKeyAuth`, if the
  -- statement on the database succeeds, for the user of the session that made the key.
  pub admit-created :
      (e later : Exchange) (es : List Exchange) (s : Store) {made : Keys.CreatedKey} {owner : Text}
      → (serve lib e s).1 ≡ key (success 201 (some made))
      → session lib e ≡ inr owner
      → All (λ e'. ¬ Revokes lib made.id owner e') es
      → later.authorization ≡ bearer (some made.key)
      → later.link ≡ up
      → admit lib later (run lib es (serve lib e s).0) ≡ inr owner
  unfolding serve admit_key
  admit-created e later es s {made} {owner} answered mine quiet header link =
      let row = created-HasRow e e.request s answered in
      let whose : row.row.user_id ≡ owner = cc in
      let (after, there, kept) = run-key lib (lib.sha256 made.key) es (serve lib e s).0 row.there in
      let live : after.revoked_at ≡ none = kept.live row.live (rw (row.id, whose) quiet) in
      let found : first_of (key_has_hash (lib.sha256 (row.first ∷ row.rest)))
            (run lib es (serve lib e s).0).api_keys
          ≡ some after =
        rw (← row.named) there in
      let header' = header ∙ ap (λ t. bearer (some t)) row.named in
      let after_all = run lib es (serve lib e s).0 in
      rw (admit-row lib later after_all row.first row.rest header' found, link, live)
        (ap inr (kept.user_id ∙ whose))
