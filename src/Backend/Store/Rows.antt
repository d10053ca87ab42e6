-- ===== src/Backend/Store/Rows.antt =====
-- backend/internal/store/store.go: what becomes of a row when the tables change.
use shard_leak.Common.{
  ℕ, true, false, Option, none, some, List, [], ◌∷◌, map, is_some, ◌≡◌, refl, arith, Bool-cases,
  inl, inr, ap,
}
use shard_leak.Common.Texts.{Text, text_eq, text_eq_iff, text_eq_refl}
use shard_leak.Backend.RateLimit.{Link}
use shard_leak.Backend.Store.Users.{new_user, create_user}
use shard_leak.Backend.Store.{
  Store, done, UserRow, KeyRow, Tables, first_of, some_row, user_has_id, user_has_email,
  key_has_hash,
}
use shard_leak.Backend.Store.Keys.{revocable, revoke, new_key, create_api_key}
use shard_leak.Backend.Store.Change.{
  Change, unchanged, signed_up, key_made, key_withdrawn, config_made, config_dropped,
  judge_key-inserts, judge_user-inserts,
}
use shard_leak.Backend.Store.Statements.{insert_row-done}

-- A value that no row has is not that of a row.
apart_fresh {ℓ} :
    {A : Type ℓ} (f : A → Text) (v : Text) (new : A) (xs : List A) {x : A}
    → first_of (λ y. text_eq (f y) v) xs ≡ some x
    → some_row (λ y. text_eq (f y) (f new)) xs ≡ false
    → text_eq (f new) v ≡ false
apart_fresh f v new xs {x} e fresh = elim (Bool-cases (text_eq (f new) v)) [
  | inl same ↦
      let same' : f new ≡ v = (text_eq_iff (f new) v).0 same in
      let none_there : is_some (first_of (λ y. text_eq (f y) v) xs) ≡ false = rw same' at fresh in
      let never : true ≡ false = rw e at none_there in cc
  | inr other ↦ other
]

-- What a change keeps of a key that has a row before and after it.
pub record Survives (who target : Option Text) (k after : KeyRow) : Type 0 where
  pub id : after.id ≡ k.id
  pub user_id : after.user_id ≡ k.user_id
  pub revoked : is_some k.revoked_at ≡ true → is_some after.revoked_at ≡ true
  pub live :
      k.revoked_at ≡ none
      → ¬ ((target ≡ some k.id) × (who ≡ some k.user_id))
      → after.revoked_at ≡ none

Survives-refl : (who target : Option Text) (k : KeyRow) → Survives who target k k
Survives-refl who target k = record { id = refl; user_id = refl; revoked = λ e. e; live = λ e _. e }

module _ (now : ℕ) (id user_id : Text) (k : KeyRow) where
  pub hash-revoke : (revoke now id user_id k).key_hash ≡ k.key_hash
  unfolding revoke
  hash-revoke = ground arith

  pub id-revoke : (revoke now id user_id k).id ≡ k.id
  unfolding revoke
  id-revoke = ground arith

  pub user_id-revoke : (revoke now id user_id k).user_id ≡ k.user_id
  unfolding revoke
  user_id-revoke = ground arith

  Survives-revoke :
      {who target : Option Text}
      → some id ≡ target
      → some user_id ≡ who
      → Survives who target k (revoke now id user_id k)
  unfolding revoke revocable
  Survives-revoke aimed mine = record {
    id = id-revoke;
    user_id = user_id-revoke;
    revoked = λ e. ground arith;
    live =
        λ e other. ground (arith, text_eq_iff k.id id, text_eq_iff k.user_id user_id, aimed, mine);
  }

module _ (hash : Text) where
  pub first_of-revoke :
      (now : ℕ) (id user_id : Text) (keys : List KeyRow) {k : KeyRow}
      → first_of (key_has_hash hash) keys ≡ some k
      → first_of (key_has_hash hash) (map (revoke now id user_id) keys)
        ≡ some (revoke now id user_id k)
  unfolding first_of
  first_of-revoke now id user_id [] e = cc
  first_of-revoke now id user_id (x ∷ keys) {k} e =
      ground (arith, hash-revoke now id user_id x, first_of-revoke now id user_id keys {k = k})

  -- A key keeps its row, which stays the first one with its hash.
  pub Change-key :
      {who target : Option Text} {t after : Tables} {k : KeyRow}
      → Change who target t after
      → first_of (key_has_hash hash) t.api_keys ≡ some k
      → (kept : KeyRow) × (first_of (key_has_hash hash) after.api_keys ≡ some kept)
        × Survives who target k kept
  unfolding first_of
  Change-key {who} {target} {k = k} unchanged e = (k, e, Survives-refl who target k)
  Change-key {who} {target} {k = k} (signed_up u fresh) e = (k, e, Survives-refl who target k)
  Change-key {who} {target} {t = t} {k = k} (key_made made mine fresh) e = (
    k,
    rw (apart_fresh (λ (y : KeyRow). y.key_hash) hash made t.api_keys e fresh.hash) e,
    Survives-refl who target k,
  )
  Change-key {t = t} {k = k} (key_withdrawn now id user_id aimed mine) e = (
    revoke now id user_id k,
    first_of-revoke now id user_id t.api_keys e,
    Survives-revoke now id user_id k aimed mine,
  )
  Change-key {who} {target} {k = k} (config_made c mine fresh) e =
      (k, e, Survives-refl who target k)
  Change-key {who} {target} {k = k} (config_dropped user_id identifier mine) e =
      (k, e, Survives-refl who target k)

module _ {who target : Option Text} {u : UserRow} where
  pub Change-email :
      (email : Text) {t after : Tables}
      → Change who target t after
      → first_of (user_has_email email) t.users ≡ some u
      → first_of (user_has_email email) after.users ≡ some u
  unfolding first_of
  Change-email email unchanged e = e
  Change-email email {t} (signed_up new fresh) e =
      rw (apart_fresh (λ (y : UserRow). y.email) email new t.users e fresh.email) e
  Change-email email (key_made made mine fresh) e = e
  Change-email email (key_withdrawn now id user_id aimed mine) e = e
  Change-email email (config_made c mine fresh) e = e
  Change-email email (config_dropped user_id identifier mine) e = e

  pub Change-user :
      (id : Text) {t after : Tables}
      → Change who target t after
      → first_of (user_has_id id) t.users ≡ some u
      → first_of (user_has_id id) after.users ≡ some u
  unfolding first_of
  Change-user id unchanged e = e
  Change-user id {t} (signed_up new fresh) e =
      rw (apart_fresh (λ (y : UserRow). y.id) id new t.users e fresh.id) e
  Change-user id (key_made made mine fresh) e = e
  Change-user id (key_withdrawn now other user_id aimed mine) e = e
  Change-user id (config_made c mine fresh) e = e
  Change-user id (config_dropped user_id identifier mine) e = e

-- A row that was inserted is found by what is its own.
pub create_api_key-done :
    (link : Link) (id : Text) (now : ℕ) (user_id hash name : Text) (s : Store) {row : KeyRow}
    → (create_api_key link id now user_id hash name s).1 ≡ done row
    → (new_key id now user_id hash name ≡ row)
      × (first_of (key_has_hash hash) (create_api_key link id now user_id hash name s).0.api_keys
          ≡ some row)
unfolding create_api_key first_of
create_api_key-done link id now user_id hash name s {row} e =
    let (t, judged, after) = insert_row-done link _ s e in
    let (made, same, own, hashed, owner) =
      judge_key-inserts (new_key id now user_id hash name) row s.tables t judged in
    (same, rw (after, ← made, text_eq_refl hash) (ap some same))

pub create_user-done :
    (link : Link) (id : Text) (now : ℕ) (email hash : Text) (s : Store) {row : UserRow}
    → (create_user link id now email hash s).1 ≡ done row
    → (new_user id now email hash ≡ row)
      × (first_of (user_has_email email) (create_user link id now email hash s).0.users ≡ some row)
      × (first_of (user_has_id id) (create_user link id now email hash s).0.users ≡ some row)
unfolding create_user first_of
create_user-done link id now email hash s {row} e =
    let (t, judged, after) = insert_row-done link _ s e in
    let (made, same, own, named) =
      judge_user-inserts (new_user id now email hash) row s.tables t judged in
    (
      same,
      rw (after, ← made, text_eq_refl email) (ap some same),
      rw (after, ← made, text_eq_refl id) (ap some same),
    )
