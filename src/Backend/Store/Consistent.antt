-- ===== src/Backend/Store/Consistent.antt =====
-- backend/migrations/001_initial_schema.sql: the constraints of the schema, kept by every change.
use shard_leak.Common.{
  Bool, true, false, Option, List, [], ◌∷◌, map, keep_if, All, All-map, ◌≡◌, refl, arith,
  Bool-cases, inl, inr,
}
use shard_leak.Common.Texts.{Text, text_eq}
use shard_leak.Backend.Store.{
  UserRow, KeyRow, LimitRow, Tables, first_of, some_row, user_has_id, user_has_email, key_has_id,
  key_has_hash, config_has_id, config_at, no_rows,
}
use shard_leak.Backend.Store.Keys.{revoke}
use shard_leak.Backend.Store.Limits.{fits_column, other_config}
use shard_leak.Backend.Store.Change.{
  Change, unchanged, signed_up, key_made, key_withdrawn, config_made, config_dropped,
}
use shard_leak.Backend.Store.Rows.{id-revoke, hash-revoke, user_id-revoke}

-- No row of the list is the same, by a test, as one further on.
abbrev pub Apart {ℓ} : {A : Type ℓ} → (A → A → Bool) → List A → Type 0
Apart same [] = Unit
Apart same (x ∷ xs) = (some_row (same x) xs ≡ false) × Apart same xs

abbrev pub same_config : LimitRow → LimitRow → Bool
same_config c = config_at c.user_id c.identifier

abbrev pub HasOwner : List UserRow → Text → Type 0
HasOwner users id = some_row (user_has_id id) users ≡ true

abbrev pub FitsColumns : LimitRow → Type 0
FitsColumns c = (fits_column c.limit ≡ true) × (fits_column c.window_seconds ≡ true)

-- The primary keys, the unique columns and the references of the three tables, and the checks of the
-- numbers.
pub record Consistent (t : Tables) : Type 0 where
  pub user_ids : Apart (λ u. user_has_id u.id) t.users
  pub emails : Apart (λ u. user_has_email u.email) t.users
  pub key_ids : Apart (λ k. key_has_id k.id) t.api_keys
  pub hashes : Apart (λ k. key_has_hash k.key_hash) t.api_keys
  pub key_owners : All (λ k. HasOwner t.users k.user_id) t.api_keys
  pub config_ids : Apart (λ c. config_has_id c.id) t.configs
  pub places : Apart same_config t.configs
  pub config_owners : All (λ c. HasOwner t.users c.user_id) t.configs
  pub numbers : All FitsColumns t.configs

pub Consistent-no_rows : Consistent no_rows
Consistent-no_rows = record {
  user_ids = tt;
  emails = tt;
  key_ids = tt;
  hashes = tt;
  key_owners = tt;
  config_ids = tt;
  places = tt;
  config_owners = tt;
  numbers = tt;
}

module _ {ℓ} {A : Type ℓ} where
  some_row-keep_if :
      (test keep : A → Bool) (xs : List A)
      → some_row test xs ≡ false
      → some_row test (keep_if keep xs) ≡ false
  unfolding first_of
  some_row-keep_if test keep [] h = refl
  some_row-keep_if test keep (x ∷ xs) h = ground (arith, some_row-keep_if test keep xs)

  Apart-keep_if :
      (same : A → A → Bool) (keep : A → Bool) (xs : List A)
      → Apart same xs
      → Apart same (keep_if keep xs)
  Apart-keep_if same keep [] h = tt
  Apart-keep_if same keep (x ∷ xs) h = elim (Bool-cases (keep x)) [
    | inl kept ↦ rw kept (some_row-keep_if (same x) keep xs h.0, Apart-keep_if same keep xs h.1)
    | inr dropped ↦ rw dropped (Apart-keep_if same keep xs h.1)
  ]

  All-keep_if {κ} :
      (P : A → Type κ) (keep : A → Bool) (xs : List A) → All P xs → All P (keep_if keep xs)
  All-keep_if P keep [] h = tt
  All-keep_if P keep (x ∷ xs) h = elim (Bool-cases (keep x)) [
    | inl kept ↦ rw kept (h.0, All-keep_if P keep xs h.1)
    | inr dropped ↦ rw dropped (All-keep_if P keep xs h.1)
  ]

  some_row-map :
      (test : A → Bool) (f : A → A) (xs : List A)
      → ((x : A) → test (f x) ≡ test x)
      → some_row test (map f xs) ≡ some_row test xs
  unfolding first_of
  some_row-map test f [] e = refl
  some_row-map test f (x ∷ xs) e = ground (arith, e x, some_row-map test f xs e)

  module _ (column : A → Text) (f : A → A) (keeps : (x : A) → column (f x) ≡ column x) where
    Apart-map :
        (xs : List A)
        → Apart (λ x y. text_eq (column y) (column x)) xs
        → Apart (λ x y. text_eq (column y) (column x)) (map f xs)
    Apart-map [] h = tt
    Apart-map (x ∷ xs) h = (
      rw (keeps x, some_row-map (λ y. text_eq (column y) (column x)) f xs (λ y. rw (keeps y) refl))
          h.0,
      Apart-map xs h.1,
    )

    All-column-map :
        (P : Text → Type 0) (xs : List A)
        → All (λ x. P (column x)) xs
        → All (λ x. P (column x)) (map f xs)
    All-column-map P [] h = tt
    All-column-map P (x ∷ xs) h = (rw (keeps x) h.0, All-column-map P xs h.1)

HasOwner-cons :
    (u : UserRow) (users : List UserRow) (id : Text) → HasOwner users id → HasOwner (u ∷ users) id
unfolding first_of
HasOwner-cons u users id h = ground arith

-- Every change keeps the constraints.
pub Change-Consistent :
    {who target : Option Text} {t after : Tables}
    → Change who target t after
    → Consistent t
    → Consistent after
Change-Consistent unchanged c = c
Change-Consistent {t = t} (signed_up u fresh) c = record {
  user_ids = (fresh.id, c.user_ids);
  emails = (fresh.email, c.emails);
  key_ids = c.key_ids;
  hashes = c.hashes;
  key_owners = All-map _ _ (λ k. HasOwner-cons u t.users k.user_id) t.api_keys c.key_owners;
  config_ids = c.config_ids;
  places = c.places;
  config_owners = All-map _ _ (λ k. HasOwner-cons u t.users k.user_id) t.configs c.config_owners;
  numbers = c.numbers;
}
Change-Consistent (key_made k mine fresh) c = record {
  user_ids = c.user_ids;
  emails = c.emails;
  key_ids = (fresh.id, c.key_ids);
  hashes = (fresh.hash, c.hashes);
  key_owners = (fresh.owner, c.key_owners);
  config_ids = c.config_ids;
  places = c.places;
  config_owners = c.config_owners;
  numbers = c.numbers;
}
Change-Consistent {t = t} (key_withdrawn now id user_id aimed mine) c = record {
  user_ids = c.user_ids;
  emails = c.emails;
  key_ids =
      Apart-map (λ (k : KeyRow). k.id) (revoke now id user_id) (id-revoke now id user_id) t.api_keys
        c.key_ids;
  hashes =
      Apart-map (λ (k : KeyRow). k.key_hash) (revoke now id user_id) (hash-revoke now id user_id)
        t.api_keys c.hashes;
  key_owners =
      All-column-map (λ (k : KeyRow). k.user_id) (revoke now id user_id)
        (user_id-revoke now id user_id) (HasOwner t.users) t.api_keys c.key_owners;
  config_ids = c.config_ids;
  places = c.places;
  config_owners = c.config_owners;
  numbers = c.numbers;
}
Change-Consistent (config_made new mine fresh) c = record {
  user_ids = c.user_ids;
  emails = c.emails;
  key_ids = c.key_ids;
  hashes = c.hashes;
  key_owners = c.key_owners;
  config_ids = (fresh.id, c.config_ids);
  places = (fresh.place, c.places);
  config_owners = (fresh.owner, c.config_owners);
  numbers = ((fresh.limit, fresh.window_seconds), c.numbers);
}
Change-Consistent {t = t} (config_dropped user_id identifier mine) c =
    let keep = other_config user_id identifier in
    record {
      user_ids = c.user_ids;
      emails = c.emails;
      key_ids = c.key_ids;
      hashes = c.hashes;
      key_owners = c.key_owners;
      config_ids = Apart-keep_if _ keep t.configs c.config_ids;
      places = Apart-keep_if same_config keep t.configs c.places;
      config_owners = All-keep_if _ keep t.configs c.config_owners;
      numbers = All-keep_if FitsColumns keep t.configs c.numbers;
    }
