-- ===== src/Backend/Store.antt =====
-- backend/internal/store/store.go: the statements of the store, on the three tables of
-- backend/migrations/001_initial_schema.sql.
--
-- A statement does what its SQL says, with the constraints of the schema. The id and the time that the
-- database gives to a new row are arguments, and so is the order of the rows that it returns where
-- times are equal. A statement that fails, whatever the reason, fails without an effect
-- (`unreachable`) or after it (`cut`). Ids are taken in the form in which PostgreSQL prints a UUID.
pub mod Users
pub mod Keys
pub mod Limits
pub mod Statements
pub mod Change
pub mod Rows
pub mod Consistent
use shard_leak.Common.{
  ℕ, ◌+◌, Bool, true, false, ◌&&◌, ◌||◌, not, Option, none, some, List, [], ◌∷◌, map, ltb,
  if◌then◌else◌, is_some, keep_if,
}
use shard_leak.Common.Int.{ℤ, pos, negsuc}
use shard_leak.Common.Texts.{Text, codes, text_eq}
use shard_leak.Client.Api.{Algorithm, token_bucket, fixed_window}
use shard_leak.Backend.RateLimit.{Link, up, unreachable, cut}
use shard_leak.Backend.Check.{CheckRequest, above_zero}

pub record UserRow : Type 0 where
  pub id : Text
  pub email : Text
  pub password_hash : Text
  pub created_at : ℕ

pub record KeyRow : Type 0 where
  pub id : Text
  pub user_id : Text
  pub key_hash : Text
  pub name : Text
  pub created_at : ℕ
  pub revoked_at : Option ℕ

pub record LimitRow : Type 0 where
  pub id : Text
  pub user_id : Text
  pub identifier : Text
  pub algorithm : Algorithm
  pub limit : ℤ
  pub window_seconds : ℤ
  pub created_at : ℕ
  pub updated_at : ℕ

pub record Tables : Type 0 where
  pub users : List UserRow
  pub api_keys : List KeyRow
  pub configs : List LimitRow

-- With the counter of the errors of the database.
pub record Store : Type 0 where
  pub tables : Tables
  pub open tables use *
  pub db_errors : ℕ

abbrev pub no_rows : Tables
no_rows = record { users = []; api_keys = []; configs = [] }

abbrev pub empty_store : Store
empty_store = record { tables = no_rows; db_errors = 0 }

-- A value, `ErrNotFound`, `ErrConflict`, or another error.
pub data Outcome {ℓ} (A : Type ℓ) : Type ℓ where
  done : A → Outcome A
  err_not_found err_conflict err_db : Outcome A

-- `dbErr`
unfoldable pub db_err {ℓ} : {A : Type ℓ} → Store → Store × Outcome A
db_err s = (record s { db_errors = s.db_errors + 1 }, err_db)

-- `QueryRow` of a SELECT with `Scan`, and what the store makes of its error.
unfoldable pub query_row {ℓ} : {A : Type ℓ} → Link → Option A → Store → Store × Outcome A
unfolding db_err
query_row up (some row) s = (s, done row)
query_row up none s = (s, err_not_found)
query_row unreachable found s = db_err s
query_row cut found s = db_err s

-- `Exec` of a statement that leaves the tables `after` and touches a row or none.
unfoldable pub exec : Link → Bool → Tables → Store → Store × Outcome (Unit {0})
unfolding db_err
exec up touched after s = (record s { tables = after }, if touched then done tt else err_not_found)
exec unreachable touched after s = db_err s
exec cut touched after s = db_err (record s { tables = after })

-- What the constraints of a table say to a row: the row and the tables with it, `isUniqueViolation`, or
-- another violation.
pub data Verdict {ℓ} (A : Type ℓ) : Type ℓ where
  inserts : A → Tables → Verdict A
  unique_violation : Verdict A
  other_violation : Verdict A

-- `QueryRow` of an INSERT, and what the store makes of its error.
unfoldable pub insert_row {ℓ} : {A : Type ℓ} → Link → Verdict A → Store → Store × Outcome A
unfolding db_err
insert_row up (inserts row after) s = (record s { tables = after }, done row)
insert_row up unique_violation s = (s, err_conflict)
insert_row up other_violation s = db_err s
insert_row unreachable verdict s = db_err s
insert_row cut (inserts row after) s = db_err (record s { tables = after })
insert_row cut unique_violation s = db_err s
insert_row cut other_violation s = db_err s

-- `Query`, and the loop over its rows. An error of `Query` is counted; one that ends the loop is the
-- result of `rows.Err()`, which is not.
unfoldable pub query {ℓ} : {A : Type ℓ} → Link → List A → Store → Store × Outcome (List A)
unfolding db_err
query up rows s = (s, done rows)
query unreachable rows s = db_err s
query cut rows s = (s, err_db)

-- The first row that a condition takes.
unfoldable pub first_of {ℓ} : {A : Type ℓ} → (A → Bool) → List A → Option A
first_of test [] = none
first_of test (x ∷ xs) = if test x then some x else first_of test xs

-- Whether there is one.
abbrev pub some_row {ℓ} : {A : Type ℓ} → (A → Bool) → List A → Bool
some_row test xs = is_some (first_of test xs)

abbrev pub user_has_id : Text → UserRow → Bool
user_has_id id u = text_eq u.id id

abbrev pub user_has_email : Text → UserRow → Bool
user_has_email email u = text_eq u.email email

abbrev pub key_has_id : Text → KeyRow → Bool
key_has_id id k = text_eq k.id id

abbrev pub key_has_hash : Text → KeyRow → Bool
key_has_hash hash k = text_eq k.key_hash hash

abbrev pub key_of : Text → KeyRow → Bool
key_of user_id k = text_eq k.user_id user_id

abbrev pub config_has_id : Text → LimitRow → Bool
config_has_id id c = text_eq c.id id

abbrev pub config_of : Text → LimitRow → Bool
config_of user_id c = text_eq c.user_id user_id

abbrev pub config_at : Text → Text → LimitRow → Bool
config_at user_id identifier c = text_eq c.user_id user_id && text_eq c.identifier identifier
