-- ===== src/Backend/Redis.antt =====
-- The commands of Redis that the scripts of backend/internal/ratelimit use, over an unknown database,
-- and what its documentation says of them. A time is the server's clock, in milliseconds.
pub mod Memory
use shard_leak.Common.{ℕ, ◌+◌, ◌*◌, ◌≤◌, ◌≡◌, false, Option, none, some, ltb, if◌then◌else◌, get_or}
use shard_leak.Common.Texts.{Text, text_eq}
use shard_leak.Backend.Fraction.{Fraction}

-- The two fields of a bucket's hash.
pub record Bucket : Type 0 where
  pub tokens : Fraction
  pub last_ms : ℕ

pub record Redis : Type 1 where
  pub Db : Type 0
  pub empty : Db
  -- The double that is nearest to a number.
  pub double : Fraction → Fraction
  -- What `tonumber` reads of the text that `tostring` writes for a number: of its digits, 14.
  pub reread : Fraction → Fraction
  -- `HMGET key tokens last_ms`: both fields, or none.
  pub hmget : Text → ℕ → Db → Option Bucket
  -- `HSET key tokens … last_ms …`
  pub hset : Text → Bucket → ℕ → Db → Db
  -- `EXPIRE key ttl`
  pub expire : Text → ℕ → ℕ → Db → Db
  -- `GET key`, of a counter.
  pub get : Text → ℕ → Db → Option ℕ
  -- `INCR key`, with the value that it returns.
  pub incr : Text → ℕ → Db → Db × ℕ
  -- `EXPIREAT key secs`
  pub expireat : Text → ℕ → ℕ → Db → Db

abbrev pub one_more : Option ℕ → Option ℕ
one_more none = none
one_more (some n) = some (n + 1)

pub record IsLawful (R : Redis) : Type 0 where
  pub get-empty : (k : Text) (t : ℕ) → R.get k t R.empty ≡ none
  -- Writing a hash and giving it a time to live leaves the counters under other keys.
  pub get-expire-hset :
      (k j : Text) (b : Bucket) (ttl now t : ℕ) (db : R.Db)
      → text_eq k j ≡ false
      → now ≤ t
      → R.get j t (R.expire k ttl now (R.hset k b now db)) ≡ R.get j t db
  -- A counter that is not there counts from 0.
  pub incr_value :
      (k : Text) (now : ℕ) (db : R.Db) → (R.incr k now db).1 ≡ get_or (R.get k now db) 0 + 1
  -- One that is there keeps the time at which it goes.
  pub get-incr :
      (k j : Text) {n : ℕ} (now t : ℕ) (db : R.Db)
      → R.get k now db ≡ some n
      → now ≤ t
      → R.get j t (R.incr k now db).0
        ≡ (if text_eq k j then one_more (R.get k t db) else R.get j t db)
  pub get-expireat-incr :
      (k j : Text) (secs now t : ℕ) (db : R.Db)
      → R.get k now db ≡ none
      → now ≤ t
      → R.get j t (R.expireat k secs now (R.incr k now db).0)
        ≡ (if text_eq k j then (if ltb t (1000 * secs) then some 1 else none) else R.get j t db)
