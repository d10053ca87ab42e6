-- ===== src/Backend/RateLimit.antt =====
-- backend/internal/ratelimit: the two Lua scripts, and the service that runs them.
--
-- A script runs at once, with the server's clock equal to the time that it is given.
pub mod Step
pub mod WindowRun
mod Keys
pub mod Agreement
use shard_leak.Common.{
  ℕ, ◌+◌, ◌-◌, ◌*◌, ◌/◌, Bool, true, false, Option, none, some, List, [], ◌∷◌, ◌++◌, max, ltb, ◌==◌,
  ◌&&◌, if◌then◌else◌, get_or,
}
use shard_leak.Common.Texts.{Text, codes, decimal}
use shard_leak.Backend.Fraction.{
  Fraction, whole, scale, plus, gap, over_by, cap_at, has_one, less_one, above, floor, ceil,
}
use shard_leak.Backend.Redis.{Redis, Bucket}

pub data Algorithm : Type 0 where
  token_bucket fixed_window : Algorithm

pub record Request : Type 0 where
  pub identifier : Text
  pub limit : ℕ
  pub window_seconds : ℕ
  pub algorithm : Algorithm

-- The reset time is in Unix seconds.
pub record Result : Type 0 where
  pub allowed : Bool
  pub remaining : ℕ
  pub limit : ℕ
  pub reset_at : ℕ
  pub retry_after : ℕ

abbrev pub bucket_key : Text → Text
bucket_key identifier = codes "shardleak:rate:tb:" ++ identifier

abbrev pub window_key : Text → Text
window_key identifier = codes "shardleak:rate:fw:" ++ identifier

-- `tokenBucketLua` from its read of the hash up to the tokens that are there. Each operation on numbers
-- that need not be whole is rounded to a double.
unfoldable pub bucket_tokens : (Fraction → Fraction) → ℕ → Fraction → ℕ → Option Bucket → Fraction
unfolding plus cap_at
bucket_tokens double capacity rate_per_ms now_ms found =
    let b : Bucket = get_or found (record { tokens = whole capacity; last_ms = now_ms }) in
    let refilled = double (scale (now_ms - b.last_ms) rate_per_ms) in
    cap_at capacity (double (plus b.tokens refilled))

-- `math.ceil((n - a) / rate / 1000)`
unfoldable pub secs_until : (Fraction → Fraction) → ℕ → Fraction → Fraction → ℕ
secs_until double n a rate =
    ceil (double (over_by (double (over_by (double (gap n a)) rate)) (whole 1000)))

-- From there on: the hash that it writes, and the list that it returns.
unfoldable pub bucket_spend :
    (Fraction → Fraction) → ℕ → Fraction → ℕ → ℕ → Fraction → Bucket × List ℕ
unfolding secs_until
bucket_spend double capacity rate_per_ms now_ms ttl_secs tokens =
    let allowed = has_one tokens in
    let left = if allowed then double (less_one tokens) else tokens in
    let retry_after_sec =
      if allowed
      then 0
      else if ltb 0 rate_per_ms.num
      then secs_until double 1 tokens rate_per_ms
      else ttl_secs in
    let secs_to_full =
      if above capacity left && ltb 0 rate_per_ms.num
      then secs_until double capacity left rate_per_ms
      else 0 in
    (
      record { tokens = left; last_ms = now_ms },
      (if allowed then 1 else 0)
          ∷ floor left
          ∷ (now_ms / 1000 + secs_to_full)
          ∷ retry_after_sec
          ∷ [],
    )

-- `float64(limit) / float64(windowSeconds) / 1000.0`
abbrev pub rate_of : (Fraction → Fraction) → ℕ → ℕ → Fraction
rate_of double limit window_seconds =
    double (over_by (double (record { num = limit; den = window_seconds })) (whole 1000))

-- `parseResult`: an answer with fewer than four values is an error.
unfoldable pub parse_result : List ℕ → ℕ → Option Result
parse_result (allowed ∷ remaining ∷ reset_at ∷ retry_after ∷ more) limit = some (record {
  allowed = allowed == 1;
  remaining = remaining;
  limit = limit;
  reset_at = reset_at;
  retry_after = retry_after;
})
parse_result _ limit = none

-- The connection to Redis during a call: it works, the call does not reach it, or the answer is lost.
pub data Link : Type 0 where
  up unreachable cut : Link

-- What a script did and returned, as the caller gets it.
abbrev pub over {ℓ ℓ'} : {D : Type ℓ} {A : Type ℓ'} → Link → D → D × Option A → D × Option A
over up db done = done
over unreachable db done = (db, none)
over cut db done = (done.0, none)

module _ (R : Redis) where
  -- `tokenBucketLua`
  unfoldable pub token_bucket_lua : Text → ℕ → Fraction → ℕ → ℕ → R.Db → R.Db × List ℕ
  token_bucket_lua key capacity rate_per_ms now_ms ttl_secs db =
      let (b, values) =
        bucket_spend R.double capacity rate_per_ms now_ms ttl_secs
          (bucket_tokens R.double capacity rate_per_ms now_ms (R.hmget key now_ms db)) in
      (
        R.expire key ttl_secs now_ms
            (R.hset key (record b { tokens = R.reread b.tokens }) now_ms db),
        values,
      )

  -- `fixedWindowLua`, run at `now_ms`; `key` is the identifier's, `now` the time in seconds.
  unfoldable pub fixed_window_lua : Text → ℕ → ℕ → ℕ → ℕ → R.Db → R.Db × List ℕ
  fixed_window_lua key limit window_seconds now now_ms db =
      let window_start = now / window_seconds * window_seconds in
      let reset_at = window_start + window_seconds in
      let counter = key ++ (b':' ∷ decimal window_start) in
      let count = get_or (R.get counter now_ms db) 0 in
      let (db', new_count) = R.incr counter now_ms db in
      if ltb count limit
      then (
        (if new_count == 1 then R.expireat counter reset_at now_ms db' else db'),
        1 ∷ (limit - new_count) ∷ reset_at ∷ 0 ∷ [],
      )
      else (db, 0 ∷ (limit - count) ∷ reset_at ∷ (reset_at - now) ∷ [])

  unfoldable pub check_token_bucket : Link → ℕ → Request → R.Db → R.Db × Option Result
  unfolding parse_result token_bucket_lua
  check_token_bucket link now_ms req db =
      let (db', values) =
        token_bucket_lua (bucket_key req.identifier) req.limit
          (rate_of R.double req.limit req.window_seconds) now_ms (req.window_seconds * 2) db in
      over link db (db', parse_result values req.limit)

  unfoldable pub check_fixed_window : Link → ℕ → Request → R.Db → R.Db × Option Result
  unfolding parse_result fixed_window_lua
  check_fixed_window link now_ms req db =
      let (db', values) =
        fixed_window_lua (window_key req.identifier) req.limit req.window_seconds (now_ms / 1000)
          now_ms db in
      over link db (db', parse_result values req.limit)

  -- `Service.Check`, without its count of errors.
  unfoldable pub check : Link → ℕ → Request → R.Db → R.Db × Option Result
  check link now_ms req db = elim req.algorithm [
    | token_bucket ↦ check_token_bucket link now_ms req db
    | fixed_window ↦ check_fixed_window link now_ms req db
  ]
