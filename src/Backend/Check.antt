-- ===== src/Backend/Check.antt =====
-- backend/internal/handlers/check.go: POST /api/v1/check, with the counters of
-- backend/internal/metrics/metrics.go that it and `Service.Check` increment.
--
-- Decoding the body is the JSON library's: `none` is a body that it refuses, or one over 4096 bytes.
-- How `%q` prints the unsupported algorithm is Go's: the message keeps the text itself.
pub mod Tally
pub mod Simulated
use shard_leak.Common.{
  ℕ, ◌⊎◌, inl, inr, [], ◌+◌, Bool, true, false, ◌&&◌, ◌||◌, not, Option, none, some, ltb,
  if◌then◌else◌, is_some,
}
use shard_leak.Common.Int.{ℤ, pos, negsuc}
use shard_leak.Common.Texts.{Text, codes, text_eq}
use shard_leak.Backend.Redis.{Redis}
use shard_leak.Backend.RateLimit.{
  Algorithm, token_bucket, fixed_window, Request, Result, Link, check,
}

-- A counter with the label `algorithm`.
pub record CounterVec : Type 0 where
  pub on_token_bucket : ℕ
  pub on_fixed_window : ℕ

unfoldable pub inc : Algorithm → CounterVec → CounterVec
inc token_bucket c = record c { on_token_bucket = c.on_token_bucket + 1 }
inc fixed_window c = record c { on_fixed_window = c.on_fixed_window + 1 }

-- Of the histogram, the number of its observations.
pub record Metrics : Type 0 where
  pub requests : CounterVec
  pub allowed : CounterVec
  pub rejected : CounterVec
  pub durations : CounterVec
  pub redis_errors : ℕ

pub record CheckRequest : Type 0 where
  pub identifier : Text
  pub limit : ℤ
  pub window_seconds : ℤ
  pub algorithm : Text

pub record CheckResponse : Type 0 where
  pub allowed : Bool
  pub remaining : ℕ
  pub reset_at : ℕ
  pub retry_after : Option ℕ

-- The headers X-RateLimit-Limit, -Remaining and -Reset, and Retry-After if it is set.
pub record Headers : Type 0 where
  pub limit : ℕ
  pub remaining : ℕ
  pub reset_time : ℕ
  pub retry_after : Option ℕ

pub data Message : Type 0 where
  plain : Text → Message
  unsupported_algorithm : Text → Message

pub data Response : Type 0 where
  ok : Headers → CheckResponse → Response
  -- `writeError`: the status, the code and the message.
  error : ℕ → Text → Message → Response

abbrev pub invalid : Message → Response
invalid message = error 400 (codes "INVALID_REQUEST") message

abbrev pub unavailable : Response
unavailable =
    error 503 (codes "SERVICE_UNAVAILABLE") (plain (codes "rate limit service unavailable"))

-- `n <= 0` is none; a number above 0 is itself.
abbrev pub above_zero : ℤ → Option ℕ
above_zero (pos n) = if ltb 0 n then some n else none
above_zero (negsuc n) = none

unfoldable pub algorithm_of : Text → Option Algorithm
algorithm_of t =
    if text_eq t (codes "token_bucket")
    then some token_bucket
    else if text_eq t (codes "fixed_window")
    then some fixed_window
    else none

-- The checks of the body, in their order.
unfoldable pub validated : Option CheckRequest → Message ⊎ Request
validated none = inl (plain (codes "invalid JSON body"))
validated (some req) =
    if text_eq req.identifier []
    then inl (plain (codes "identifier is required"))
    else elim (above_zero req.limit) [
      | none ↦ inl (plain (codes "limit must be greater than zero"))
      | some limit ↦ elim (above_zero req.window_seconds) [
        | none ↦ inl (plain (codes "window_seconds must be greater than zero"))
        | some window_seconds ↦ elim (algorithm_of req.algorithm) [
          | none ↦ inl (unsupported_algorithm req.algorithm)
          | some algorithm ↦ inr (record {
            identifier = req.identifier;
            limit = limit;
            window_seconds = window_seconds;
            algorithm = algorithm;
          })
        ]
      ]
    ]

-- `retry_after` and the header Retry-After are there for a request that is to wait.
abbrev pub retry_of : Result → Option ℕ
retry_of r = if not r.allowed && ltb 0 r.retry_after then some r.retry_after else none

unfoldable pub respond : ℕ → Result → Response
respond limit r =
    ok
      (record {
        limit = limit;
        remaining = r.remaining;
        reset_time = r.reset_at;
        retry_after = retry_of r;
      })
      (record {
        allowed = r.allowed;
        remaining = r.remaining;
        reset_at = r.reset_at;
        retry_after = retry_of r;
      })

unfoldable pub response_to : ℕ → Option Result → Response
unfolding respond
response_to limit none = unavailable
response_to limit (some r) = respond limit r

-- `metrics.RedisErrorsTotal.Inc()` of `Service.Check`
unfoldable pub note_error : Option Result → Metrics → Metrics
note_error none m = record m { redis_errors = m.redis_errors + 1 }
note_error (some r) m = m

unfoldable pub note_decision : Algorithm → Option Result → Metrics → Metrics
note_decision algorithm none m = m
note_decision algorithm (some r) m =
    if r.allowed
    then record m { allowed = inc algorithm m.allowed }
    else record m { rejected = inc algorithm m.rejected }

module _ (R : Redis) where
  pub record Server : Type 0 where
    pub db : R.Db
    pub metrics : Metrics

  -- `Service.Check`
  unfoldable pub service_check : Link → ℕ → Request → Server → Server × Option Result
  unfolding note_error
  service_check link now_ms req server =
      let (db, result) = check R link now_ms req server.db in
      (record { db = db; metrics = note_error result server.metrics }, result)

  -- `CheckHandler.Check` from the checks of the body on.
  unfoldable pub answer : Link → ℕ → Message ⊎ Request → Server → Server × Response
  unfolding service_check response_to note_decision
  answer link now_ms (inl message) server = (server, invalid message)
  answer link now_ms (inr req) server =
      let m = server.metrics in
      let asked : Server = record server {
        metrics = record m { requests = inc req.algorithm m.requests };
      } in
      let (served, result) = service_check link now_ms req asked in
      let m' = served.metrics in
      let timed : Metrics = record m' { durations = inc req.algorithm m'.durations } in
      (
        record served { metrics = note_decision req.algorithm result timed },
        response_to req.limit result,
      )

  unfoldable pub check_handler : Link → ℕ → Option CheckRequest → Server → Server × Response
  unfolding validated answer
  check_handler link now_ms body server = answer link now_ms (validated body) server
