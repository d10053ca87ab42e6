-- ===== src/Backend/Check/Tally.antt =====
-- The counters of `POST /api/v1/check`, against the responses that were sent.
use shard_leak.Common.{
  ℕ, ◌+◌, ◌≡◌, Bool, false, Option, List, [], ◌∷◌, if◌then◌else◌, ◌==◌, not, length,
}
use shard_leak.Backend.Redis.{Redis}
use shard_leak.Backend.RateLimit.{Link}
use shard_leak.Backend.Check.{
  CounterVec, Metrics, Response, CheckRequest, ok, error, Server, check_handler,
}

abbrev pub total : CounterVec → ℕ
total c = c.on_token_bucket + c.on_fixed_window

abbrev pub is_allowed : Response → Bool
is_allowed (ok h r) = r.allowed
is_allowed (error status code message) = false

abbrev pub is_rejected : Response → Bool
is_rejected (ok h r) = not r.allowed
is_rejected (error status code message) = false

abbrev pub has_status : ℕ → Response → Bool
has_status n (ok h r) = n == 200
has_status n (error status code message) = n == status

unfoldable pub number : (Response → Bool) → List Response → ℕ
number test [] = 0
number test (r ∷ rs) = (if test r then 1 else 0) + number test rs

-- A request, with what it finds of the connection and of the clock.
pub record Attempt : Type 0 where
  pub link : Link
  pub now_ms : ℕ
  pub body : Option CheckRequest

abbrev pub no_metrics : Metrics
no_metrics =
    let zeros : CounterVec = record { on_token_bucket = 0; on_fixed_window = 0 } in
    record {
      requests = zeros;
      allowed = zeros;
      rejected = zeros;
      durations = zeros;
      redis_errors = 0;
    }

-- The counters after the responses.
pub record Tallied (m m' : Metrics) (rs : List Response) : Type 0 where
  pub allowed : total m'.allowed ≡ total m.allowed + number is_allowed rs
  pub rejected : total m'.rejected ≡ total m.rejected + number is_rejected rs
  pub redis_errors : m'.redis_errors ≡ m.redis_errors + number (has_status 503) rs
  pub requests : total m'.requests + number (has_status 400) rs ≡ total m.requests + length rs
  pub durations : total m'.durations + number (has_status 400) rs ≡ total m.durations + length rs

module _ (R : Redis) where
  unfoldable pub handled : List Attempt → Server R → Server R × List Response
  handled [] server = (server, [])
  handled (a ∷ more) server =
      let (server1, response) = check_handler R a.link a.now_ms a.body server in
      let (server', responses) = handled more server1 in (server', response ∷ responses)
