-- ===== src/Backend/Check/Simulated.antt =====
-- The responses of `POST /api/v1/check`, against the decisions of the simulator.
mod Waits
pub mod Responses
use shard_leak.Common.{
  ℕ, ◌+◌, ◌<◌, ◌≡◌, Bool, true, false, Option, none, some, List, [], ◌∷◌, if◌then◌else◌, not, refl,
  arith, inl, inr,
}
use shard_leak.Common.Texts.{Text}
use shard_leak.Common.Int.{ℤ, pos}
use shard_leak.Backend.Redis.{Redis, IsLawful}
use shard_leak.Backend.RateLimit.{Algorithm, Link, over, Result}
use shard_leak.Backend.RateLimit.Step.{left_of}
use shard_leak.Backend.RateLimit.Agreement.{Policy, Call, simulated}
use shard_leak.Backend.Check.{CheckRequest, Response, ok, unavailable}
use shard_leak.Backend.Check.Tally.{Attempt}
use shard_leak.Simulator
use shard_leak.Simulator.{Simulator, Decision, Seconds, finite, infinite}
use shard_leak.Simulator.Schedule.{serve}
use shard_leak.Common.Texts.{codes}

abbrev pub told : Option Seconds → Option ℕ
told none = none
told (some infinite) = none
told (some (finite n)) = some n

-- The response that says what a decision says.
unfoldable pub response_of : ℕ → Option Decision → Response
response_of limit none = unavailable
response_of limit (some d) =
    ok
      (record {
        limit = limit;
        remaining = left_of d.remaining;
        reset_time = d.reset_at;
        retry_after = told d.retry_after;
      })
      (record {
        allowed = d.allowed;
        remaining = left_of d.remaining;
        reset_at = d.reset_at;
        retry_after = told d.retry_after;
      })

abbrev pub algorithm_text : Simulator.Algorithm → Text
algorithm_text Simulator.token_bucket = codes "token_bucket"
algorithm_text Simulator.fixed_window = codes "fixed_window"

-- The body that asks what a call of the simulator asks.
abbrev pub body_of : (Text → Policy) → Call → CheckRequest
body_of policy c = record {
  identifier = c.identifier;
  limit = pos (policy c.identifier).limit;
  window_seconds = pos (policy c.identifier).window_seconds;
  algorithm = algorithm_text c.algorithm;
}

-- As the handler gets it. Whether its text has at most 4096 bytes and its numbers fit an `int` is an
-- argument.
abbrev pub attempt : (CheckRequest → Bool) → (Text → Policy) → Call → Attempt
attempt decodes policy c = record {
  link = c.link;
  now_ms = c.now_ms;
  body = if decodes (body_of policy c) then some (body_of policy c) else none;
}

-- What a simulator behind the same connection would have the handler send.
unfoldable pub simulator_responses : (Text → Policy) → List Call → Simulator → List Response
simulator_responses policy [] s = []
simulator_responses policy (c ∷ cs) s =
    let (s1, r) = serve (simulated policy c) s in
    let (s', decision) = over c.link s (s1, some r.decision) in
    response_of (policy c.identifier).limit decision ∷ simulator_responses policy cs s'
