-- ===== src/Backend/Check/Simulated/Responses.antt =====
-- What the handler sends for a sequence of calls.
use shard_leak.Common.{Bool, ◌≡◌, false, Option, List, [], ◌∷◌, true, All}
use shard_leak.Common.Texts.{Text, text_eq}
use shard_leak.Backend.Redis.{Redis}
use shard_leak.Backend.RateLimit.{Result}
use shard_leak.Backend.RateLimit.Agreement.{Policy, Call}
use shard_leak.Backend.Check.{CheckRequest, Response, response_to}
use shard_leak.Backend.Check.Simulated.{body_of}
use shard_leak.Simulator
use shard_leak.Simulator.{Simulator, Decision, check_token_bucket, check_fixed_window}

-- The responses that the handler makes of the service's answers.
unfoldable responses : (Text → Policy) → List Call → List (Option Result) → List Response
responses policy (c ∷ cs) (a ∷ more) =
    response_to (policy c.identifier).limit a ∷ responses policy cs more
responses policy _ _ = []

-- No identifier is empty, and the handler decodes each body.
abbrev pub Sent : (CheckRequest → Bool) → (Text → Policy) → List Call → Type 0
Sent decodes policy =
    All (λ c. (text_eq c.identifier [] ≡ false) × (decodes (body_of policy c) ≡ true))
