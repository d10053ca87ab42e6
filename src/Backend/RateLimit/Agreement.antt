-- ===== src/Backend/RateLimit/Agreement.antt =====
-- The backend's service against the simulator, over any sequence of calls. The answers of fixed windows
-- are compared: the tokens of a bucket are rounded, and in different ways on the two sides.
mod Entries
mod Runs
pub mod Service
use shard_leak.Common.{
  ℕ, ◌+◌, ◌*◌, ◌/◌, ◌≤◌, ◌<◌, ◌≡◌, Bool, true, false, Option, none, some, List, [], ◌∷◌,
  if◌then◌else◌, ◌==◌, ◌&&◌, refl, arith, Bool-cases, inl, inr,
}
use shard_leak.Common.JsMap.{get}
use shard_leak.Common.Texts.{Text, text_eq, text_eq_iff, text_eq_refl}
use shard_leak.Backend.Redis.{Redis, IsLawful}
use shard_leak.Backend.RateLimit.{
  Algorithm, Request, Result, Link, over, check, bucket_key, window_key, parse_result,
}
use shard_leak.Backend.RateLimit.Step.{values_of, left_of, wait_of}
use shard_leak.Backend.RateLimit.WindowRun.{key_at, count_of}
use shard_leak.Simulator
use shard_leak.Simulator.{
  Simulator, Decision, CheckOptions, new_simulator, TbState, FwState, tb_key, fw_key, window_of,
  take_token,
}
use shard_leak.Simulator.Schedule
use shard_leak.Simulator.Schedule.{serve}
use shard_leak.Backend.RateLimit.WindowRun
use shard_leak.Backend.RateLimit.Keys.{
  text_eq-bucket_key, bucket_key-key_at, key_at-bucket_key, text_eq-key_at,
}
use shard_leak.Simulator.Bucket
use shard_leak.Simulator.Window
use shard_leak.Simulator.Window.{used, StartsBy, entry}

-- The limit of an identifier.
pub record Policy : Type 0 where
  pub limit : ℕ
  pub window_seconds : ℕ

-- A call, with what it finds of the connection and of the clocks.
pub record Call : Type 0 where
  pub link : Link
  pub identifier : Text
  pub algorithm : Simulator.Algorithm
  pub now_ms : ℕ
  pub spent : ℕ
  pub random : ℕ

abbrev pub backend_algorithm : Simulator.Algorithm → Algorithm
backend_algorithm Simulator.token_bucket = Algorithm.token_bucket
backend_algorithm Simulator.fixed_window = Algorithm.fixed_window

-- The call of `check` that the simulator gets.
abbrev pub simulated : (Text → Policy) → Call → Schedule.Request
simulated policy c = record {
  opts = record {
    identifier = c.identifier;
    algorithm = c.algorithm;
    limit = (policy c.identifier).limit;
    window_seconds = (policy c.identifier).window_seconds;
  };
  now_ms = c.now_ms;
  spent = c.spent;
  random = c.random;
}

-- The request that the service gets.
abbrev pub requested : (Text → Policy) → Call → Request
requested policy c = record {
  identifier = c.identifier;
  limit = (policy c.identifier).limit;
  window_seconds = (policy c.identifier).window_seconds;
  algorithm = backend_algorithm c.algorithm;
}

abbrev pub result_of : ℕ → Decision → Result
result_of limit d = record {
  allowed = d.allowed;
  remaining = left_of d.remaining;
  limit = limit;
  reset_at = d.reset_at;
  retry_after = wait_of d.retry_after;
}

-- What a simulator behind the same connection would answer.
unfoldable pub simulator_answers : (Text → Policy) → List Call → Simulator → List (Option Result)
simulator_answers policy [] s = []
simulator_answers policy (c ∷ cs) s =
    let (s1, r) = serve (simulated policy c) s in
    let (s', answer) =
      over c.link s (s1, some (result_of (policy c.identifier).limit r.decision)) in
    answer ∷ simulator_answers policy cs s'

-- What the service answers.
unfoldable pub service_answers :
    (R : Redis) → (Text → Policy) → List Call → R.Db → List (Option Result)
service_answers R policy [] db = []
service_answers R policy (c ∷ cs) db =
    let (db', answer) = check R c.link c.now_ms (requested policy c) db in
    answer ∷ service_answers R policy cs db'

abbrev pub on_window : Call → Bool
on_window c = elim c.algorithm [ Simulator.token_bucket ↦ false | Simulator.fixed_window ↦ true ]

-- Of what there is for each call, that for the calls of a fixed window.
abbrev pub of_windows {ℓ} : {A : Type ℓ} → List Call → List A → List A
of_windows [] xs = []
of_windows (c ∷ cs) [] = []
of_windows (c ∷ cs) (x ∷ xs) = if on_window c then x ∷ of_windows cs xs else of_windows cs xs

-- The clock does not fall.
abbrev pub InOrder : ℕ → List Call → Type 0
InOrder from [] = Unit
InOrder from (c ∷ cs) = (from ≤ c.now_ms) × InOrder c.now_ms cs

pub parse_result-values_of :
    (limit : ℕ) (d : Decision) → parse_result (values_of d) limit ≡ some (result_of limit d)
unfolding parse_result
parse_result-values_of limit d = ground arith
