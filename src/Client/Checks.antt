-- ===== src/Client/Checks.antt =====
-- frontend/app/dashboard/playground/page.tsx: the state of `PlaygroundPage`, with the module's
-- `decisionCounter`, and its handlers.
--
-- `handleCheck` is two functions: up to the call, which it returns, and from the answer on. What its
-- closure holds is passed on. The number inputs give integers; the scroll of the log is left out.
pub mod History
pub mod View
use shard_leak.Common.{
  ℕ, ◌+◌, Bool, true, false, Option, none, some, List, [], ◌∷◌, if◌then◌else◌, take, ◌==◌,
}
use shard_leak.Common.Int.{ℤ, pos}
use shard_leak.Common.Texts.{Text, codes}
use shard_leak.Client.Api.{
  Algorithm, token_bucket, CheckRequest, CheckResult, Call, Thrown, api_error, other_error, Result,
  ok, throw,
}
use shard_leak.Client.Calls
use shard_leak.Client.Uri.{trim}

pub record Decision : Type 0 where
  pub id : ℕ
  pub allowed : Bool
  pub remaining : ℤ
  pub retry_after : Option ℕ
  pub reset_at : Text
  pub latency_ms : ℕ
  pub identifier : Text
  pub algorithm : Algorithm

pub record ChecksPage : Type 0 where
  pub identifier : Text
  pub algorithm : Algorithm
  pub limit : ℤ
  pub window_seconds : ℤ
  pub api_key : Text
  pub loading : Bool
  pub error : Text
  pub last_result : Option Decision
  pub last_latency : ℕ
  pub history : List Decision
  pub decision_counter : ℕ

unfoldable pub initial : ChecksPage
initial = record {
  identifier = codes "user:demo";
  algorithm = token_bucket;
  limit = pos 10;
  window_seconds = pos 60;
  api_key = [];
  loading = false;
  error = [];
  last_result = none;
  last_latency = 0;
  history = [];
  decision_counter = 0;
}

abbrev pub no_key : Text
no_key = codes "Enter an API key. Create one on the API Keys page."

abbrev pub no_identifier : Text
no_identifier = codes "Identifier is required."

abbrev pub request_of : ChecksPage → CheckRequest
request_of p = record {
  identifier = p.identifier;
  algorithm = p.algorithm;
  limit = p.limit;
  window_seconds = p.window_seconds;
}

-- `handleCheck` with the trimmed key and the trimmed identifier, up to the call. The identifier is
-- sent as it was typed.
unfoldable pub check_trimmed : Text → Text → ChecksPage → ChecksPage × Option Call
check_trimmed [] id p = (record p { error = no_key }, none)
check_trimmed (c ∷ key) [] p = (record p { error = no_identifier }, none)
check_trimmed (c ∷ key) (d ∷ id) p =
    (record p { error = []; loading = true }, some (Calls.execute_check (c ∷ key) (request_of p)))

unfoldable pub check_start : ChecksPage → ChecksPage × Option Call
unfolding check_trimmed
check_start p = check_trimmed (trim p.api_key) (trim p.identifier) p

abbrev pub check_failure : Thrown → Text
check_failure (api_error status code message) =
    if status == 401
    then codes "Invalid or revoked API key."
    else if status == 503
    then codes "Redis is unavailable. Is the backend stack running?"
    else message
check_failure (other_error message) =
    codes "Cannot reach the API. Check that the backend is running."

-- `handleCheck` from the answer on: `sent` is the request that its closure holds, and `latency` the
-- rounded time that the call took.
unfoldable pub check_done : CheckRequest → ℕ → Result CheckResult → ChecksPage → ChecksPage
check_done sent latency (ok result) p =
    let decision : Decision = record {
      id = p.decision_counter + 1;
      allowed = result.allowed;
      remaining = result.remaining;
      retry_after = result.retry_after;
      reset_at = result.reset_at;
      latency_ms = latency;
      identifier = sent.identifier;
      algorithm = sent.algorithm;
    } in
    record p {
      last_result = some decision;
      last_latency = latency;
      history = take 50 (decision ∷ p.history);
      decision_counter = p.decision_counter + 1;
      loading = false;
    }
check_done sent latency (throw e) p = record p { error = check_failure e; loading = false }

pub data Event : Type 0 where
  type_identifier : Text → Event
  pick_algorithm : Algorithm → Event
  type_limit : ℤ → Event
  type_window : ℤ → Event
  type_key : Text → Event
  click_check : Event
  checked : CheckRequest → ℕ → Result CheckResult → Event
  clear : Event

unfoldable pub step : Event → ChecksPage → ChecksPage
step (type_identifier v) p = record p { identifier = v }
step (pick_algorithm a) p = record p { algorithm = a }
step (type_limit n) p = record p { limit = n }
step (type_window n) p = record p { window_seconds = n }
step (type_key v) p = record p { api_key = v }
step click_check p = (check_start p).0
step (checked sent latency r) p = check_done sent latency r p
step clear p = record p { history = [] }

unfoldable pub run : List Event → ChecksPage → ChecksPage
run [] p = p
run (e ∷ es) p = run es (step e p)
