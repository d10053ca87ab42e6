-- ===== src/Client/Checks/View.antt =====
-- frontend/app/dashboard/playground/page.tsx: what `PlaygroundPage` shows, styles and fixed texts left
-- out.
use shard_leak.Common.{ℕ, Bool, false, not, Option, none, some, List, map, if◌then◌else◌, ◌==◌}
use shard_leak.Common.Int.{ℤ, pos, negsuc}
use shard_leak.Common.Texts.{Text, codes}
use shard_leak.Client.Api.{Algorithm}
use shard_leak.Client.Keys.View.{shown}
use shard_leak.Client.Checks.{Decision, ChecksPage}

abbrev pub is_zero : ℤ → Bool
is_zero (pos n) = n == 0
is_zero (negsuc n) = false

-- The third value: the wait in seconds, or the local time of an instant.
pub data ThirdValue : Type 0 where
  seconds : ℕ → ThirdValue
  local_time : Text → ThirdValue

-- `ResultDisplay`
pub record ResultView : Type 0 where
  pub allowed_heading : Bool
  pub remaining : ℤ
  pub red_remaining : Bool
  pub latency : ℕ
  pub third_label : Text
  pub third_value : ThirdValue

unfoldable pub result_view : Decision → ℕ → ResultView
result_view d latency = record {
  allowed_heading = d.allowed;
  remaining = d.remaining;
  red_remaining = is_zero d.remaining;
  latency = latency;
  third_label = if d.allowed then codes "Reset at" else codes "Retry after";
  third_value = elim d.retry_after [ none ↦ local_time d.reset_at | some n ↦ seconds n ];
}

pub record LogLine : Type 0 where
  pub id : ℕ
  pub label : Text
  pub remaining : ℤ
  pub latency_ms : ℕ

unfoldable pub log_line : Decision → LogLine
log_line d = record {
  id = d.id;
  label = if d.allowed then codes "ALLOWED" else codes "REJECTED";
  remaining = d.remaining;
  latency_ms = d.latency_ms;
}

pub record ChecksView : Type 0 where
  pub error : Option Text
  pub identifier : Text
  pub algorithm : Algorithm
  pub limit : ℤ
  pub window_seconds : ℤ
  pub api_key : Text
  pub enabled : Bool
  pub result : Option ResultView
  pub log : List LogLine

-- With an empty log the part that shows it is left out.
unfoldable pub view : ChecksPage → ChecksView
unfolding result_view log_line
view p = record {
  error = shown p.error;
  identifier = p.identifier;
  algorithm = p.algorithm;
  limit = p.limit;
  window_seconds = p.window_seconds;
  api_key = p.api_key;
  enabled = not p.loading;
  result = elim p.last_result [ none ↦ none | some d ↦ some (result_view d p.last_latency) ];
  log = map log_line p.history;
}
