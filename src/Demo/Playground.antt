-- ===== src/Demo/Playground.antt =====
-- frontend-demo/app/dashboard/playground/page.tsx: the state of `PlaygroundPage`, with the module's
-- `sim` and `_logId`, and its handlers.
--
-- A handler that awaits is a step up to the wait, and a step for each time that it is woken. What a
-- handler's closure holds is passed to it: a burst keeps the configuration of the click that began it.
-- The number inputs give integers. The interval that polls the simulator is an event.
pub mod Invariant
pub mod Burst
pub mod View
use shard_leak.Common.{
  ℕ, ◌+◌, ◌-◌, ◌*◌, min, max, Bool, true, false, not, ◌&&◌, Option, none, some, List, [], ◌∷◌, ltb,
  leb, ◌==◌, if◌then◌else◌, take, keep_if, length,
}
use shard_leak.Common.Int.{ℤ, pos, negsuc}
use shard_leak.Common.Texts.{Text, codes}
use shard_leak.Simulator.{
  Algorithm, token_bucket, CheckOptions, CheckResult, Simulator, new_simulator, check, peek_tokens,
  WindowView, peek_window, reset, token_unit,
}

pub record LogEntry : Type 0 where
  pub id : ℕ
  pub allowed : Bool
  pub remaining : ℤ
  pub latency : ℕ
  pub ts : Text

-- The rounds that a burst in flight has made, and the configuration that its closure holds.
pub record BurstLoop : Type 0 where
  pub opts : CheckOptions
  pub i : ℕ

pub record Playground : Type 0 where
  pub identifier : Text
  pub algorithm : Algorithm
  pub limit : ℕ
  pub window_seconds : ℕ
  pub result : Option CheckResult
  pub log : List LogEntry
  pub tokens : ℕ
  pub window_state : WindowView
  pub bursting : Bool
  pub burst_ref : Bool
  pub loop : Option BurstLoop
  pub sim : Simulator
  pub log_id : ℕ

-- What a call of `check` and the log line read from outside: the clocks, `Math.random()`, and
-- `new Date().toISOString()`.
pub record Moment : Type 0 where
  pub now_ms : ℕ
  pub spent : ℕ
  pub random : ℕ
  pub iso : Text

abbrev pub default_identifier : Text
default_identifier = codes "demo-user:1"

unfoldable pub initial : Playground
initial = record {
  identifier = default_identifier;
  algorithm = token_bucket;
  limit = 10;
  window_seconds = 30;
  result = none;
  log = [];
  tokens = 10 * token_unit 30;
  window_state = record { count = 0; seconds_left = 30 };
  bursting = false;
  burst_ref = false;
  loop = none;
  sim = new_simulator;
  log_id = 1;
}

-- The piece of a text before its first `T`, and the one after it.
unfoldable pub before_t : Text → Text
before_t [] = []
before_t (c ∷ s) = if c == b'T' then [] else c ∷ before_t s

unfoldable pub after_t : Text → Text
after_t [] = []
after_t (c ∷ s) = if c == b'T' then s else after_t s

-- `iso.split('T')[1].slice(0, 12)`, of a text that holds a `T`.
unfoldable pub log_time : Text → Text
unfolding before_t after_t
log_time iso = take 12 (before_t (after_t iso))

-- `setTokens(sim.peekTokens(…)); setWindowState(sim.peekWindow(…))`: the interval's call, and the
-- effect that runs when the identifier, the limit or the window has changed.
unfoldable pub poll : ℕ → Playground → Playground
poll now p = record p {
  tokens = peek_tokens p.identifier p.limit p.window_seconds now p.sim;
  window_state = peek_window p.identifier p.limit p.window_seconds now p.sim;
}

-- `Math.max(lo, Math.min(hi, n))` with `lo` and `hi` natural.
abbrev pub clamp : ℕ → ℕ → ℤ → ℕ
clamp lo hi (pos n) = max lo (min hi n)
clamp lo hi (negsuc n) = lo

-- `e.target.value || 'demo-user:1'`
abbrev pub identifier_or_default : Text → Text
identifier_or_default [] = default_identifier
identifier_or_default (c ∷ s) = c ∷ s

abbrev pub options_of : Playground → CheckOptions
options_of p = record {
  identifier = p.identifier;
  algorithm = p.algorithm;
  limit = p.limit;
  window_seconds = p.window_seconds;
}

-- `fireRequest`, of the render whose configuration is `opts`.
unfoldable pub fire_request : CheckOptions → Moment → Playground → Playground
fire_request opts m p =
    let (sim', r) = check opts m.now_ms m.spent m.random p.sim in
    let entry : LogEntry = record {
      id = p.log_id;
      allowed = r.decision.allowed;
      remaining = r.decision.remaining;
      latency = r.latency;
      ts = log_time m.iso;
    } in
    record p { sim = sim'; result = some r; log = take 50 (entry ∷ p.log); log_id = p.log_id + 1 }

unfoldable pub handle_reset : Playground → Playground
handle_reset p = record p { sim = reset p.identifier p.sim; result = none; log = [] }

-- The head of the loop of `handleBurst`, and what follows the loop.
unfoldable pub burst_round : BurstLoop → Moment → Playground → Playground
burst_round b m p =
    if ltb b.i 20 && p.burst_ref
    then record (fire_request b.opts m p) { loop = some (record b { i = b.i + 1 }) }
    else record p { bursting = false; burst_ref = false; loop = none }

-- `handleBurst` up to its first wait.
unfoldable pub handle_burst : Moment → Playground → Playground
handle_burst m p =
    if p.bursting
    then p
    else burst_round (record { opts = options_of p; i = 0 }) m
        (record p { bursting = true; burst_ref = true })

-- The timer of a burst ends its wait.
unfoldable pub resume : Option BurstLoop → Moment → Playground → Playground
resume none m p = p
resume (some b) m p = burst_round b m p

unfoldable pub burst_wake : Moment → Playground → Playground
unfolding resume
burst_wake m p = resume p.loop m p

pub data Event : Type 0 where
  type_identifier : Text → ℕ → Event
  pick_algorithm : Algorithm → Event
  type_limit : ℤ → ℕ → Event
  type_window : ℤ → ℕ → Event
  interval : ℕ → Event
  click_check : Moment → Event
  click_burst : Moment → Event
  wake : Moment → Event
  click_reset : Event

-- The effect on a changed configuration polls at the time that the event carries.
unfoldable pub step : Event → Playground → Playground
step (type_identifier v now) p = poll now (record p { identifier = identifier_or_default v })
step (pick_algorithm a) p = record p { algorithm = a }
step (type_limit n now) p = poll now (record p { limit = clamp 1 200 n })
step (type_window n now) p = poll now (record p { window_seconds = clamp 5 300 n })
step (interval now) p = poll now p
step (click_check m) p = fire_request (options_of p) m p
step (click_burst m) p = handle_burst m p
step (wake m) p = burst_wake m p
step click_reset p = handle_reset p

unfoldable pub run : List Event → Playground → Playground
run [] p = p
run (e ∷ es) p = run es (step e p)

-- `log.filter((e) => e.allowed).length`, and of those not allowed.
unfoldable pub allowed_count : Playground → ℕ
allowed_count p = length (keep_if (λ (e : LogEntry). e.allowed) p.log)

unfoldable pub rejected_count : Playground → ℕ
rejected_count p = length (keep_if (λ (e : LogEntry). not e.allowed) p.log)
