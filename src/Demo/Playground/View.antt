-- ===== src/Demo/Playground/View.antt =====
-- frontend-demo/app/dashboard/playground/page.tsx: what `PlaygroundPage` shows, styles and fixed texts
-- left out.
use shard_leak.Common.{
  ℕ, ◌+◌, ◌≤◌, ◌<◌, ◌≡◌, Bool, not, Option, none, some, List, [], ◌∷◌, map, length, if◌then◌else◌,
  is_some, ◌==◌, refl, ap, arith,
}
use shard_leak.Common.Int.{ℤ}
use shard_leak.Common.Texts.{Text, codes}
use shard_leak.Simulator.{
  token_bucket, fixed_window, CheckResult, token_unit, Seconds, finite, infinite,
}
use shard_leak.Demo.Meters.{page_grid, window_bar, Bar}
use shard_leak.Demo.Playground.{
  LogEntry, Playground, allowed_count, rejected_count, Event, run, initial,
}
use shard_leak.Demo.Playground.Burst.{allowed_count-add-rejected_count}
use shard_leak.Demo.Playground.Invariant.{run-Inv}

-- The panel of the last decision: the fourth cell is the wait, or `OK`. A wait of 0 counts as none.
pub record ResultPanel : Type 0 where
  pub allowed : Bool
  pub remaining : ℤ
  pub latency : ℕ
  pub reset_at : ℕ
  pub fourth_label : Text
  pub retry_after : Option Seconds

abbrev pub truthy_seconds : Option Seconds → Option Seconds
truthy_seconds none = none
truthy_seconds (some infinite) = some infinite
truthy_seconds (some (finite n)) = if n == 0 then none else some (finite n)

unfoldable pub result_panel : CheckResult → ResultPanel
result_panel r =
    let wait = truthy_seconds r.decision.retry_after in
    record {
      allowed = r.decision.allowed;
      remaining = r.decision.remaining;
      latency = r.latency;
      reset_at = r.decision.reset_at;
      fourth_label = if is_some wait then codes "RETRY IN" else codes "STATUS";
      retry_after = wait;
    }

-- The count of the log, of the requests admitted, and of those rejected.
pub record Stats : Type 0 where
  pub total : ℕ
  pub admitted : ℕ
  pub rejected : ℕ

-- The stats are shown with the first request.
unfoldable pub stats_of : Playground → List LogEntry → Option Stats
stats_of p [] = none
stats_of p (e ∷ es) =
    some
      (record { total = length (e ∷ es); admitted = allowed_count p; rejected = rejected_count p })

unfoldable pub stats_view : Playground → Option Stats
stats_view p = stats_of p p.log

-- The state of the algorithm that is chosen: the token count, in parts, with its grid; or the window.
pub data StateView : Type 0 where
  bucket_state : ℕ → List Bool → StateView
  window_state : Bar → StateView

unfoldable pub state_view : Playground → StateView
state_view p = elim p.algorithm [
  | token_bucket ↦ bucket_state p.tokens (page_grid (token_unit p.window_seconds) p.tokens p.limit)
  | fixed_window ↦
      window_state
        (window_bar p.window_state.count p.limit p.window_state.seconds_left p.window_seconds)
]

pub record LogRow : Type 0 where
  pub label : Text
  pub remaining : ℤ
  pub latency : ℕ
  pub ts : Text

unfoldable pub log_row : LogEntry → LogRow
log_row e = record {
  label = if e.allowed then codes "ALLOW" else codes "REJECT";
  remaining = e.remaining;
  latency = e.latency;
  ts = e.ts;
}

pub record PlaygroundView : Type 0 where
  pub result : Option ResultPanel
  pub stats : Option Stats
  pub state : StateView
  pub log : List LogRow
  pub burst_enabled : Bool

unfoldable pub view : Playground → PlaygroundView
view p = record {
  result = elim p.result [ none ↦ none | some r ↦ some (result_panel r) ];
  stats = stats_view p;
  state = state_view p;
  log = map log_row p.log;
  burst_enabled = not p.bursting;
}

stats_of-counts :
    (p : Playground) (log : List LogEntry) {st : Stats}
    → p.log ≡ log
    → stats_of p log ≡ some st
    → (st.total ≡ st.admitted + st.rejected) × (0 < st.total) × (st.total ≡ length p.log)
unfolding stats_of
stats_of-counts p [] e h = cc
stats_of-counts p (x ∷ xs) {st} e h =
    let total : st.total ≡ length (x ∷ xs) = cc in
    let admitted : st.admitted ≡ allowed_count p = cc in
    let rejected : st.rejected ≡ rejected_count p = cc in
    let lines : length p.log ≡ length (x ∷ xs) = ap length e in
    let sum = allowed_count-add-rejected_count p in
    (
      omega (arith, total, admitted, rejected, lines, sum),
      omega (arith, total),
      omega (arith, total, lines),
    )

-- The numbers under the log agree after any events: if the page shows them, the total is that of the
-- lines of the log, between one and fifty, and is the sum of the admitted and the rejected.
pub stats_view-run :
    (es : List Event) {st : Stats}
    → stats_view (run es initial) ≡ some st
    → (st.total ≡ st.admitted + st.rejected)
      × (0 < st.total)
      × (st.total ≤ 50)
      × (st.total ≡ length (run es initial).log)
unfolding stats_view
stats_view-run es h =
    let (sum, some_line, total) = stats_of-counts (run es initial) (run es initial).log refl h in
    (sum, some_line, omega (arith, total, (run-Inv es).shown.capped), total)
