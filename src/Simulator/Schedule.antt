-- ===== src/Simulator/Schedule.antt =====
-- frontend-demo/lib/simulator.ts: sequences of calls of `check`, each at its own clock reading.
use shard_leak.Common.{
  ℕ, ◌+◌, ◌≤◌, Bool, false, ◌/◌, ◌==◌, ◌&&◌, List, [], ◌∷◌, if◌then◌else◌, arith,
}
use shard_leak.Common.Texts.{Text}
use shard_leak.Simulator.{
  token_bucket, fixed_window, CheckOptions, CheckResult, Simulator, window_of, check,
}
use shard_leak.Simulator.Keys.{same_triple}

-- A call of `check`, with the readings of the clocks and of `Math.random()` that it makes.
pub record Request : Type 0 where
  pub opts : CheckOptions
  pub now_ms : ℕ
  pub spent : ℕ
  pub random : ℕ

abbrev pub serve : Request → Simulator → Simulator × CheckResult
serve r s = check r.opts r.now_ms r.spent r.random s

-- The number of calls that pass the test and are allowed.
unfoldable pub admitted : (Request → Bool) → List Request → Simulator → ℕ
admitted test [] s = 0
admitted test (r ∷ rs) s =
    (if test r && (serve r s).1.decision.allowed then 1 else 0) + admitted test rs (serve r s).0

-- The state after all calls.
unfoldable pub after : List Request → Simulator → Simulator
after [] s = s
after (r ∷ rs) s = after rs (serve r s).0

-- The clock readings never fall, and lie between two times.
abbrev pub Timed : ℕ → List Request → ℕ → Type 0
Timed from [] to = from ≤ to
Timed from (r ∷ rs) to = (from ≤ r.now_ms) × Timed r.now_ms rs to

-- The call reads and writes the token bucket of this triple.
abbrev pub on_bucket : Text → ℕ → ℕ → Request → Bool
on_bucket id limit w r = elim r.opts.algorithm [
  | token_bucket ↦ same_triple r.opts.identifier r.opts.limit r.opts.window_seconds id limit w
  | fixed_window ↦ false
]

-- The call reads and writes the fixed window of this triple.
abbrev pub on_window : Text → ℕ → ℕ → Request → Bool
on_window id limit w r = elim r.opts.algorithm [
  | token_bucket ↦ false
  | fixed_window ↦ same_triple r.opts.identifier r.opts.limit r.opts.window_seconds id limit w
]

pub Timed-le : (from to : ℕ) (rs : List Request) → Timed from rs to → from ≤ to
Timed-le from to [] h = h
Timed-le from to (r ∷ rs) h = omega (arith, Timed-le r.now_ms to rs h.1)

-- The number of calls that pass the test, allowed or not.
unfoldable pub asked : (Request → Bool) → List Request → ℕ
asked test [] = 0
asked test (r ∷ rs) = (if test r then 1 else 0) + asked test rs

-- The call is on this fixed window, in the window of time that starts at `start`.
abbrev pub in_window : Text → ℕ → ℕ → ℕ → Request → Bool
in_window id limit w start r = on_window id limit w r && window_of w (r.now_ms / 1000) == start
