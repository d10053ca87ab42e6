-- ===== src/Simulator.antt =====
-- frontend-demo/lib/simulator.ts: the class `Simulator`, its two maps, and its methods.
--
-- Token counts are exact: `tokens` is a number of parts, and `token_unit` parts are one token. The
-- unit is 1 / (1000 * windowSeconds) of a token, so the refill rate of `limit / windowSeconds / 1000`
-- tokens per millisecond is `limit` parts per millisecond. The source computes the same values in
-- floating point; its rounding is not modelled. `limit` and `windowSeconds` are natural numbers,
-- with `windowSeconds` above 0. `Date.now()` is an argument.
mod Keys
pub mod Schedule
pub mod Bucket
pub mod Window
pub mod Views
pub mod Reset
use shard_leak.Common.{
  ℕ, ◌+◌, ◌-◌, ◌*◌, ◌/◌, min, Bool, true, false, ◌&&◌, Option, none, some, List, [], ◌∷◌, ◌++◌, ltb,
  leb, ◌==◌, if◌then◌else◌, get_or, ceil_div,
}
use shard_leak.Common.Int.{ℤ, pos, sub_ℕ}
use shard_leak.Common.JsMap.{get, set, delete_each}
use shard_leak.Common.Texts.{Text, codes, decimal, starts_with}

pub data Algorithm : Type 0 where
  token_bucket fixed_window : Algorithm

-- The argument of `check`.
pub record CheckOptions : Type 0 where
  pub identifier : Text
  pub algorithm : Algorithm
  pub limit : ℕ
  pub window_seconds : ℕ

-- A number of seconds that a division by a zero rate may make infinite.
pub data Seconds : Type 0 where
  finite : ℕ → Seconds
  infinite : Seconds

-- `Omit<CheckResult, 'latencyMs'>`
pub record Decision : Type 0 where
  pub allowed : Bool
  pub remaining : ℤ
  pub reset_at : ℕ
  pub retry_after : Option Seconds

-- The latency is in tenths of a millisecond, as the source rounds it.
pub record CheckResult : Type 0 where
  pub decision : Decision
  pub latency : ℕ

pub record TbState : Type 0 where
  pub tokens : ℕ
  pub last_ms : ℕ

pub record FwState : Type 0 where
  pub count : ℕ
  pub window_start : ℕ

pub record Simulator : Type 0 where
  pub tb : List (Text × TbState)
  pub fw : List (Text × FwState)

unfoldable pub new_simulator : Simulator
new_simulator = record { tb = []; fw = [] }

-- `:${limit}:${win}`
abbrev key_suffix : ℕ → ℕ → Text
key_suffix limit win = (b':' ∷ decimal limit) ++ (b':' ∷ decimal win)

unfoldable pub tb_key : Text → ℕ → ℕ → Text
tb_key id limit win = codes "tb:" ++ (id ++ key_suffix limit win)

unfoldable pub fw_key : Text → ℕ → ℕ → Text
fw_key id limit win = codes "fw:" ++ (id ++ key_suffix limit win)

-- One token, in parts.
abbrev pub token_unit : ℕ → ℕ
token_unit window_seconds = 1000 * window_seconds

-- `Math.min(limit, state.tokens + elapsed * ratePerMs)`
abbrev pub refill : ℕ → ℕ → TbState → ℕ → ℕ
refill limit window_seconds state now_ms =
    min (limit * token_unit window_seconds) (state.tokens + (now_ms - state.last_ms) * limit)

-- `tokenBucket` between its read of the map and the end: the state it writes, and its result.
unfoldable pub take_token : ℕ → ℕ → ℕ → Option TbState → TbState × Decision
take_token limit window_seconds now_ms found =
    let state : TbState =
      get_or found (record { tokens = limit * token_unit window_seconds; last_ms = now_ms }) in
    let tokens = refill limit window_seconds state now_ms in
    let allowed = leb (token_unit window_seconds) tokens in
    let new_tokens = if allowed then tokens - token_unit window_seconds else tokens in
    let secs_to_full =
      if ltb 0 limit && ltb new_tokens (limit * token_unit window_seconds)
      then ceil_div (limit * token_unit window_seconds - new_tokens) (1000 * limit)
      else 0 in
    let wait =
      if limit == 0
      then infinite
      else finite (ceil_div (token_unit window_seconds - new_tokens) (1000 * limit)) in
    (
      record { tokens = new_tokens; last_ms = now_ms },
      record {
        allowed = allowed;
        remaining = pos (new_tokens / token_unit window_seconds);
        reset_at = now_ms / 1000 + secs_to_full;
        retry_after = if allowed then none else some wait;
      },
    )

unfoldable pub check_token_bucket : Text → ℕ → ℕ → ℕ → Simulator → Simulator × Decision
check_token_bucket identifier limit window_seconds now_ms s =
    let key = tb_key identifier limit window_seconds in
    let (state, decision) = take_token limit window_seconds now_ms (get key s.tb) in
    (record s { tb = set key state s.tb }, decision)

-- `Math.floor(nowSecs / windowSeconds) * windowSeconds`
abbrev pub window_of : ℕ → ℕ → ℕ
window_of window_seconds now_secs = now_secs / window_seconds * window_seconds

-- `fixedWindow` after its read of the map: the state it writes, if it writes one, and its result.
unfoldable pub count_request : ℕ → ℕ → ℕ → Option FwState → Option FwState × Decision
count_request limit window_seconds now_secs found =
    let start = window_of window_seconds now_secs in
    let reset_at = start + window_seconds in
    let admit = λ (count : ℕ) (from : ℕ).
      let r : Option FwState × Decision = (
        some (record { count = count; window_start = from }),
        record {
          allowed = true;
          remaining = sub_ℕ limit count;
          reset_at = reset_at;
          retry_after = none;
        },
      ) in
      r in
    elim found [
      | none ↦ admit 1 start
      | some state ↦
          if ltb state.window_start start
          then admit 1 start
          else if ltb state.count limit
          then admit (state.count + 1) state.window_start
          else (
            none,
            record {
              allowed = false;
              remaining = pos 0;
              reset_at = reset_at;
              retry_after = some (finite (reset_at - now_secs));
            },
          )
    ]

abbrev write_back : Text → Option FwState → List (Text × FwState) → List (Text × FwState)
write_back key none m = m
write_back key (some state) m = set key state m

unfoldable pub check_fixed_window : Text → ℕ → ℕ → ℕ → Simulator → Simulator × Decision
check_fixed_window identifier limit window_seconds now_ms s =
    let key = fw_key identifier limit window_seconds in
    let (written, decision) = count_request limit window_seconds (now_ms / 1000) (get key s.fw) in
    (record s { fw = write_back key written s.fw }, decision)

-- The decision of `check`, by the algorithm.
unfoldable pub decide_request : CheckOptions → ℕ → Simulator → Simulator × Decision
decide_request opts now_ms s = elim opts.algorithm [
  | token_bucket ↦ check_token_bucket opts.identifier opts.limit opts.window_seconds now_ms s
  | fixed_window ↦ check_fixed_window opts.identifier opts.limit opts.window_seconds now_ms s
]

-- The reported latency, in tenths of a millisecond. `spent` is the time between the two readings of
-- `performance.now()` in units of 0.1 ns, and `random` is `Math.random()` in millionths: the
-- overhead of 0.2 + random * 0.9 ms is 2000000 + 9 * random units.
unfoldable pub latency_tenths : ℕ → ℕ → ℕ
latency_tenths spent random = (spent + 2000000 + 9 * random + 500000) / 1000000

unfoldable pub check : CheckOptions → ℕ → ℕ → ℕ → Simulator → Simulator × CheckResult
unfolding decide_request latency_tenths
check opts now_ms spent random s =
    let (s', decision) = decide_request opts now_ms s in
    (s', record { decision = decision; latency = latency_tenths spent random })

-- The tokens at hand when an entry is read, in parts; with no entry, all of them.
abbrev pub available : ℕ → ℕ → Option TbState → ℕ → ℕ
available limit window_seconds none now_ms = limit * token_unit window_seconds
available limit window_seconds (some state) now_ms = refill limit window_seconds state now_ms

unfoldable pub peek_tokens : Text → ℕ → ℕ → ℕ → Simulator → ℕ
peek_tokens identifier limit window_seconds now_ms s =
    available limit window_seconds (get (tb_key identifier limit window_seconds) s.tb) now_ms

pub record WindowView : Type 0 where
  pub count : ℕ
  pub seconds_left : ℕ

-- What is shown of an entry. The subtractions never go below 0: the window that holds `nowSecs` ends
-- after it.
abbrev pub view_of : ℕ → ℕ → Option FwState → WindowView
view_of window_seconds now_secs none = record {
  count = 0;
  seconds_left = window_of window_seconds now_secs + window_seconds - now_secs;
}
view_of window_seconds now_secs (some state) =
    if ltb state.window_start (window_of window_seconds now_secs)
    then record {
      count = 0;
      seconds_left = window_of window_seconds now_secs + window_seconds - now_secs;
    }
    else record {
      count = state.count;
      seconds_left = state.window_start + window_seconds - now_secs;
    }

unfoldable pub peek_window : Text → ℕ → ℕ → ℕ → Simulator → WindowView
peek_window identifier limit window_seconds now_ms s =
    view_of window_seconds (now_ms / 1000) (get (fw_key identifier limit window_seconds) s.fw)

unfoldable pub reset : Text → Simulator → Simulator
reset identifier s = record {
  tb = delete_each (starts_with (codes "tb:" ++ (identifier ++ codes ":"))) s.tb s.tb;
  fw = delete_each (starts_with (codes "fw:" ++ (identifier ++ codes ":"))) s.fw s.fw;
}
