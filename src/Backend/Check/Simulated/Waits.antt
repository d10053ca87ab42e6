-- ===== src/Backend/Check/Simulated/Waits.antt =====
-- A request that is turned away is told to wait, for at least a second.
use shard_leak.Common.{
  ℕ, ◌-◌, ◌*◌, ◌/◌, ◌<◌, ◌≡◌, Option, some, leb, arith, inl, inr, Bool-cases, ceil_div-pos,
}
use shard_leak.Backend.RateLimit.Step.{spent, take_token-spent}
use shard_leak.Backend.RateLimit.Agreement.{result_of, Policy, Call, simulated}
use shard_leak.Backend.Check.{retry_of, response_to}
use shard_leak.Backend.Check.Simulated.{told, response_of}
use shard_leak.Simulator.{
  Simulator, Decision, TbState, FwState, take_token, count_request, token_unit, token_bucket,
  fixed_window, check, check_token_bucket, check_fixed_window, tb_key, fw_key,
}
use shard_leak.Simulator.Schedule.{serve}
use shard_leak.Common.JsMap.{get}
use shard_leak.Common.Texts.{Text}
use native.Mathlib.Nat.{lt-div-mul-add}

-- So the handler's `retry_after` is the decision's.
abbrev pub Told : ℕ → Decision → Type 0
Told limit d = retry_of (result_of limit d) ≡ told d.retry_after

pub response_to-Told :
    (limit : ℕ) (d : Decision)
    → Told limit d
    → response_to limit (some (result_of limit d)) ≡ response_of limit (some d)
unfolding response_to response_of
response_to-Told limit d h = rw h

module _ (limit w now : ℕ) (hl : 0 < limit) (hw : 0 < w) where
  spent-Told : (p : ℕ) → Told limit (spent limit w now hl hw p).1
  spent-Told p = elim (Bool-cases (leb (token_unit w) p)) [
    | inl enough ↦ rw enough
    | inr short ↦
        let gap : 0 < token_unit w - p = ground arith in
        rw short (ground (arith, ceil_div-pos (token_unit w - p) (1000 * limit) gap (omega arith)))
  ]

  pub take_token-Told : (found : Option TbState) → Told limit (take_token limit w now found).1
  take_token-Told found = rw (take_token-spent limit w now hl hw found) (spent-Told _)

  pub count_request-Told :
      (secs : ℕ) (found : Option FwState) → Told limit (count_request limit w secs found).1
  unfolding count_request
  count_request-Told secs found = ground (arith, lt-div-mul-add {a = secs} {b = w} hw)

pub Told-serve :
    (c : Call) (policy : Text → Policy) (s : Simulator)
    → 0 < (policy c.identifier).limit
    → 0 < (policy c.identifier).window_seconds
    → Told (policy c.identifier).limit (serve (simulated policy c) s).1.decision
unfolding check check_token_bucket check_fixed_window
Told-serve c policy s hl hw =
    let limit = (policy c.identifier).limit in
    let w = (policy c.identifier).window_seconds in
    elim c.algorithm
      as (λ a. Told limit (serve (simulated policy (record c { algorithm = a })) s).1.decision) [
        | token_bucket ↦
            take_token-Told limit w c.now_ms hl hw (get (tb_key c.identifier limit w) s.tb)
        | fixed_window ↦
            count_request-Told limit w c.now_ms hl hw (c.now_ms / 1000)
              (get (fw_key c.identifier limit w) s.fw)
      ]
