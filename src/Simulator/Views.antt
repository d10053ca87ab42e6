-- ===== src/Simulator/Views.antt =====
-- frontend-demo/lib/simulator.ts: `check` against what `peekTokens` and `peekWindow` show.
use shard_leak.Common.{
  ℕ, ◌+◌, ◌-◌, ◌*◌, ◌/◌, ◌<◌, ◌≡◌, true, false, Option, none, some, refl, ltb, leb, if◌then◌else◌,
  arith, Bool-cases, inl, inr, mul_mono,
}
use native.Mathlib.Nat.{div-mul-le_self}
use shard_leak.Common.Int.{pos, negsuc}
use shard_leak.Common.JsMap.{get}
use shard_leak.Common.Texts.{Text}
use shard_leak.Simulator.{
  Algorithm, token_bucket, fixed_window, CheckOptions, infinite, Simulator, TbState, FwState,
  token_unit, tb_key, fw_key, take_token, count_request, window_of, check_token_bucket,
  check_fixed_window, decide_request, peek_tokens, peek_window,
}
use shard_leak.Simulator.Schedule.{Request, serve, on_bucket, on_window}
use shard_leak.Simulator.Bucket
use shard_leak.Simulator.Bucket.{peek_tokens-available, take_token-spends, take_token-allowed}
use shard_leak.Simulator.Bucket.Rate.{stock-serve}
use shard_leak.Simulator.Window
use shard_leak.Simulator.Window.{used, peek_window-used, count_request-allowed, used-entry}

-- What the page shows of a bucket foretells the next check on it, and the check takes one token from
-- it: the call is allowed exactly if `peekTokens` shows a whole token at its time, and right after it
-- `peekTokens` shows a token less, or the same if the call was rejected.
pub peek_tokens-serve :
    (id : Text) (limit w : ℕ) (r : Request) (s : Simulator)
    → on_bucket id limit w r ≡ true
    → let allowed = (serve r s).1.decision.allowed in
      (allowed ≡ leb (token_unit w) (peek_tokens id limit w r.now_ms s))
      × (peek_tokens id limit w r.now_ms (serve r s).0 + (if allowed then token_unit w else 0)
          ≡ peek_tokens id limit w r.now_ms s)
peek_tokens-serve id limit w r s on =
    rw
      (
        peek_tokens-available id limit w r.now_ms s,
        peek_tokens-available id limit w r.now_ms (serve r s).0,
      )
      (Bucket.allowed-serve id limit w r s on, rw on at (stock-serve id limit w r s))

-- What the page shows of a window foretells the next check on it, if the limit is above 0: the call
-- is allowed exactly if `peekWindow` counts fewer than `limit` requests at its time, and right
-- after it `peekWindow` counts one more, or as many if the call was rejected.
pub peek_window-serve :
    (id : Text) (limit w : ℕ) (r : Request) (s : Simulator)
    → 0 < limit
    → on_window id limit w r ≡ true
    → let allowed = (serve r s).1.decision.allowed in
      (allowed ≡ ltb (peek_window id limit w r.now_ms s).count limit)
      × ((peek_window id limit w r.now_ms (serve r s).0).count
          ≡ (peek_window id limit w r.now_ms s).count + (if allowed then 1 else 0))
peek_window-serve id limit w r s room on =
    rw
      (
        peek_window-used id limit w r.now_ms s,
        peek_window-used id limit w r.now_ms (serve r s).0,
        Window.get-serve id limit w r s,
        on,
        Window.allowed-serve id limit w r s on,
      )
      (
        count_request-allowed limit w (r.now_ms / 1000) (get (fw_key id limit w) s.fw) room,
        used-entry limit w (r.now_ms / 1000) (get (fw_key id limit w) s.fw),
      )

-- A call that is not on this bucket, for its identifier, limit, window or algorithm, leaves what
-- `peekTokens` shows of it at any time as it was.
pub peek_tokens-serve_ne :
    (id : Text) (limit w : ℕ) (r : Request) (s : Simulator) (now : ℕ)
    → on_bucket id limit w r ≡ false
    → peek_tokens id limit w now (serve r s).0 ≡ peek_tokens id limit w now s
peek_tokens-serve_ne id limit w r s now off = rw (
  peek_tokens-available id limit w now s,
  peek_tokens-available id limit w now (serve r s).0,
  Bucket.get-serve id limit w r s,
  off,
)

-- A call that is not on this window, for its identifier, limit, window or algorithm, leaves what
-- `peekWindow` shows of it at any time, the count and the seconds left, as it was.
pub peek_window-serve_ne :
    (id : Text) (limit w : ℕ) (r : Request) (s : Simulator) (now : ℕ)
    → on_window id limit w r ≡ false
    → peek_window id limit w now (serve r s).0 ≡ peek_window id limit w now s
unfolding peek_window
peek_window-serve_ne id limit w r s now off = rw (Window.get-serve id limit w r s, off)

div-lt_of_lt-mul : {a b c : ℕ} → 0 < b → a < c * b → a / b < c
div-lt_of_lt-mul h k = grind (arith, div-mul-le_self)

bucket_remaining :
    (limit w now : ℕ) (found : Option TbState)
    → 0 < limit
    → 0 < w
    → (n : ℕ) × ((take_token limit w now found).1.remaining ≡ pos n) × (n < limit)
unfolding take_token
bucket_remaining limit w now found room time = (
  (take_token limit w now found).0.tokens / token_unit w,
  refl,
  div-lt_of_lt-mul (omega arith) (ground (arith, mul_mono 1 limit (token_unit w) room)),
)

window_remaining :
    (limit w now : ℕ) (found : Option FwState)
    → 0 < limit
    → (n : ℕ) × ((count_request limit w now found).1.remaining ≡ pos n) × (n < limit)
unfolding count_request
window_remaining limit w now none room = (limit - 1, ground arith, omega arith)
window_remaining limit w now (some state) room =
    elim (Bool-cases (ltb state.window_start (window_of w now))) [
      | inl old ↦ (limit - 1, ground arith, omega arith)
      | inr same ↦ elim (Bool-cases (ltb state.count limit)) [
        | inl below ↦ (limit - (state.count + 1), ground arith, omega arith)
        | inr full ↦ (0, ground arith, omega arith)
      ]
    ]

-- Whatever the state, `remaining` lies between 0 and `limit - 1`, if the limit and the window are
-- above 0.
pub remaining_bounds :
    (opts : CheckOptions) (now : ℕ) (s : Simulator)
    → 0 < opts.limit
    → 0 < opts.window_seconds
    → (n : ℕ) × ((decide_request opts now s).1.remaining ≡ pos n) × (n < opts.limit)
unfolding decide_request check_token_bucket check_fixed_window
remaining_bounds opts now s room time = bounds opts.algorithm
  where
    open opts use {identifier, limit, window_seconds}

    bounds :
        (a : Algorithm)
        → (n : ℕ) × ((decide_request (record opts { algorithm = a }) now s).1.remaining ≡ pos n)
          × (n < limit)
    bounds token_bucket =
        bucket_remaining limit window_seconds now
          (get (tb_key identifier limit window_seconds) s.tb) room time
    bounds fixed_window =
        window_remaining limit window_seconds (now / 1000)
          (get (fw_key identifier limit window_seconds) s.fw) room

bucket_zero :
    (w now : ℕ) (found : Option TbState)
    → 0 < w
    → ((take_token 0 w now found).1.allowed ≡ false)
      × ((take_token 0 w now found).1.retry_after ≡ some infinite)
unfolding take_token
bucket_zero w now found time = ground arith

-- At limit 0 the two algorithms part: a bucket rejects every request and names an infinite wait,
-- but a window admits a request with no entry in the map, and reports that -1 remain. The window is
-- above 0.
pub limit_zero :
    (id : Text) (w now : ℕ) (s : Simulator)
    → 0 < w
    → get (fw_key id 0 w) s.fw ≡ none
    → let bucket = (check_token_bucket id 0 w now s).1 in
      let window = (check_fixed_window id 0 w now s).1 in
      (bucket.allowed ≡ false)
      × (bucket.retry_after ≡ some infinite)
      × (window.allowed ≡ true)
      × (window.remaining ≡ negsuc 0)
unfolding check_token_bucket check_fixed_window count_request
limit_zero id w now s time idle =
    let zero = bucket_zero w now (get (tb_key id 0 w) s.tb) time in
    (zero.0, zero.1, ground arith, ground arith)
