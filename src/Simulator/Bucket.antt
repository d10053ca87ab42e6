-- ===== src/Simulator/Bucket.antt =====
-- frontend-demo/lib/simulator.ts, `tokenBucket` and `peekTokens`: what one check reads and writes.
pub mod Rate
pub mod Timing
use shard_leak.Common.{
  ℕ, ◌+◌, ◌-◌, ◌*◌, ◌≤◌, ◌≡◌, Bool, true, false, Option, none, some, refl, leb, if◌then◌else◌,
  arith, ◌&&◌, Bool-cases, inl, inr,
}
use shard_leak.Common.JsMap.{get, set, get-set}
use shard_leak.Common.Texts.{Text, text_eq, text_eq_iff}
use shard_leak.Simulator.{
  TbState, Simulator, Decision, token_unit, refill, take_token, available, tb_key,
  check_token_bucket, peek_tokens, check, decide_request, check_fixed_window,
}
use shard_leak.Simulator.Schedule.{Request, serve, on_bucket}
use shard_leak.Simulator.Keys.{same_triple, text_eq-tb_key}

-- `peekTokens` is that reading.
pub peek_tokens-available :
    (id : Text) (limit w now : ℕ) (s : Simulator)
    → peek_tokens id limit w now s ≡ available limit w (get (tb_key id limit w) s.tb) now
unfolding peek_tokens
peek_tokens-available id limit w now s = refl

module _ (limit w now : ℕ) (found : Option TbState) where
  pub take_token-allowed :
      (take_token limit w now found).1.allowed ≡ leb (token_unit w) (available limit w found now)
  unfolding take_token
  take_token-allowed = ground arith

  pub take_token-spends :
      available limit w found now
      ≡ (take_token limit w now found).0.tokens
        + (if (take_token limit w now found).1.allowed then token_unit w else 0)
  unfolding take_token
  take_token-spends = ground arith

  pub take_token-capped : (take_token limit w now found).0.tokens ≤ limit * token_unit w
  unfolding take_token
  take_token-capped = ground arith

  pub take_token-last_ms : (take_token limit w now found).0.last_ms ≡ now
  unfolding take_token
  take_token-last_ms = refl

-- What the map holds after a token-bucket check, at every key of a token bucket.
pub get-check_token_bucket :
    (id : Text) (limit w now : ℕ) (s : Simulator) (id' : Text) (limit' w' : ℕ)
    → get (tb_key id' limit' w') (check_token_bucket id limit w now s).0.tb ≡ (
        if same_triple id limit w id' limit' w'
        then some (take_token limit w now (get (tb_key id limit w) s.tb)).0
        else get (tb_key id' limit' w') s.tb)
unfolding check_token_bucket
get-check_token_bucket id limit w now s id' limit' w' = rw (get-set, text_eq-tb_key)

module _ (id : Text) (limit w : ℕ) (r : Request) (s : Simulator) where
  -- What a call leaves in a token bucket: its own is stepped, every other is as it was.
  pub get-serve : get (tb_key id limit w) (serve r s).0.tb ≡ (
      if on_bucket id limit w r
      then some (take_token limit w r.now_ms (get (tb_key id limit w) s.tb)).0
      else get (tb_key id limit w) s.tb)
  unfolding check check_fixed_window
  get-serve = ground (
    arith,
    text_eq_iff r.opts.identifier id,
    get-check_token_bucket r.opts.identifier r.opts.limit r.opts.window_seconds r.now_ms s id limit
        w,
  )

  pub allowed-serve :
      on_bucket id limit w r ≡ true
      → (serve r s).1.decision.allowed
        ≡ leb (token_unit w) (available limit w (get (tb_key id limit w) s.tb) r.now_ms)
  unfolding check check_token_bucket
  allowed-serve h = ground (
    arith,
    text_eq_iff r.opts.identifier id,
    take_token-allowed limit w r.now_ms (get (tb_key id limit w) s.tb),
  )
