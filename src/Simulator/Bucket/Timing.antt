-- ===== src/Simulator/Bucket/Timing.antt =====
-- frontend-demo/lib/simulator.ts, `tokenBucket`: the times that a result promises, `retryAfter` and
-- `resetAt`.
use shard_leak.Common.{
  ℕ, ◌+◌, ◌-◌, ◌*◌, ◌/◌, ◌≤◌, ◌<◌, true, false, Option, some, ◌≡◌, leb, arith, ceil_div,
  le-ceil_div-mul, ceil_div-mul-lt, ceil_div-pos, ceil_div_zero, mul_mono,
}
use shard_leak.Common.JsMap.{get}
use shard_leak.Common.Texts.{Text, text_eq_refl}
use shard_leak.Simulator.{
  TbState, Simulator, finite, token_unit, available, take_token, tb_key, peek_tokens,
  check_token_bucket, refill,
}
use shard_leak.Simulator.Bucket.{
  take_token-spends, take_token-last_ms, get-check_token_bucket, peek_tokens-available,
  take_token-allowed,
}

-- `n` seconds of refill fill a gap of `a` parts; a second less does not.
gap_filled :
    (a limit now t : ℕ)
    → 0 < limit
    → now + 1000 * ceil_div a (1000 * limit) ≤ t
    → a ≤ (t - now) * limit
gap_filled a limit now t h late = omega (
  arith,
  le-ceil_div-mul a (1000 * limit) (omega arith),
  mul_mono (1000 * ceil_div a (1000 * limit)) (t - now) limit (omega arith),
)

gap_open :
    (a limit now t : ℕ)
    → 0 < limit
    → 0 < a
    → t + 1000 ≤ now + 1000 * ceil_div a (1000 * limit)
    → (t - now) * limit < a
gap_open a limit now t h p early = omega (
  arith,
  ceil_div-mul-lt a (1000 * limit) (omega arith),
  mul_mono (t - now + 1000) (1000 * ceil_div a (1000 * limit)) limit
      (omega (arith, ceil_div-pos a (1000 * limit) p (omega arith))),
)

module _ (id : Text) (limit w now : ℕ) (s : Simulator) where
  -- The next check on the same triple reads what this one wrote.
  get-check_self :
      get (tb_key id limit w) (check_token_bucket id limit w now s).0.tb
      ≡ some (take_token limit w now (get (tb_key id limit w) s.tb)).0
  get-check_self =
      ground (arith, get-check_token_bucket id limit w now s id limit w, text_eq_refl id)

  allowed-check :
      (check_token_bucket id limit w now s).1.allowed
      ≡ leb (token_unit w) (available limit w (get (tb_key id limit w) s.tb) now)
  unfolding check_token_bucket
  allowed-check = take_token-allowed limit w now (get (tb_key id limit w) s.tb)

module _ (limit w now : ℕ) (found : Option TbState) where
  take_token-retry_after :
      0 < limit
      → (take_token limit w now found).1.allowed ≡ false
      → (take_token limit w now found).1.retry_after
        ≡ some (
            finite
              (ceil_div (token_unit w - (take_token limit w now found).0.tokens) (1000 * limit)))
  unfolding take_token
  take_token-retry_after h = ground arith

  take_token-reset_at :
      0 < limit
      → (take_token limit w now found).1.reset_at
        ≡ now / 1000
          + ceil_div (limit * token_unit w - (take_token limit w now found).0.tokens) (1000 * limit)
  unfolding take_token
  take_token-reset_at h = ground (arith, ceil_div_zero (1000 * limit) (omega arith))

module _ (id : Text) (limit w now : ℕ) (s : Simulator) where
  -- The parts that a check leaves in its bucket.
  left : ℕ
  left = (take_token limit w now (get (tb_key id limit w) s.tb)).0.tokens

  allowed-later :
      (t : ℕ)
      → (check_token_bucket id limit w t (check_token_bucket id limit w now s).0).1.allowed
        ≡ leb (token_unit w) (refill limit w (record { tokens = left; last_ms = now }) t)
  unfolding left
  allowed-later t = rw (
    allowed-check id limit w t (check_token_bucket id limit w now s).0,
    get-check_self id limit w now s,
    take_token-last_ms limit w now (get (tb_key id limit w) s.tb),
  )

  peek-later :
      (t : ℕ)
      → peek_tokens id limit w t (check_token_bucket id limit w now s).0
        ≡ refill limit w (record { tokens = left; last_ms = now }) t
  unfolding left
  peek-later t = rw (
    peek_tokens-available id limit w t (check_token_bucket id limit w now s).0,
    get-check_self id limit w now s,
    take_token-last_ms limit w now (get (tb_key id limit w) s.tb),
  )

  reset_at-left :
      0 < limit
      → (check_token_bucket id limit w now s).1.reset_at
        ≡ now / 1000 + ceil_div (limit * token_unit w - left) (1000 * limit)
  unfolding left check_token_bucket
  reset_at-left h = take_token-reset_at limit w now (get (tb_key id limit w) s.tb) h

  -- What is written when a request is turned away, and when it may come back.
  module _ (rejected : (check_token_bucket id limit w now s).1.allowed ≡ false) where
    left-lt : left < token_unit w
    unfolding left
    left-lt =
        let found = get (tb_key id limit w) s.tb in
        ground (
          arith,
          allowed-check id limit w now s,
          take_token-allowed limit w now found,
          take_token-spends limit w now found,
        )

    retry_after-left :
        0 < limit
        → (check_token_bucket id limit w now s).1.retry_after
          ≡ some (finite (ceil_div (token_unit w - left) (1000 * limit)))
    unfolding left check_token_bucket
    retry_after-left h =
        take_token-retry_after limit w now (get (tb_key id limit w) s.tb) h rejected

    wait-exact :
        {n : ℕ}
        → 0 < limit
        → (check_token_bucket id limit w now s).1.retry_after ≡ some (finite n)
        → n ≡ ceil_div (token_unit w - left) (1000 * limit)
    wait-exact h told = cc (retry_after-left h)

  -- A caller that was told to wait `n` seconds is let in after them, if nothing else took from its
  -- bucket: a check that rejects with `retryAfter = n` is followed, at any time more than `n` seconds
  -- later, by one that allows. The limit is above 0. (At `n` seconds to the millisecond the rounding of
  -- the code's numbers may decide, which are exact here.)
  pub retry_after_suffices :
      {n : ℕ} (t : ℕ)
      → 0 < limit
      → (check_token_bucket id limit w now s).1.allowed ≡ false
      → (check_token_bucket id limit w now s).1.retry_after ≡ some (finite n)
      → now + 1000 * n < t
      → (check_token_bucket id limit w t (check_token_bucket id limit w now s).0).1.allowed ≡ true
  retry_after_suffices {n} t h rejected told late =
      let exact = wait-exact rejected h told in
      let filled = gap_filled (token_unit w - left) limit now t h (omega (arith, exact, late)) in
      rw (allowed-later t) (ground (arith, filled, mul_mono 1 limit (token_unit w) h))

  -- The wait is not a second too long: when a check rejects with `retryAfter = n`, a check more than a
  -- whole second before the end of the wait rejects again. The limit is above 0. (At a second to the
  -- millisecond the rounding of the code's numbers may decide, which are exact here.)
  pub retry_after_needed :
      {n : ℕ} (t : ℕ)
      → 0 < limit
      → (check_token_bucket id limit w now s).1.allowed ≡ false
      → (check_token_bucket id limit w now s).1.retry_after ≡ some (finite n)
      → t + 1000 < now + 1000 * n
      → (check_token_bucket id limit w t (check_token_bucket id limit w now s).0).1.allowed ≡ false
  retry_after_needed {n} t h rejected told early =
      let exact = wait-exact rejected h told in
      let still =
        gap_open (token_unit w - left) limit now t h (omega (arith, left-lt rejected))
          (omega (arith, exact, early)) in
      rw (allowed-later t) (ground (arith, still, left-lt rejected))

  -- From a second after `resetAt` on the bucket is full, if nothing took from it since: `peekTokens`
  -- shows the limit. (`resetAt` counts from the start of the second in which the check was made.) The
  -- limit is above 0.
  pub reset_at_full :
      (t : ℕ)
      → 0 < limit
      → 1000 * (check_token_bucket id limit w now s).1.reset_at + 1000 ≤ t
      → peek_tokens id limit w t (check_token_bucket id limit w now s).0 ≡ limit * token_unit w
  reset_at_full t h late =
      let exact = reset_at-left h in
      let filled =
        gap_filled (limit * token_unit w - left) limit now t h (omega (arith, exact, late)) in
      rw (peek-later t) (omega (arith, filled))
