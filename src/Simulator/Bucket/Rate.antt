-- ===== src/Simulator/Bucket/Rate.antt =====
-- frontend-demo/lib/simulator.ts, `tokenBucket`: how many requests a bucket lets through in a time.
use shard_leak.Common.{
  ℕ, ◌+◌, ◌-◌, ◌*◌, ◌≤◌, List, [], ◌∷◌, Option, none, some, ◌≡◌, if◌then◌else◌, arith, Bool-cases,
  span_le, inl, inr, ◌&&◌,
}
use shard_leak.Common.JsMap.{get}
use shard_leak.Common.Texts.{Text}
use shard_leak.Simulator.{
  TbState, Simulator, token_unit, available, take_token, tb_key, peek_tokens,
}
use shard_leak.Simulator.Schedule.{Request, serve, admitted, Timed, Timed-le, on_bucket}
use shard_leak.Simulator.Bucket.{
  take_token-spends, take_token-capped, take_token-last_ms, get-serve, allowed-serve,
  peek_tokens-available, take_token-allowed,
}

-- Between two readings of an entry the tokens grow by the rate, at most.
available_grows :
    (limit w : ℕ) (found : Option TbState) (t t' : ℕ)
    → t ≤ t'
    → available limit w found t' ≤ available limit w found t + (t' - t) * limit
available_grows limit w none t t' h = omega arith
available_grows limit w (some state) t t' h =
    omega (arith, span_le (t' - state.last_ms) (t - state.last_ms) (t' - t) limit (omega arith))

-- Right after a check, the entry holds what the check left.
available-take_token :
    (limit w now : ℕ) (found : Option TbState)
    → available limit w (some (take_token limit w now found).0) now
      ≡ (take_token limit w now found).0.tokens
available-take_token limit w now found = rw (take_token-last_ms limit w now found) (
    omega (arith, take_token-capped limit w now found, span_le (now - now) 0 0 limit (omega arith)))

module _ (id : Text) (limit w : ℕ) where
  abbrev pub stock : Simulator → ℕ → ℕ
  stock s now = available limit w (get (tb_key id limit w) s.tb) now

  -- One call takes a token of the bucket if it is on it and allowed, and nothing else.
  pub stock-serve :
      (r : Request) (s : Simulator)
      → stock (serve r s).0 r.now_ms
          + (if on_bucket id limit w r && (serve r s).1.decision.allowed then token_unit w else 0)
        ≡ stock s r.now_ms
  stock-serve r s =
      let found = get (tb_key id limit w) s.tb in
      elim (Bool-cases (on_bucket id limit w r)) [
        | inl on ↦
            rw (get-serve id limit w r s, on, allowed-serve id limit w r s on)
              (omega (
                arith,
                available-take_token limit w r.now_ms found,
                rw (take_token-allowed limit w r.now_ms found) at
                    (take_token-spends limit w r.now_ms found),
              ))
        | inr off ↦ rw (get-serve id limit w r s, off) (omega arith)
      ]

  admitted-le-stock :
      (rs : List Request) (s : Simulator) (from to : ℕ)
      → Timed from rs to
      → admitted (on_bucket id limit w) rs s * token_unit w ≤ stock s from + (to - from) * limit
  unfolding admitted
  admitted-le-stock [] s from to h = omega arith
  admitted-le-stock (r ∷ rs) s from to h = ground (
    arith,
    admitted-le-stock rs (serve r s).0 r.now_ms to h.1,
    stock-serve r s,
    available_grows limit w (get (tb_key id limit w) s.tb) from r.now_ms h.0,
    span_le (to - r.now_ms + (r.now_ms - from)) (to - from) 0 limit
        (omega (arith, Timed-le r.now_ms to rs h.1)),
  )

  -- Whatever the state, whatever else is asked in between: in a time in which the clock does not
  -- fall, a bucket admits no more than the tokens that `peekTokens` shows at its start, and those
  -- that the rate adds. All are counted in parts of a token.
  pub admitted-le-peek_tokens :
      (rs : List Request) (s : Simulator) (from to : ℕ)
      → Timed from rs to
      → admitted (on_bucket id limit w) rs s * token_unit w
        ≤ peek_tokens id limit w from s + (to - from) * limit
  admitted-le-peek_tokens rs s from to h =
      rw (peek_tokens-available id limit w from s) (admitted-le-stock rs s from to h)
