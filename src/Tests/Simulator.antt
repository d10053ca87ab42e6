-- ===== src/Tests/Simulator.antt =====
-- frontend-demo/lib/simulator.ts: its theorems at small limits and times.
use shard_leak.Common.{
  ℕ, ◌+◌, ◌*◌, ◌≤◌, true, false, some, List, [], ◌∷◌, ◌≡◌, ltb, leb, if◌then◌else◌, refl, arith,
}
use shard_leak.Common.Int.{pos, negsuc}
use shard_leak.Common.JsMap.{get}
use shard_leak.Common.Texts.{Text, codes, text_eq, decimal, digits}
use shard_leak.Simulator.{
  token_bucket, fixed_window, Simulator, new_simulator, token_unit, tb_key, check_token_bucket,
  take_token, check_fixed_window, peek_tokens, peek_window, reset, infinite,
}
use shard_leak.Simulator.Schedule.{Request, serve, after, admitted, asked, on_bucket, in_window}
use shard_leak.Simulator.Bucket.Rate.{admitted-le-peek_tokens}
use shard_leak.Simulator.Bucket.Timing.{retry_after_suffices, retry_after_needed, reset_at_full}
use shard_leak.Simulator.Window.Limit.{admitted-le-limit}
use shard_leak.Simulator.Window.History.{allowed-asked}
use shard_leak.Simulator.Views.{
  peek_tokens-serve, peek_window-serve, peek_tokens-serve_ne, peek_window-serve_ne, limit_zero,
}
use shard_leak.Simulator.Reset.{peek-reset-extend}

abbrev user : Text
user = codes "user:1"

abbrev other_user : Text
other_user = codes "ip:7"

-- Two tokens in ten seconds, asked at a time.
abbrev on_tokens : ℕ → Request
on_tokens now = record {
  opts = record { identifier = user; algorithm = token_bucket; limit = 2; window_seconds = 10 };
  now_ms = now;
  spent = 0;
  random = 500000;
}

-- Two requests in a window of ten seconds.
abbrev on_count : ℕ → Request
on_count now = record {
  opts = record { identifier = user; algorithm = fixed_window; limit = 2; window_seconds = 10 };
  now_ms = now;
  spent = 0;
  random = 500000;
}

abbrev tokens_asked : List Request
tokens_asked = on_tokens 1000 ∷ on_tokens 1100 ∷ on_count 1150 ∷ on_tokens 1200 ∷ []

abbrev counts_asked : List Request
counts_asked = on_count 1000 ∷ on_count 1100 ∷ on_tokens 1150 ∷ on_count 1200 ∷ []

-- The bucket of the user is empty since a second.
abbrev drained : Simulator
drained = record { tb = (tb_key user 2 10, record { tokens = 0; last_ms = 1000 }) ∷ []; fw = [] }

admitted-le-peek_tokens_example :
    admitted (on_bucket user 2 10) tokens_asked new_simulator * token_unit 10
    ≤ peek_tokens user 2 10 1000 new_simulator + 1000 * 2
admitted-le-peek_tokens_example =
    admitted-le-peek_tokens user 2 10 tokens_asked new_simulator 1000 2000
      (omega arith, (omega arith, (omega arith, (omega arith, omega arith))))

admitted-le-limit_example : admitted (in_window user 2 10 0) counts_asked new_simulator ≤ 2
admitted-le-limit_example =
    admitted-le-limit user 2 10 0 counts_asked new_simulator 1000 2000 (omega arith)
      (omega arith, (omega arith, (omega arith, (omega arith, omega arith))))

allowed-asked_example :
    ((serve (on_count 1300) (after counts_asked new_simulator)).1.decision.allowed
      ≡ ltb (asked (in_window user 2 10 0) counts_asked) 2)
    × ((serve (on_count 1300) (after counts_asked new_simulator)).1.decision.remaining ≡ pos 0)
unfolding asked text_eq
allowed-asked_example =
    allowed-asked user 2 10 counts_asked (on_count 1300) (omega arith) refl
      (omega arith, (omega arith, (omega arith, (omega arith, omega arith))))

retry_after_suffices_example :
    (check_token_bucket user 2 10 6001 (check_token_bucket user 2 10 1000 drained).0).1.allowed
    ≡ true
unfolding check_token_bucket take_token text_eq tb_key decimal digits get
retry_after_suffices_example =
    retry_after_suffices user 2 10 1000 drained {n = 5} 6001 (omega arith) refl refl (omega arith)

retry_after_needed_example :
    (check_token_bucket user 2 10 4999 (check_token_bucket user 2 10 1000 drained).0).1.allowed
    ≡ false
unfolding check_token_bucket take_token text_eq tb_key decimal digits get
retry_after_needed_example =
    retry_after_needed user 2 10 1000 drained {n = 5} 4999 (omega arith) refl refl (omega arith)

reset_at_full_example :
    peek_tokens user 2 10 12000 (check_token_bucket user 2 10 1000 drained).0 ≡ 20000
unfolding check_token_bucket take_token text_eq tb_key decimal digits get
reset_at_full_example = reset_at_full user 2 10 1000 drained 12000 (omega arith) (omega arith)

peek_tokens-serve_example :
    let allowed = (serve (on_tokens 3500) drained).1.decision.allowed in
    (allowed ≡ leb (token_unit 10) (peek_tokens user 2 10 3500 drained))
    × (peek_tokens user 2 10 3500 (serve (on_tokens 3500) drained).0
          + (if allowed then token_unit 10 else 0)
        ≡ peek_tokens user 2 10 3500 drained)
unfolding text_eq
peek_tokens-serve_example = peek_tokens-serve user 2 10 (on_tokens 3500) drained refl

peek_window-serve_example :
    let allowed = (serve (on_count 3500) drained).1.decision.allowed in
    (allowed ≡ ltb (peek_window user 2 10 3500 drained).count 2)
    × ((peek_window user 2 10 3500 (serve (on_count 3500) drained).0).count
        ≡ (peek_window user 2 10 3500 drained).count + (if allowed then 1 else 0))
unfolding text_eq
peek_window-serve_example = peek_window-serve user 2 10 (on_count 3500) drained (omega arith) refl

peek_tokens-serve_ne_example :
    peek_tokens other_user 2 10 4000 (serve (on_tokens 3500) drained).0
    ≡ peek_tokens other_user 2 10 4000 drained
unfolding text_eq
peek_tokens-serve_ne_example =
    peek_tokens-serve_ne other_user 2 10 (on_tokens 3500) drained 4000 refl

peek_window-serve_ne_example :
    peek_window user 3 10 4000 (serve (on_count 3500) drained).0
    ≡ peek_window user 3 10 4000 drained
unfolding text_eq
peek_window-serve_ne_example = peek_window-serve_ne user 3 10 (on_count 3500) drained 4000 refl

limit_zero_example :
    ((check_token_bucket user 0 10 0 new_simulator).1.allowed ≡ false)
    × ((check_token_bucket user 0 10 0 new_simulator).1.retry_after ≡ some infinite)
    × ((check_fixed_window user 0 10 0 new_simulator).1.allowed ≡ true)
    × ((check_fixed_window user 0 10 0 new_simulator).1.remaining ≡ negsuc 0)
unfolding new_simulator get
limit_zero_example = limit_zero user 10 0 new_simulator (omega arith) refl

-- A reset of `user` empties `user`, which is empty, and `user:1`.
peek-reset-extend_example :
    ((peek_tokens (codes "user") 2 10 1500 (reset (codes "user") drained) ≡ 20000)
      × ((peek_window (codes "user") 2 10 1500 (reset (codes "user") drained)).count ≡ 0))
    × (peek_tokens user 2 10 1500 (reset (codes "user") drained) ≡ 20000)
    × ((peek_window user 2 10 1500 (reset (codes "user") drained)).count ≡ 0)
peek-reset-extend_example = peek-reset-extend (codes "user") 2 10 1500 drained (codes "1")
