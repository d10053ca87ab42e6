-- ===== src/Backend/RateLimit/Step.antt =====
-- A decision of the simulator as a script's list, and what a bucket decides in parts of a token.
use shard_leak.Common.{
  ℕ, ◌+◌, ◌-◌, ◌*◌, ◌/◌, ◌<◌, ◌≡◌, true, false, Option, none, some, List, [], ◌∷◌, ltb, leb, ◌==◌,
  if◌then◌else◌, get_or, ceil_div, refl, arith,
}
use shard_leak.Simulator.{
  TbState, Decision, Seconds, token_unit, take_token, finite, infinite, refill, available,
}
use shard_leak.Common.Int.{ℤ, pos, negsuc}

-- A decision as the list that a script returns.
abbrev pub wait_of : Option Seconds → ℕ
wait_of none = 0
wait_of (some infinite) = 0
wait_of (some (finite n)) = n

abbrev pub left_of : ℤ → ℕ
left_of (pos n) = n
left_of (negsuc n) = 0

abbrev pub values_of : Decision → List ℕ
values_of d =
    (if d.allowed then 1 else 0) ∷ left_of d.remaining ∷ d.reset_at ∷ wait_of d.retry_after ∷ []

module _ (limit w now : ℕ) (hl : 0 < limit) (hw : 0 < w) where
  refill-available :
      (found : Option TbState)
      → refill limit w (get_or found (record { tokens = limit * token_unit w; last_ms = now })) now
        ≡ available limit w found now
  refill-available none = omega arith
  refill-available (some state) = refl

  -- What the simulator does with `p` parts.
  abbrev pub spent : ℕ → TbState × Decision
  spent p =
      let allowed = leb (token_unit w) p in
      let left = if allowed then p - token_unit w else p in
      (
        record { tokens = left; last_ms = now },
        record {
          allowed = allowed;
          remaining = pos (left / token_unit w);
          reset_at =
              now / 1000
              + (if ltb left (limit * token_unit w)
                  then ceil_div (limit * token_unit w - left) (1000 * limit)
                  else 0);
          retry_after =
              if allowed
              then none
              else some (finite (ceil_div (token_unit w - left) (1000 * limit)));
        },
      )

  pub take_token-spent :
      (found : Option TbState) → take_token limit w now found ≡ spent (available limit w found now)
  unfolding take_token
  take_token-spent found =
      let some_limit : ltb 0 limit ≡ true = ground arith in
      let no_zero : (limit == 0) ≡ false = ground arith in
      rw (refill-available found, some_limit, no_zero)
