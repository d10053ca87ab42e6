-- ===== src/Backend/Fraction.antt =====
-- The numbers of the Lua scripts that need not be whole, before they are rounded: fractions of natural
-- numbers, with a denominator above 0.
use shard_leak.Common.{ℕ, ◌+◌, ◌-◌, ◌*◌, ◌/◌, Bool, ltb, leb, ◌==◌, if◌then◌else◌, ceil_div}

pub record Fraction : Type 0 where
  pub num : ℕ
  pub den : ℕ

abbrev pub whole : ℕ → Fraction
whole n = record { num = n; den = 1 }

-- `n * a`
abbrev pub scale : ℕ → Fraction → Fraction
scale n a = record { num = n * a.num; den = a.den }

unfoldable pub plus : Fraction → Fraction → Fraction
plus a b =
    if a.den == b.den
    then record { num = a.num + b.num; den = a.den }
    else record { num = a.num * b.den + b.num * a.den; den = a.den * b.den }

-- `n - a`, of an `a` that is at most `n`.
abbrev pub gap : ℕ → Fraction → Fraction
gap n a = record { num = n * a.den - a.num; den = a.den }

-- `a / b`, of a `b` above 0.
abbrev pub over_by : Fraction → Fraction → Fraction
over_by a b = record { num = a.num * b.den; den = a.den * b.num }

-- `math.min(n, a)`
unfoldable pub cap_at : ℕ → Fraction → Fraction
cap_at n a = if ltb (n * a.den) a.num then whole n else a

-- `a >= 1`
abbrev pub has_one : Fraction → Bool
has_one a = leb a.den a.num

-- `a - 1`, of an `a` that is at least 1.
abbrev pub less_one : Fraction → Fraction
less_one a = record { num = a.num - a.den; den = a.den }

-- `n > a`
abbrev pub above : ℕ → Fraction → Bool
above n a = ltb a.num (n * a.den)

-- `math.floor(a)`
abbrev pub floor : Fraction → ℕ
floor a = a.num / a.den

-- `math.ceil(a)`
abbrev pub ceil : Fraction → ℕ
ceil a = ceil_div a.num a.den
