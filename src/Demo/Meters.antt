-- ===== src/Demo/Meters.antt =====
-- frontend-demo/app/dashboard/playground/page.tsx: `TokenGrid` and `WindowBar`.
--
-- Ratios are exact fractions of natural numbers; a token count is a number of parts, `unit` parts to
-- a token.
use shard_leak.Common.{
  ℕ, zero, suc, ◌+◌, ◌-◌, ◌*◌, ◌/◌, ◌≤◌, ◌<◌, ◌≡◌, Bool, false, List, [], ◌∷◌, min, ltb, leb,
  if◌then◌else◌, length, arith, refl,
}
use native.Mathlib.Nat.{div-lt_iff_lt-mul, le-div_iff_mul-le, div-div-eq-div-mul, mul-div_cancel}
use shard_leak.Common.Int.{ℤ, pos, negsuc, sub_ℕ}

-- `Math.round(a / b)` on natural numbers, for `b` above 0.
abbrev pub round_div : ℕ → ℕ → ℕ
round_div a b = (2 * a + b) / (2 * b)

-- `Array.from({ length: n }).map((_, i) => i < filled)`, from the index `i` on.
unfoldable pub cells_from : ℕ → ℕ → ℕ → List Bool
cells_from zero i filled = []
cells_from (suc n) i filled = ltb i filled ∷ cells_from n (suc i) filled

-- Which cells of the grid are lit.
unfoldable pub token_grid : ℕ → ℕ → ℕ → List Bool
token_grid unit tokens limit =
    let cells = min limit 64 in cells_from cells 0 (round_div (tokens * cells) (unit * limit))

-- The page hands the grid `Math.min(limit, 64)` for its limit.
unfoldable pub page_grid : ℕ → ℕ → ℕ → List Bool
unfolding token_grid
page_grid unit tokens limit = token_grid unit tokens (min limit 64)

pub record Percent : Type 0 where
  pub numerator : ℤ
  pub denominator : ℕ

-- `Math.min(100, (n / d) * 100)`, over the denominator `d`.
abbrev pub percent : ℤ → ℕ → Percent
percent (pos n) d = record { numerator = pos (min (100 * d) (n * 100)); denominator = d }
percent (negsuc n) d = record { numerator = negsuc ((n + 1) * 100 - 1); denominator = d }

-- `pct >= 100`
abbrev pub is_full : Percent → Bool
is_full p = elim p.numerator [ pos n ↦ leb (100 * p.denominator) n | negsuc _ ↦ false ]

pub record Bar : Type 0 where
  pub pct : Percent
  pub time_pct : Percent
  pub red : Bool

unfoldable pub window_bar : ℕ → ℕ → ℕ → ℕ → Bar
window_bar count limit seconds_left window_seconds =
    let pct = percent (pos count) limit in
    record {
      pct = pct;
      time_pct = percent (sub_ℕ window_seconds seconds_left) window_seconds;
      red = is_full pct;
    }

pub lit : List Bool → ℕ
lit [] = 0
lit (b ∷ bs) = (if b then 1 else 0) + lit bs

lit-cells_from : (n i filled : ℕ) → lit (cells_from n i filled) ≡ min n (filled - i)
unfolding lit cells_from
lit-cells_from zero i filled = omega arith
lit-cells_from (suc n) i filled = ground (arith, lit-cells_from n (suc i) filled)

length-cells_from : (n i filled : ℕ) → length (cells_from n i filled) ≡ n
unfolding cells_from
length-cells_from zero i filled = refl
length-cells_from (suc n) i filled = omega (arith, length-cells_from n (suc i) filled)

round_div-mul : (a b c : ℕ) → 0 < c → round_div (a * c) (b * c) ≡ round_div a b
round_div-mul a b c h =
    let top : 2 * (a * c) + b * c ≡ (2 * a + b) * c = omega arith in
    let bottom : 2 * (b * c) ≡ c * (2 * b) = omega arith in
    rw (top, bottom, ← div-div-eq-div-mul, mul-div_cancel (2 * a + b) h)

pub round_div-le : (a b n : ℕ) → 0 < b → a ≤ n * b → round_div a b ≤ n
round_div-le a b n h held =
    let lt : (2 * a + b) / (2 * b) < n + 1 =
      (div-lt_iff_lt-mul {k = 2 * b} (omega arith)).1 (omega (arith, held)) in
    omega (arith, lt)

pub le-round_div : (a b n : ℕ) → 0 < b → n * b ≤ a → n ≤ round_div a b
le-round_div a b n h held = (le-div_iff_mul-le {k = 2 * b} (omega arith)).1 (omega (arith, held))

-- Up to a limit of 64 the grid has a cell for each token of the limit, and as many are lit as there
-- are tokens, rounded to the nearest; the bucket holds no more than the limit.
pub lit-page_grid :
    (unit tokens limit : ℕ)
    → 0 < unit
    → 0 < limit
    → limit ≤ 64
    → tokens ≤ limit * unit
    → (length (page_grid unit tokens limit) ≡ limit)
      × (lit (page_grid unit tokens limit) ≡ round_div tokens unit)
unfolding page_grid
lit-page_grid unit tokens limit hu hl small held =
    let clamp : min limit 64 ≡ limit = omega arith in
    rw (clamp, clamp)
      (
        length-cells_from limit 0 (round_div (tokens * limit) (unit * limit)),
        rw (lit-cells_from, round_div-mul tokens unit limit hl)
            (omega (arith, round_div-le tokens unit limit hu held)),
      )

-- Above a limit of 64 every cell of the grid is lit as long as the bucket holds 64 tokens, whatever
-- part of its limit they are.
pub lit-page_grid_large :
    (unit tokens limit : ℕ)
    → 0 < unit
    → 64 < limit
    → 64 * unit ≤ tokens
    → (length (page_grid unit tokens limit) ≡ 64) × (lit (page_grid unit tokens limit) ≡ 64)
unfolding page_grid
lit-page_grid_large unit tokens limit hu large held =
    let clamp : min limit 64 ≡ 64 = omega arith in
    rw clamp (
      length-cells_from 64 0 (round_div (tokens * 64) (unit * 64)),
      rw (lit-cells_from, round_div-mul tokens unit 64 (omega arith))
          (omega (arith, le-round_div tokens unit 64 hu held)),
    )

-- The bar turns red exactly when the window's count has reached its limit, and never shows more than
-- 100 percent.
pub window_bar-red :
    (count limit seconds_left window_seconds : ℕ)
    → let bar = window_bar count limit seconds_left window_seconds in
      (bar.red ≡ leb limit count) × (bar.pct.numerator ≡ pos (min (100 * limit) (count * 100)))
unfolding window_bar
window_bar-red count limit seconds_left window_seconds = (ground arith, refl)
