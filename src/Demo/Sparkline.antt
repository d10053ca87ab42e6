-- ===== src/Demo/Sparkline.antt =====
-- frontend-demo/app/dashboard/page.tsx: the path that `Sparkline` draws of its data.
--
-- Coordinates are tenths of a pixel, as `toFixed(1)` prints them, rounded from the exact number. The
-- data are natural numbers, two or more.
use shard_leak.Common.{
  ℕ, ◌+◌, ◌-◌, ◌*◌, ◌≤◌, ◌<◌, ◌≡◌, Bool, List, [], ◌∷◌, length, max, All, refl, arith, ◌==◌,
}
use shard_leak.Demo.Meters.{round_div, round_div-le, le-round_div}

-- A command of the path: `M` for the first point and `L` for the others.
pub record PathPoint : Type 0 where
  pub move : Bool
  pub x : ℕ
  pub y : ℕ

-- `Math.max(...data, 1)`
unfoldable pub max_of : List ℕ → ℕ
max_of [] = 1
max_of (v ∷ vs) = max v (max_of vs)

-- `h - (v / max) * h * 0.85 - 2`, with the height 32: 300 - 272 v / max tenths.
abbrev pub spark_y : ℕ → ℕ → ℕ
spark_y top v = round_div (300 * top - 272 * v) top

-- `(i / (data.length - 1)) * w`, with the width 120.
abbrev pub spark_x : ℕ → ℕ → ℕ
spark_x last i = round_div (i * 1200) last

-- The points from the index `i` on, where `last` is the last index.
unfoldable pub points_from : ℕ → ℕ → ℕ → List ℕ → List PathPoint
points_from top last i [] = []
points_from top last i (v ∷ vs) =
    record { move = i == 0; x = spark_x last i; y = spark_y top v }
    ∷ points_from top last (i + 1) vs

unfoldable pub spark_path : List ℕ → List PathPoint
unfolding points_from max_of
spark_path values = points_from (max_of values) (length values - 1) 0 values

-- The points lie in the box of 120 by 32 pixels, between 2.8 and 30 from its top.
abbrev pub InBox : PathPoint → Type 0
InBox p = (p.x ≤ 1200) × (28 ≤ p.y) × (p.y ≤ 300)

abbrev UpTo : ℕ → List ℕ → Type 0
UpTo top = All (λ v. v ≤ top)

UpTo-mono : (a b : ℕ) (vs : List ℕ) → a ≤ b → UpTo a vs → UpTo b vs
UpTo-mono a b [] le h = tt
UpTo-mono a b (v ∷ vs) le h = (omega (arith, h.0), UpTo-mono a b vs le h.1)

max_of-UpTo : (vs : List ℕ) → UpTo (max_of vs) vs
unfolding max_of
max_of-UpTo [] = tt
max_of-UpTo (v ∷ vs) =
    (omega arith, UpTo-mono (max_of vs) (max v (max_of vs)) vs (omega arith) (max_of-UpTo vs))

max_of-pos : (vs : List ℕ) → 0 < max_of vs
unfolding max_of
max_of-pos [] = omega arith
max_of-pos (v ∷ vs) = omega (arith, max_of-pos vs)

module _ (top last : ℕ) (ht : 0 < top) (hl : 0 < last) where
  point-InBox :
      (i v : ℕ)
      → i ≤ last
      → v ≤ top
      → (spark_x last i ≤ 1200) × (28 ≤ spark_y top v) × (spark_y top v ≤ 300)
  point-InBox i v hi hv = (
    round_div-le (i * 1200) last 1200 hl (omega arith),
    le-round_div (300 * top - 272 * v) top 28 ht (omega arith),
    round_div-le (300 * top - 272 * v) top 300 ht (omega arith),
  )

  points_from-InBox :
      (i : ℕ) (vs : List ℕ)
      → i + length vs ≤ last + 1
      → UpTo top vs
      → All InBox (points_from top last i vs) × (length (points_from top last i vs) ≡ length vs)
  unfolding points_from
  points_from-InBox i [] h up = (tt, refl)
  points_from-InBox i (v ∷ vs) h up =
      let rest = points_from-InBox (i + 1) vs (omega arith) up.1 in
      ((point-InBox i v (omega arith) up.0, rest.0), omega (arith, rest.1))

-- The path has a point for each number of two or more, and every point of it lies in the picture: from
-- its left to its right edge, and from 2.8 to 30 pixels from its top.
pub spark_path-InBox :
    (values : List ℕ)
    → 2 ≤ length values
    → All InBox (spark_path values) × (length (spark_path values) ≡ length values)
unfolding spark_path
spark_path-InBox values h =
    points_from-InBox (max_of values) (length values - 1) (max_of-pos values) (omega arith) 0 values
      (omega arith) (max_of-UpTo values)
