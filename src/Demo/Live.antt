-- ===== src/Demo/Live.antt =====
-- The moving numbers of the demo: `LiveCounter` of frontend-demo/app/page.tsx, and `useLiveCounter` and
-- `useSparkline` of frontend-demo/app/dashboard/page.tsx.
--
-- A value of `Math.random()` is a number of millionths below 1000000. Clock readings are in
-- milliseconds and do not fall between two ticks of an interval.
use shard_leak.Common.{
  ℕ, ◌+◌, ◌-◌, ◌*◌, ◌/◌, ◌≤◌, ◌<◌, ◌≡◌, List, [], ◌∷◌, ◌++◌, min, leb, if◌then◌else◌, length,
  length-append, drop, arith, refl,
}

-- `LiveCounter` ------------------------------------------------------------------------------------

-- The targets of the page are above 299.
unfoldable pub live_start : ℕ → ℕ → ℕ
live_start target random = target - (random * 200 / 1000000 + 100)

-- One run of the effect: no timer once the target is reached.
unfoldable pub live_tick : ℕ → ℕ → ℕ → ℕ
live_tick target random value =
    if leb target value then value else min target (value + (random * 7 / 1000000 + 3))

unfoldable pub live_ticks : ℕ → List ℕ → ℕ → ℕ
live_ticks target [] value = value
live_ticks target (random ∷ rs) value = live_ticks target rs (live_tick target random value)

live_ticks_near :
    (target : ℕ) (rs : List ℕ) (value : ℕ)
    → value ≤ target
    → (live_ticks target rs value ≤ target)
      × (value ≤ live_ticks target rs value)
      × (min target (value + 3 * length rs) ≤ live_ticks target rs value)
unfolding live_ticks live_tick
live_ticks_near target [] value h = omega arith
live_ticks_near target (random ∷ rs) value h =
    let ih = live_ticks_near target rs (live_tick target random value) (ground arith) in
    ground (arith, ih)

-- The counter of the landing page starts below its target and stands at it after any hundred or
-- more ticks, whatever the random numbers of the ticks are. The target is above 299 and the
-- starting random number is below 1.
pub live_ticks_reach :
    (target random : ℕ) (rs : List ℕ)
    → 299 < target
    → random < 1000000
    → 100 ≤ length rs
    → (live_start target random < target)
      × (live_ticks target rs (live_start target random) ≡ target)
unfolding live_start
live_ticks_reach target random rs h lt enough =
    let near = live_ticks_near target rs (live_start target random) (omega arith) in
    (omega arith, omega (arith, near))

-- `useLiveCounter` ---------------------------------------------------------------------------------

-- `ref.current`, and the state that is shown.
pub record LiveCount : Type 0 where
  pub value : ℕ
  pub last : ℕ
  pub shown : ℕ

unfoldable pub count_start : ℕ → ℕ → LiveCount
count_start base now = record { value = base; last = now; shown = base }

-- `Math.round(ratePerSec * elapsed * (0.85 + Math.random() * 0.3))`, with the time in milliseconds and
-- the factor in parts of 10000000.
unfoldable pub count_delta : ℕ → ℕ → ℕ → ℕ
count_delta rate elapsed_ms random =
    (2 * (rate * elapsed_ms * (8500000 + 3 * random)) + 10000000000) / 20000000000

unfoldable pub count_tick : ℕ → ℕ → ℕ → LiveCount → LiveCount
count_tick rate now random c =
    let value = c.value + count_delta rate (now - c.last) random in
    record { value = value; last = now; shown = value }

-- The ticks, as pairs of a clock reading and a random number.
unfoldable pub count_ticks : ℕ → List (ℕ × ℕ) → LiveCount → LiveCount
count_ticks rate [] c = c
count_ticks rate ((now, random) ∷ ts) c = count_ticks rate ts (count_tick rate now random c)

count_ticks_keep :
    (rate : ℕ) (ts : List (ℕ × ℕ)) (c : LiveCount)
    → c.shown ≡ c.value
    → (c.value ≤ (count_ticks rate ts c).value)
      × ((count_ticks rate ts c).shown ≡ (count_ticks rate ts c).value)
unfolding count_ticks count_tick
count_ticks_keep rate [] c h = (omega arith, h)
count_ticks_keep rate ((now, random) ∷ ts) c h =
    let ih = count_ticks_keep rate ts (count_tick rate now random c) refl in
    (omega (arith, ih.0), ih.1)

count_ticks_still : (ts : List (ℕ × ℕ)) (c : LiveCount) → (count_ticks 0 ts c).value ≡ c.value
unfolding count_ticks count_tick count_delta
count_ticks_still [] c = refl
count_ticks_still ((now, random) ∷ ts) c =
    omega (arith, count_ticks_still ts (count_tick 0 now random c))

-- `useSparkline` -----------------------------------------------------------------------------------

-- `Math.round(initialRate * (0.75 + Math.random() * 0.5))`, the rate in hundredths.
unfoldable pub spark_point : ℕ → ℕ → ℕ
spark_point rate random = (2 * (rate * (7500000 + 5 * random)) + 1000000000) / 2000000000

unfoldable pub spark_tick : ℕ → ℕ → List ℕ → List ℕ
spark_tick rate random prev = drop 1 prev ++ (spark_point rate random ∷ [])

unfoldable pub spark_ticks : ℕ → List ℕ → List ℕ → List ℕ
spark_ticks rate [] points = points
spark_ticks rate (random ∷ rs) points = spark_ticks rate rs (spark_tick rate random points)

pub length-spark_tick :
    (rate random : ℕ) (points : List ℕ)
    → 0 < length points
    → length (spark_tick rate random points) ≡ length points
unfolding spark_tick
length-spark_tick rate random [] h = absurd (omega arith)
length-spark_tick rate random (x ∷ points) h =
    omega (arith, length-append points (spark_point rate random ∷ []))

-- The chart keeps its number of points, so the division by `data.length - 1` that places them stays
-- what it was at the start.
pub length-spark_ticks :
    (rate : ℕ) (rs points : List ℕ)
    → 0 < length points
    → length (spark_ticks rate rs points) ≡ length points
unfolding spark_ticks
length-spark_ticks rate [] points h = refl
length-spark_ticks rate (random ∷ rs) points h =
    let step = length-spark_tick rate random points h in
    omega (
      arith,
      step,
      length-spark_ticks rate rs (spark_tick rate random points) (omega (arith, step)),
    )

-- The counters of the dashboard show what `ref` holds, and never less than the number that they
-- began with; one whose rate is 0, as that of the Redis errors, stays there.
pub count_ticks_shown :
    (rate base now : ℕ) (ts : List (ℕ × ℕ))
    → let c = count_ticks rate ts (count_start base now) in
      (c.shown ≡ c.value)
      × (base ≤ c.shown)
      × ((count_ticks 0 ts (count_start base now)).value ≡ base)
unfolding count_start
count_ticks_shown rate base now ts =
    let keep = count_ticks_keep rate ts (count_start base now) refl in
    (keep.1, omega (arith, keep), count_ticks_still ts (count_start base now))
