-- ===== src/Demo/Feed.antt =====
-- frontend-demo/app/dashboard/page.tsx: `makeDecision` and `useDecisionFeed`.
--
-- A value of `Math.random()` is a number of millionths below 1000000.
use shard_leak.Common.{
  ℕ, zero, suc, ◌+◌, ◌*◌, ◌/◌, ◌≤◌, ◌<◌, ◌≡◌, ◌≢◌, ◌⊎◌, Bool, true, List, [], ◌∷◌, ltb,
  if◌then◌else◌, length, length-take, take, arith, refl, All, All-map, All-take,
}
use shard_leak.Common.Texts.{Text, codes}

abbrev pub identifiers : List Text
identifiers =
    codes "user:7291"
    ∷ codes "user:3847"
    ∷ codes "api:checkout"
    ∷ codes "ip:203.0.113.42"
    ∷ codes "api:search"
    ∷ codes "user:5512"
    ∷ []

abbrev pub algorithms : List Text
algorithms =
    codes "token_bucket" ∷ codes "token_bucket" ∷ codes "token_bucket" ∷ codes "fixed_window" ∷ []

-- `xs[i]`, of an index in range.
abbrev pub item : List Text → ℕ → Text
item [] i = []
item (x ∷ xs) zero = x
item (x ∷ xs) (suc i) = item xs i

-- `xs[Math.floor(Math.random() * xs.length)]`; a number below 1000000 gives an index in range.
unfoldable pub pick : List Text → ℕ → Text
pick xs random = item xs (random * length xs / 1000000)

-- The values of `Math.random()` that `makeDecision` draws, and the time.
pub record Draw : Type 0 where
  pub chance : ℕ
  pub which_identifier : ℕ
  pub which_algorithm : ℕ
  pub rest : ℕ
  pub noise : ℕ
  pub ts : Text

pub record FeedEntry : Type 0 where
  pub id : ℕ
  pub identifier : Text
  pub algorithm : Text
  pub allowed : Bool
  pub remaining : ℕ
  pub latency : ℕ
  pub ts : Text

-- `makeDecision` with the module's `_id`; the latency is in tenths of a millisecond.
unfoldable pub make_decision : ℕ → Draw → FeedEntry
make_decision id d =
    let allowed = ltb 280000 d.chance in
    record {
      id = id;
      identifier = pick identifiers d.which_identifier;
      algorithm = pick algorithms d.which_algorithm;
      allowed = allowed;
      remaining = if allowed then (d.rest * 80 + 5000000) / 1000000 else 0;
      latency = (2000000 + 9 * d.noise + 500000) / 1000000;
      ts = d.ts;
    }

-- `_id` and the feed.
pub record Feed : Type 0 where
  pub next_id : ℕ
  pub entries : List FeedEntry

-- `Array.from({ length: 8 }, makeDecision)`, for a list of eight draws.
unfoldable pub feed_from : ℕ → List Draw → List FeedEntry
feed_from id [] = []
feed_from id (d ∷ ds) = make_decision id d ∷ feed_from (id + 1) ds

unfoldable pub feed_start : List Draw → Feed
unfolding feed_from
feed_start ds = record { next_id = 1 + length ds; entries = feed_from 1 ds }

unfoldable pub feed_tick : ℕ → Draw → Feed → Feed
feed_tick max_len d f = record {
  next_id = f.next_id + 1;
  entries = take max_len (make_decision f.next_id d ∷ f.entries);
}

unfoldable pub feed_ticks : ℕ → List Draw → Feed → Feed
feed_ticks max_len [] f = f
feed_ticks max_len (d ∷ ds) f = feed_ticks max_len ds (feed_tick max_len d f)

-- No two entries have the same id.
abbrev pub Apart : List FeedEntry → Type 0
Apart [] = Unit
Apart (e ∷ es) = All (λ f. f.id ≢ e.id) es × Apart es

-- Every id is below `next`, and a rejected entry shows 0 remaining.
abbrev pub Drawn : ℕ → FeedEntry → Type 0
Drawn next e = (e.id < next) × ((e.allowed ≡ true) ⊎ (e.remaining ≡ 0))

pub record FeedIsValid (f : Feed) : Type 0 where
  pub drawn : All (Drawn f.next_id) f.entries
  pub apart : Apart f.entries

Apart-take : (n : ℕ) (es : List FeedEntry) → Apart es → Apart (take n es)
Apart-take zero es h = tt
Apart-take (suc n) [] h = tt
Apart-take (suc n) (e ∷ es) h = (All-take (λ f. f.id ≢ e.id) n es h.0, Apart-take n es h.1)

Drawn-make_decision : (id : ℕ) (d : Draw) → Drawn (id + 1) (make_decision id d)
unfolding make_decision
Drawn-make_decision id d = ground arith

pub feed_tick-IsValid :
    (max_len : ℕ) (d : Draw) (f : Feed) → FeedIsValid f → FeedIsValid (feed_tick max_len d f)
unfolding feed_tick make_decision
feed_tick-IsValid max_len d f h = record {
  drawn = All-take (Drawn (f.next_id + 1)) max_len (make_decision f.next_id d ∷ f.entries) (
    Drawn-make_decision f.next_id d,
    All-map (Drawn f.next_id) (Drawn (f.next_id + 1)) (λ e k. (omega arith, k.1)) f.entries h.drawn,
  );
  apart = Apart-take max_len (make_decision f.next_id d ∷ f.entries) (
    All-map (Drawn f.next_id) (λ e. e.id ≢ (make_decision f.next_id d).id) (λ e k. omega arith)
        f.entries h.drawn,
    h.apart,
  );
}

feed_from-Drawn :
    (id : ℕ) (ds : List Draw) → All (λ e. (id ≤ e.id) × Drawn (id + length ds) e) (feed_from id ds)
unfolding feed_from make_decision
feed_from-Drawn id [] = tt
feed_from-Drawn id (d ∷ ds) = (
  (omega arith, (omega arith, (Drawn-make_decision id d).1)),
  All-map (λ e. (id + 1 ≤ e.id) × Drawn (id + 1 + length ds) e)
      (λ e. (id ≤ e.id) × Drawn (id + suc (length ds)) e)
      (λ e k. (omega arith, (omega arith, k.1.1))) (feed_from (id + 1) ds)
      (feed_from-Drawn (id + 1) ds),
)

feed_from-Apart : (id : ℕ) (ds : List Draw) → Apart (feed_from id ds)
unfolding feed_from make_decision
feed_from-Apart id [] = tt
feed_from-Apart id (d ∷ ds) = (
  All-map (λ e. (id + 1 ≤ e.id) × Drawn (id + 1 + length ds) e) (λ e. e.id ≢ id)
      (λ e k. omega arith) (feed_from (id + 1) ds) (feed_from-Drawn (id + 1) ds),
  feed_from-Apart (id + 1) ds,
)

pub length-feed_from : (id : ℕ) (ds : List Draw) → length (feed_from id ds) ≡ length ds
unfolding feed_from
length-feed_from id [] = refl
length-feed_from id (d ∷ ds) = omega (arith, length-feed_from (id + 1) ds)

pub feed_start-IsValid : (ds : List Draw) → FeedIsValid (feed_start ds)
unfolding feed_start
feed_start-IsValid ds = record {
  drawn =
      All-map (λ e. (1 ≤ e.id) × Drawn (1 + length ds) e) (Drawn (1 + length ds)) (λ e k. k.1)
        (feed_from 1 ds) (feed_from-Drawn 1 ds);
  apart = feed_from-Apart 1 ds;
}

feed_ticks-keep :
    (max_len : ℕ) (ticks : List Draw) (f : Feed)
    → FeedIsValid f
    → length f.entries ≤ max_len
    → FeedIsValid (feed_ticks max_len ticks f)
      × (length (feed_ticks max_len ticks f).entries ≤ max_len)
unfolding feed_ticks
feed_ticks-keep max_len [] f h le = (h, le)
feed_ticks-keep max_len (d ∷ ds) f h le =
    feed_ticks-keep max_len ds (feed_tick max_len d f) (feed_tick-IsValid max_len d f h) (
      unfold feed_tick in
      omega (arith, length-take max_len (make_decision f.next_id d ∷ f.entries)))

-- Whatever is drawn, at the start and by the ticks of the interval, the feed holds at most twelve
-- decisions, no two with the same id, and every one that is not allowed shows 0 remaining.
pub feed_ticks-IsValid :
    (start ticks : List Draw)
    → length start ≡ 8
    → let f = feed_ticks 12 ticks (feed_start start) in FeedIsValid f × (length f.entries ≤ 12)
unfolding feed_start
feed_ticks-IsValid start ticks e =
    feed_ticks-keep 12 ticks (feed_start start) (feed_start-IsValid start)
      (omega (arith, length-feed_from 1 start))
