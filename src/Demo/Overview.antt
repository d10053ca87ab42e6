-- ===== src/Demo/Overview.antt =====
-- frontend-demo/app/dashboard/page.tsx: `DashboardPage`, what its hooks hold and what it shows of it.
--
-- `toLocaleString` is the browser's: it is the argument `locale`. Values of `Math.random()` are
-- millionths below 1000000; a latency is in tenths of a millisecond.
pub mod Shown
use shard_leak.Common.{
  ℕ, ◌+◌, ◌*◌, ◌/◌, ◌%◌, Bool, true, false, List, [], ◌∷◌, ◌++◌, if◌then◌else◌, map, ◌==◌, length,
}
use shard_leak.Common.Texts.{Text, codes, decimal, text_eq}
use shard_leak.Demo.Live.{LiveCount, count_start, count_tick, spark_tick}
use shard_leak.Demo.Feed.{Feed, FeedEntry, Draw, feed_start, feed_tick}
use shard_leak.Demo.Sparkline.{PathPoint, spark_path}

pub record Overview : Type 0 where
  pub total_requests : LiveCount
  pub allowed : LiveCount
  pub rejected : LiveCount
  pub redis_errors : LiveCount
  pub req_spark : List ℕ
  pub allow_spark : List ℕ
  pub rej_spark : List ℕ
  pub lat_spark : List ℕ
  pub feed : Feed

-- `Array.from({ length: points }, …)` of `useSparkline`, for a list of as many random numbers; the rate
-- is in hundredths.
unfoldable pub spark_start : ℕ → List ℕ → List ℕ
spark_start rate randoms =
    map (λ random. (2 * (rate * (8000000 + 4 * random)) + 1000000000) / 2000000000) randoms

-- The page at its first rendering, at the time `now`; the four charts draw the same number of points.
unfoldable pub overview_start : ℕ → List ℕ → List ℕ → List ℕ → List ℕ → List Draw → Overview
unfolding spark_start
overview_start now req allow rej lat draws = record {
  total_requests = count_start 2847293 now;
  allowed = count_start 2161743 now;
  rejected = count_start 685550 now;
  redis_errors = count_start 0 now;
  req_spark = spark_start 4800 req;
  allow_spark = spark_start 3600 allow;
  rej_spark = spark_start 1200 rej;
  lat_spark = spark_start 41 lat;
  feed = feed_start draws;
}

-- The ticks of the intervals that the hooks set up.
pub data Tick : Type 0 where
  count_total count_allowed count_rejected count_redis_errors : ℕ → ℕ → Tick
  chart_req chart_allow chart_rej chart_lat : ℕ → Tick
  decide : Draw → Tick

unfoldable pub step : Tick → Overview → Overview
step (count_total now random) o = record o {
  total_requests = count_tick 48 now random o.total_requests;
}
step (count_allowed now random) o = record o { allowed = count_tick 36 now random o.allowed }
step (count_rejected now random) o = record o { rejected = count_tick 12 now random o.rejected }
step (count_redis_errors now random) o = record o {
  redis_errors = count_tick 0 now random o.redis_errors;
}
step (chart_req random) o = record o { req_spark = spark_tick 4800 random o.req_spark }
step (chart_allow random) o = record o { allow_spark = spark_tick 3600 random o.allow_spark }
step (chart_rej random) o = record o { rej_spark = spark_tick 1200 random o.rej_spark }
step (chart_lat random) o = record o { lat_spark = spark_tick 41 random o.lat_spark }
step (decide d) o = record o { feed = feed_tick 12 d o.feed }

unfoldable pub run : List Tick → Overview → Overview
run [] o = o
run (t ∷ ts) o = run ts (step t o)

-- A card of the first row: what it says, its chart, and whether it is accented.
pub record Card : Type 0 where
  pub label : Text
  pub value : Text
  pub sub : Text
  pub chart : List PathPoint
  pub accent : Bool

unfoldable pub cards : (ℕ → Text) → Overview → List Card
cards locale o =
    record {
      label = codes "TOTAL REQUESTS";
      value = locale o.total_requests.shown;
      sub = codes "+48/sec";
      chart = spark_path o.req_spark;
      accent = false;
    }
    ∷ record {
      label = codes "ALLOWED";
      value = locale o.allowed.shown;
      sub = codes "75.9% allow rate";
      chart = spark_path o.allow_spark;
      accent = true;
    }
    ∷ record {
      label = codes "REJECTED";
      value = locale o.rejected.shown;
      sub = codes "24.1% reject rate";
      chart = spark_path o.rej_spark;
      accent = false;
    }
    ∷ record {
      label = codes "P95 LATENCY";
      value = codes "0.4ms";
      sub = codes "Redis Lua decision";
      chart = spark_path o.lat_spark;
      accent = false;
    }
    ∷ []

-- The second row, as labels with their values.
unfoldable pub secondary : Overview → List (Text × Text)
secondary o =
    (codes "P99 LATENCY", codes "0.9ms")
    ∷ (codes "REDIS ERRORS", decimal o.redis_errors.shown)
    ∷ (codes "DB ERRORS", codes "0")
    ∷ []

-- A number of tenths, as JavaScript prints it.
unfoldable pub tenths : ℕ → Text
tenths n = if n % 10 == 0 then decimal (n / 10) else decimal (n / 10) ++ (b'.' ∷ decimal (n % 10))

-- `algorithm === 'token_bucket' ? 'TB' : 'FW'`
unfoldable pub short_name : Text → Text
short_name algorithm = if text_eq algorithm (codes "token_bucket") then codes "TB" else codes "FW"

-- A line of the feed.
pub record FeedRow : Type 0 where
  pub verdict : Text
  pub identifier : Text
  pub algorithm : Text
  pub remaining : Text
  pub latency : Text

unfoldable pub feed_row : FeedEntry → FeedRow
unfolding short_name tenths
feed_row d = record {
  verdict = if d.allowed then codes "ALLOW" else codes "REJECT";
  identifier = d.identifier;
  algorithm = short_name d.algorithm;
  remaining = decimal d.remaining;
  latency = tenths d.latency ++ codes "ms";
}

pub record ActiveLimit : Type 0 where
  pub identifier : Text
  pub algorithm : Text
  pub limit : ℕ
  pub window : ℕ

abbrev pub active : Text → Text → ℕ → ℕ → ActiveLimit
active identifier algorithm limit window = record {
  identifier = identifier;
  algorithm = algorithm;
  limit = limit;
  window = window;
}

unfoldable pub active_limits : List ActiveLimit
active_limits =
    active (codes "user:7291") (codes "token_bucket") 100 60
    ∷ active (codes "api:checkout") (codes "token_bucket") 50 10
    ∷ active (codes "ip:203.0.113.42") (codes "fixed_window") 200 60
    ∷ active (codes "api:search") (codes "token_bucket") 300 60
    ∷ active (codes "user:5512") (codes "fixed_window") 20 30
    ∷ []

-- A line of the list of limits: whom it is for, the algorithm, whether that is accented, and the limit.
pub record LimitRow : Type 0 where
  pub identifier : Text
  pub algorithm : Text
  pub accent : Bool
  pub rate : Text

unfoldable pub limit_row : ActiveLimit → LimitRow
unfolding short_name
limit_row l = record {
  identifier = l.identifier;
  algorithm = short_name l.algorithm;
  accent = text_eq l.algorithm (codes "token_bucket");
  rate = decimal l.limit ++ codes " req / " ++ decimal l.window ++ codes "s";
}

pub record OverviewView : Type 0 where
  pub top : List Card
  pub below : List (Text × Text)
  pub rows : List FeedRow
  pub limits_count : Text
  pub limits : List LimitRow

unfoldable pub view : (ℕ → Text) → Overview → OverviewView
unfolding cards secondary feed_row limit_row active_limits
view locale o = record {
  top = cards locale o;
  below = secondary o;
  rows = map feed_row o.feed.entries;
  limits_count = decimal (length active_limits);
  limits = map limit_row active_limits;
}
