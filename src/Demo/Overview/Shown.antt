-- ===== src/Demo/Overview/Shown.antt =====
-- frontend-demo/app/dashboard/page.tsx: what the page shows after any ticks of its intervals.
use shard_leak.Common.{
  ℕ, ◌≤◌, ◌≡◌, ◌⊎◌, inl, inr, List, [], ◌∷◌, map, length, All, refl, arith, length-take,
}
use shard_leak.Common.Texts.{Text, codes, decimal, digits}
use shard_leak.Demo.Live.{
  LiveCount, count_start, count_tick, count_delta, spark_tick, length-spark_tick,
}
use shard_leak.Demo.Feed.{
  Feed, FeedEntry, Draw, FeedIsValid, feed_start, feed_tick, feed_tick-IsValid, feed_start-IsValid,
  length-feed_from, make_decision, Drawn,
}
use shard_leak.Demo.Sparkline.{InBox, spark_path-InBox}
use shard_leak.Demo.Overview.{
  Overview, overview_start, spark_start, Tick, count_total, count_allowed, count_rejected,
  count_redis_errors, chart_req, chart_allow, chart_rej, chart_lat, decide, step, run, view, cards,
  secondary, feed_row, FeedRow,
}

record Shows (o : Overview) : Type 0 where
  req : length o.req_spark ≡ 16
  allow : length o.allow_spark ≡ 16
  rej : length o.rej_spark ≡ 16
  lat : length o.lat_spark ≡ 16
  errors : (o.redis_errors.value ≡ 0) × (o.redis_errors.shown ≡ 0)
  valid : FeedIsValid o.feed
  capped : length o.feed.entries ≤ 12

kept :
    (rate random : ℕ) (points : List ℕ)
    → length points ≡ 16
    → length (spark_tick rate random points) ≡ 16
kept rate random points h = omega (arith, length-spark_tick rate random points (omega arith))

still_zero :
    (now random : ℕ) (c : LiveCount)
    → c.value ≡ 0
    → ((count_tick 0 now random c).value ≡ 0) × ((count_tick 0 now random c).shown ≡ 0)
unfolding count_tick count_delta
still_zero now random c h = (omega (arith, h), omega (arith, h))

capped_tick : (d : Draw) (f : Feed) → length (feed_tick 12 d f).entries ≤ 12
unfolding feed_tick
capped_tick d f = omega (arith, length-take 12 (make_decision f.next_id d ∷ f.entries))

step-Shows : (t : Tick) (o : Overview) → Shows o → Shows (step t o)
unfolding step
step-Shows (count_total now random) o h = record {
  req = h.req;
  allow = h.allow;
  rej = h.rej;
  lat = h.lat;
  errors = h.errors;
  valid = h.valid;
  capped = h.capped;
}
step-Shows (count_allowed now random) o h = record {
  req = h.req;
  allow = h.allow;
  rej = h.rej;
  lat = h.lat;
  errors = h.errors;
  valid = h.valid;
  capped = h.capped;
}
step-Shows (count_rejected now random) o h = record {
  req = h.req;
  allow = h.allow;
  rej = h.rej;
  lat = h.lat;
  errors = h.errors;
  valid = h.valid;
  capped = h.capped;
}
step-Shows (count_redis_errors now random) o h = record {
  req = h.req;
  allow = h.allow;
  rej = h.rej;
  lat = h.lat;
  errors = still_zero now random o.redis_errors h.errors.0;
  valid = h.valid;
  capped = h.capped;
}
step-Shows (chart_req random) o h = record {
  req = kept 4800 random o.req_spark h.req;
  allow = h.allow;
  rej = h.rej;
  lat = h.lat;
  errors = h.errors;
  valid = h.valid;
  capped = h.capped;
}
step-Shows (chart_allow random) o h = record {
  req = h.req;
  allow = kept 3600 random o.allow_spark h.allow;
  rej = h.rej;
  lat = h.lat;
  errors = h.errors;
  valid = h.valid;
  capped = h.capped;
}
step-Shows (chart_rej random) o h = record {
  req = h.req;
  allow = h.allow;
  rej = kept 1200 random o.rej_spark h.rej;
  lat = h.lat;
  errors = h.errors;
  valid = h.valid;
  capped = h.capped;
}
step-Shows (chart_lat random) o h = record {
  req = h.req;
  allow = h.allow;
  rej = h.rej;
  lat = kept 41 random o.lat_spark h.lat;
  errors = h.errors;
  valid = h.valid;
  capped = h.capped;
}
step-Shows (decide d) o h = record {
  req = h.req;
  allow = h.allow;
  rej = h.rej;
  lat = h.lat;
  errors = h.errors;
  valid = feed_tick-IsValid 12 d o.feed h.valid;
  capped = capped_tick d o.feed;
}

run-Shows : (ts : List Tick) (o : Overview) → Shows o → Shows (run ts o)
unfolding run
run-Shows [] o h = h
run-Shows (t ∷ ts) o h = run-Shows ts (step t o) (step-Shows t o h)

length-spark_start :
    (rate : ℕ) (randoms : List ℕ) → length (spark_start rate randoms) ≡ length randoms
unfolding spark_start
length-spark_start rate [] = refl
length-spark_start rate (r ∷ rs) = omega (arith, length-spark_start rate rs)

-- A line that says `ALLOW`, or that shows 0 remaining.
abbrev pub IsPlausible : FeedRow → Type 0
IsPlausible r = (r.verdict ≡ codes "ALLOW") ⊎ (r.remaining ≡ codes "0")

feed_row-IsPlausible : (next : ℕ) (e : FeedEntry) → Drawn next e → IsPlausible (feed_row e)
unfolding feed_row decimal digits
feed_row-IsPlausible next e (below, inl allowed) = inl (rw allowed)
feed_row-IsPlausible next e (below, inr nothing) = inr (rw nothing)

rows-IsPlausible :
    (next : ℕ) (es : List FeedEntry) → All (Drawn next) es → All IsPlausible (map feed_row es)
rows-IsPlausible next [] h = tt
rows-IsPlausible next (e ∷ es) h = (feed_row-IsPlausible next e h.0, rows-IsPlausible next es h.1)

length-rows : (es : List FeedEntry) → length (map feed_row es) ≡ length es
length-rows [] = refl
length-rows (e ∷ es) = omega (arith, length-rows es)

module _ (now : ℕ) (req allow rej lat : List ℕ) (draws : List Draw) where
  start-Shows :
      length req ≡ 16
      → length allow ≡ 16
      → length rej ≡ 16
      → length lat ≡ 16
      → length draws ≡ 8
      → Shows (overview_start now req allow rej lat draws)
  unfolding overview_start count_start feed_start
  start-Shows hq ha hr hl hd = record {
    req = omega (arith, hq, length-spark_start 4800 req);
    allow = omega (arith, ha, length-spark_start 3600 allow);
    rej = omega (arith, hr, length-spark_start 1200 rej);
    lat = omega (arith, hl, length-spark_start 41 lat);
    errors = (refl, refl);
    valid = feed_start-IsValid draws;
    capped = omega (arith, hd, length-feed_from 1 draws);
  }

  -- The overview holds together whatever its intervals do. It starts with sixteen numbers for each of
  -- its four charts and eight decisions; then, after any ticks in any order, every point of every chart
  -- lies in its picture, the feed has at most twelve lines, of which each says `ALLOW` or shows 0
  -- remaining, and the row below the charts shows no errors of Redis.
  pub view-run :
      (locale : ℕ → Text) (ts : List Tick)
      → length req ≡ 16
      → length allow ≡ 16
      → length rej ≡ 16
      → length lat ≡ 16
      → length draws ≡ 8
      → let v = view locale (run ts (overview_start now req allow rej lat draws)) in
        All (λ c. All InBox c.chart) v.top
        × (length v.rows ≤ 12)
        × All IsPlausible v.rows
        × (v.below
            ≡ (codes "P99 LATENCY", codes "0.9ms")
              ∷ (codes "REDIS ERRORS", codes "0")
              ∷ (codes "DB ERRORS", codes "0")
              ∷ [])
  unfolding view cards secondary decimal digits
  view-run locale ts hq ha hr hl hd =
      let h =
        run-Shows ts (overview_start now req allow rej lat draws) (start-Shows hq ha hr hl hd) in
      let o = run ts (overview_start now req allow rej lat draws) in
      (
        (
          (spark_path-InBox o.req_spark (omega (arith, h.req))).0,
          (
            (spark_path-InBox o.allow_spark (omega (arith, h.allow))).0,
            (
              (spark_path-InBox o.rej_spark (omega (arith, h.rej))).0,
              ((spark_path-InBox o.lat_spark (omega (arith, h.lat))).0, tt),
            ),
          ),
        ),
        omega (arith, length-rows o.feed.entries, h.capped),
        rows-IsPlausible o.feed.next_id o.feed.entries h.valid.drawn,
        rw h.errors.1,
      )
