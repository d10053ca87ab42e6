-- ===== src/Tests/Demo.antt =====
-- frontend-demo/app: the theorems of its pages at small inputs.
use shard_leak.Demo.Overview
use shard_leak.Demo.Overview.{view, overview_start, chart_req, decide, count_redis_errors}
use shard_leak.Demo.Overview.Shown.{view-run, IsPlausible}
use shard_leak.Demo.Sparkline.{InBox}
use shard_leak.Common.{All, ℕ, zero, suc, ◌≤◌, List, [], ◌∷◌, ◌++◌, map, length, ◌≡◌, refl}
use shard_leak.Common.Int.{pos}
use shard_leak.Common.Texts.{codes, decimal}
use shard_leak.Demo.Feed.{Draw}
use shard_leak.Demo.Playground.{
  Moment, initial, run, Event, click_check, click_burst, click_reset, wake, type_limit, options_of,
}
use shard_leak.Demo.Playground.Invariant.{Inv, run-Inv}
use shard_leak.Demo.Playground.Burst.{Finished, request, burst_serves_twenty}

abbrev moment : Moment
moment = record {
  now_ms = 5000;
  spent = 100;
  random = 500000;
  iso = codes "2026-01-01T10:00:00.000Z";
}

abbrev repeat {ℓ} : {A : Type ℓ} → ℕ → A → List A
repeat zero x = []
repeat (suc n) x = x ∷ repeat n x

abbrev clicks : List Event
clicks =
    click_check moment
    ∷ type_limit (pos 500) 5100
    ∷ click_burst moment
    ∷ wake moment
    ∷ click_reset
    ∷ []

abbrev draw : Draw
draw = record {
  chance = 900000;
  which_identifier = 250000;
  which_algorithm = 990000;
  rest = 500000;
  noise = 100;
  ts = [];
}

run-Inv_example : Inv (run clicks initial)
run-Inv_example = run-Inv clicks

burst_serves_twenty_example :
    Finished
      (map (request (options_of initial)) (moment ∷ repeat 19 moment))
      initial
      (run (click_burst moment ∷ map wake (repeat 19 moment ++ (moment ∷ []))) initial)
unfolding initial
burst_serves_twenty_example = burst_serves_twenty moment (repeat 19 moment) moment initial refl refl

abbrev sixteen : List ℕ
sixteen = repeat 16 500000

view-run_example :
    let v = view decimal (
      Overview.run
        (chart_req 10 ∷ decide draw ∷ count_redis_errors 400 7 ∷ [])
        (overview_start 0 sixteen sixteen sixteen sixteen (repeat 8 draw))) in
    All (λ c. All InBox c.chart) v.top
    × (length v.rows ≤ 12)
    × All IsPlausible v.rows
    × (v.below
        ≡ (codes "P99 LATENCY", codes "0.9ms")
          ∷ (codes "REDIS ERRORS", codes "0")
          ∷ (codes "DB ERRORS", codes "0")
          ∷ [])
view-run_example =
    view-run 0 sixteen sixteen sixteen sixteen (repeat 8 draw) decimal
      (chart_req 10 ∷ decide draw ∷ count_redis_errors 400 7 ∷ []) refl refl refl refl refl
