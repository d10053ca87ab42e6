-- ===== src/Demo/Playground/Invariant.antt =====
-- frontend-demo/app/dashboard/playground/page.tsx: what holds of the page after every event.
use shard_leak.Common.{
  ℕ, zero, suc, ◌≤◌, ◌<◌, ◌≡◌, ◌≢◌, true, Option, none, some, List, [], ◌∷◌, take, length,
  length-take, All, All-take, arith, refl, is_some, ltb, Bool-cases, inl, inr,
}
use mathlib.Core.Path.{subst}
use shard_leak.Common.Int.{ℤ, pos, negsuc}
use shard_leak.Simulator.{CheckOptions, check}
use shard_leak.Simulator.Views.{remaining_bounds}
use shard_leak.Demo.Playground.{
  LogEntry, BurstLoop, Playground, Moment, Event, type_identifier, pick_algorithm, type_limit,
  type_window, interval, click_check, click_burst, wake, click_reset, initial,
  identifier_or_default, options_of, fire_request, handle_reset, burst_round, handle_burst,
  burst_wake, resume, poll, step, run, clamp,
}

-- A configuration that the page's inputs can give.
abbrev pub InRange : CheckOptions → Type 0
InRange o = (0 < o.limit) × (o.limit ≤ 200) × (5 ≤ o.window_seconds) × (o.window_seconds ≤ 300)

abbrev pub LoopInRange : Option BurstLoop → Type 0
LoopInRange none = Unit
LoopInRange (some b) = InRange b.opts × (b.i ≤ 20)

-- A log line shows a number of requests from 0 to 199.
abbrev pub Plausible : LogEntry → Type 0
Plausible e = (n : ℕ) × (e.remaining ≡ pos n) × (n < 200)

-- The ids fall along the log, from below `next`.
abbrev pub Falling : ℕ → List LogEntry → Type 0
Falling next [] = Unit
Falling next (e ∷ es) = (e.id < next) × Falling e.id es

pub record Shown (p : Playground) : Type 0 where
  pub named : p.identifier ≢ []
  pub in_range : InRange (options_of p)
  pub capped : length p.log ≤ 50
  pub plausible : All Plausible p.log
  pub falling : Falling p.log_id p.log

pub record Inv (p : Playground) : Type 0 where
  pub shown : Shown p
  pub loop_in_range : LoopInRange p.loop
  pub bursting : p.bursting ≡ is_some p.loop
  pub burst_ref : p.burst_ref ≡ is_some p.loop

initial-Inv : Inv initial
unfolding initial
initial-Inv = record {
  shown = record {
    named = cc;
    in_range = omega arith;
    capped = omega arith;
    plausible = tt;
    falling = tt;
  };
  loop_in_range = tt;
  bursting = refl;
  burst_ref = refl;
}

Falling-take : (next n : ℕ) (es : List LogEntry) → Falling next es → Falling next (take n es)
Falling-take next zero es h = tt
Falling-take next (suc n) [] h = tt
Falling-take next (suc n) (e ∷ es) h = (h.0, Falling-take e.id n es h.1)

fire_request-Shown :
    (opts : CheckOptions) (m : Moment) (p : Playground)
    → InRange opts
    → Shown p
    → Shown (fire_request opts m p)
unfolding fire_request check
fire_request-Shown opts m p o h =
    let (n, shown, below) = remaining_bounds opts m.now_ms p.sim o.0 (omega arith) in
    record {
      named = h.named;
      in_range = h.in_range;
      capped = omega (arith, h.capped, length-take 49 p.log);
      plausible = ((n, shown, omega arith), All-take Plausible 49 p.log h.plausible);
      falling = (omega arith, Falling-take p.log_id 49 p.log h.falling);
    }

fire_request-Inv :
    (opts : CheckOptions) (m : Moment) (p : Playground)
    → InRange opts
    → Inv p
    → Inv (fire_request opts m p)
unfolding fire_request
fire_request-Inv opts m p o h = record {
  shown = fire_request-Shown opts m p o h.shown;
  loop_in_range = h.loop_in_range;
  bursting = h.bursting;
  burst_ref = h.burst_ref;
}

burst_round-Inv :
    (b : BurstLoop) (m : Moment) (p : Playground)
    → InRange b.opts
    → b.i ≤ 20
    → Shown p
    → p.bursting ≡ true
    → p.burst_ref ≡ true
    → Inv (burst_round b m p)
unfolding burst_round fire_request
burst_round-Inv b m p o hi h on ref =
    let f = fire_request-Shown b.opts m p o h in
    elim (Bool-cases (ltb b.i 20)) [
      | inl more ↦
          simp (more, ref)
            (record {
              shown = record {
                named = f.named;
                in_range = f.in_range;
                capped = f.capped;
                plausible = f.plausible;
                falling = f.falling;
              };
              loop_in_range = (o, ground arith);
              bursting = on;
              burst_ref = refl;
            })
      | inr done ↦ simp done (record {
        shown = record {
          named = h.named;
          in_range = h.in_range;
          capped = h.capped;
          plausible = h.plausible;
          falling = h.falling;
        };
        loop_in_range = tt;
        bursting = refl;
        burst_ref = refl;
      })
    ]

identifier_or_default-ne-nil : (v : List ℕ) → identifier_or_default v ≢ []
identifier_or_default-ne-nil [] = λ e. cc
identifier_or_default-ne-nil (c ∷ v) = λ e. cc

clamp_bounds : (lo hi : ℕ) (n : ℤ) → lo ≤ hi → (lo ≤ clamp lo hi n) × (clamp lo hi n ≤ hi)
clamp_bounds lo hi (pos n) h = omega arith
clamp_bounds lo hi (negsuc n) h = omega arith

resume-Inv :
    (o : Option BurstLoop) (m : Moment) (p : Playground) → p.loop ≡ o → Inv p → Inv (resume o m p)
unfolding resume
resume-Inv none m p e h = h
resume-Inv (some b) m p e h =
    let r = subst LoopInRange e h.loop_in_range in
    burst_round-Inv b m p r.0 r.1 h.shown (cc h.bursting) (cc h.burst_ref)

step-Inv : (e : Event) (p : Playground) → Inv p → Inv (step e p)
unfolding step poll handle_reset handle_burst burst_wake
step-Inv (type_identifier v now) p h = ground (arith, identifier_or_default-ne-nil v)
step-Inv (pick_algorithm a) p h = ground arith
step-Inv (type_limit n now) p h = ground (arith, clamp_bounds 1 200 n)
step-Inv (type_window n now) p h = ground (arith, clamp_bounds 5 300 n)
step-Inv (interval now) p h = ground arith
step-Inv (click_check m) p h = fire_request-Inv (options_of p) m p h.shown.in_range h
step-Inv (click_burst m) p h = elim (Bool-cases p.bursting) [
  | inl busy ↦ simp busy h
  | inr idle ↦ simp idle (
      burst_round-Inv (record { opts = options_of p; i = 0 }) m
        (record p { bursting = true; burst_ref = true }) h.shown.in_range (omega arith)
        (ground arith) refl refl)
]
step-Inv (wake m) p h = resume-Inv p.loop m p refl h
step-Inv click_reset p h = ground arith

run_from-Inv : (es : List Event) (p : Playground) → Inv p → Inv (run es p)
unfolding run
run_from-Inv [] p h = h
run_from-Inv (e ∷ es) p h = run_from-Inv es (step e p) (step-Inv e p h)

-- After any events in which the numbers typed are whole, the page is well-formed: its limit lies in 1 to
-- 200 and its window in 5 to 300 seconds, the identifier is not empty, the log holds at most 50 lines, whose ids fall from the newest
-- on and whose `remaining` lies in 0 to 199, and `bursting` and `burstRef` say whether a burst is in
-- flight, which has made at most 20 rounds.
pub run-Inv : (es : List Event) → Inv (run es initial)
run-Inv es = run_from-Inv es initial initial-Inv
