-- ===== src/Demo/Playground/Burst.antt =====
-- frontend-demo/app/dashboard/playground/page.tsx, `handleBurst`: the whole loop, and the statistics
-- of the log.
use shard_leak.Common.{
  ℕ, ◌+◌, ◌<◌, ◌≡◌, true, false, not, Option, none, some, List, [], ◌∷◌, ◌++◌, map, length, keep_if,
  arith, refl, ltb, ◌∙◌, sym,
}
use mathlib.Core.Path.{subst}
use shard_leak.Simulator.{CheckOptions}
use shard_leak.Simulator.Schedule.{Request, after}
use shard_leak.Demo.Playground.{
  LogEntry, BurstLoop, Playground, Moment, click_burst, wake, options_of, fire_request, burst_round,
  handle_burst, burst_wake, resume, step, run, allowed_count, rejected_count,
}

-- The call of `check` that one round makes.
abbrev pub request : CheckOptions → Moment → Request
request opts m = record { opts = opts; now_ms = m.now_ms; spent = m.spent; random = m.random }

-- What a burst has done when it is over, from the state before it.
pub record Finished (rounds : List Request) (p q : Playground) : Type 0 where
  pub sim : q.sim ≡ after rounds p.sim
  pub log_id : q.log_id ≡ p.log_id + length rounds
  pub bursting : q.bursting ≡ false
  pub burst_ref : q.burst_ref ≡ false
  pub loop : q.loop ≡ none

-- The page after a round that fires.
abbrev fired : BurstLoop → Moment → Playground → Playground
fired b m p = record (fire_request b.opts m p) { loop = some (record b { i = b.i + 1 }) }

module _ (b : BurstLoop) (m : Moment) (p : Playground) (ref : p.burst_ref ≡ true) where
  burst_round-fires : b.i < 20 → burst_round b m p ≡ fired b m p
  unfolding burst_round
  burst_round-fires h = let test : ltb b.i 20 ≡ true = ground arith in simp (test, ref)

  burst_round-ends :
      b.i ≡ 20 → burst_round b m p ≡ record p { bursting = false; burst_ref = false; loop = none }
  unfolding burst_round
  burst_round-ends h = let test : ltb b.i 20 ≡ false = ground arith in simp test

resume-some :
    (b : BurstLoop) (o : Option BurstLoop) (m : Moment) (p : Playground)
    → o ≡ some b
    → resume o m p ≡ burst_round b m p
unfolding resume
resume-some b o m p e = rw e

fired-burst_ref :
    (b : BurstLoop) (m : Moment) (p : Playground)
    → p.burst_ref ≡ true
    → (fired b m p).burst_ref ≡ true
unfolding fire_request
fired-burst_ref b m p h = h

-- The page when a burst enters its loop.
abbrev started : Playground → Playground
started p = record p { bursting = true; burst_ref = true }

handle_burst_idle :
    (m : Moment) (p : Playground)
    → p.bursting ≡ false
    → handle_burst m p ≡ burst_round (record { opts = options_of p; i = 0 }) m (started p)
unfolding handle_burst
handle_burst_idle m p h = simp h

Finished-started :
    (rounds : List Request) (p q : Playground) → Finished rounds (started p) q → Finished rounds p q
Finished-started rounds p q h = record {
  sim = h.sim;
  log_id = h.log_id;
  bursting = h.bursting;
  burst_ref = h.burst_ref;
  loop = h.loop;
}

Finished-fired :
    (rounds : List Request) (b : BurstLoop) (m : Moment) (p q : Playground)
    → Finished rounds (fired b m p) q
    → Finished (request b.opts m ∷ rounds) p q
unfolding fire_request after
Finished-fired rounds b m p q h = record {
  sim = h.sim;
  log_id = omega (arith, h.log_id);
  bursting = h.bursting;
  burst_ref = h.burst_ref;
  loop = h.loop;
}

wakes_finish :
    (ms : List Moment) (last : Moment) (opts : CheckOptions) (i : ℕ) (p : Playground)
    → i + length ms ≡ 20
    → p.burst_ref ≡ true
    → p.loop ≡ some (record { opts = opts; i = i })
    → Finished (map (request opts) ms) p (run (map wake (ms ++ (last ∷ []))) p)
unfolding step burst_wake run after
wakes_finish [] last opts i p e ref going =
    rw
      (
        resume-some (record { opts = opts; i = i }) p.loop last p going,
        burst_round-ends (record { opts = opts; i = i }) last p ref (omega arith),
      )
      (record { sim = refl; log_id = omega arith; bursting = refl; burst_ref = refl; loop = refl })
wakes_finish (m ∷ ms) last opts i p e ref going =
    let b : BurstLoop = record { opts = opts; i = i } in
    let woken : step (wake m) p ≡ fired b m p =
      resume-some b p.loop m p going ∙ burst_round-fires b m p ref (omega arith) in
    subst (λ x. Finished (map (request opts) (m ∷ ms)) p (run (map wake (ms ++ (last ∷ []))) x))
      (sym woken)
      (Finished-fired (map (request opts) ms) b m p
        (run (map wake (ms ++ (last ∷ []))) (fired b m p))
        (wakes_finish ms last opts (i + 1) (fired b m p) (omega arith) (fired-burst_ref b m p ref)
          refl))

-- A burst makes exactly twenty requests, all with the configuration that the page had at the click,
-- one at the click and one each time that the timer wakes it, and then ends: if the page is not
-- bursting, and nothing else happens between a click and twenty wake-ups, the simulator has served
-- those requests and the page is idle again.
pub burst_serves_twenty :
    (first : Moment) (ms : List Moment) (last : Moment) (p : Playground)
    → p.bursting ≡ false
    → length ms ≡ 19
    → Finished
        (map (request (options_of p)) (first ∷ ms))
        p
        (run (click_burst first ∷ map wake (ms ++ (last ∷ []))) p)
unfolding run step
burst_serves_twenty first ms last p idle e =
    let b : BurstLoop = record { opts = options_of p; i = 0 } in
    let p' = fired b first (started p) in
    let q = run (map wake (ms ++ (last ∷ []))) p' in
    let begun : handle_burst first p ≡ p' =
      handle_burst_idle first p idle ∙ burst_round-fires b first (started p) refl (omega arith) in
    subst
      (λ x.
        Finished (map (request (options_of p)) (first ∷ ms)) p
          (run (map wake (ms ++ (last ∷ []))) x))
      (sym begun)
      (Finished-started (map (request (options_of p)) (first ∷ ms)) p q (
        Finished-fired (map (request (options_of p)) ms) b first (started p) q (
          wakes_finish ms last (options_of p) 1 p' (omega arith)
            (fired-burst_ref b first (started p) refl) refl)))

count_split :
    (es : List LogEntry)
    → length (keep_if (λ (e : LogEntry). e.allowed) es)
        + length (keep_if (λ (e : LogEntry). not e.allowed) es)
      ≡ length es
count_split [] = omega arith
count_split (e ∷ es) = ground (arith, count_split es)

-- Under the log the page shows three numbers that agree: the lines are the allowed and the rejected.
pub allowed_count-add-rejected_count :
    (p : Playground) → allowed_count p + rejected_count p ≡ length p.log
unfolding allowed_count rejected_count
allowed_count-add-rejected_count p = count_split p.log
