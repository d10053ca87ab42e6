-- ===== src/Backend/RateLimit/Agreement/Service.antt =====
-- The service's answers, call by call.
use shard_leak.Common.{
  ◌*◌, Bool-cases, inl, inr, true, ℕ, ◌/◌, ◌<◌, ◌≡◌, List, [], ◌∷◌, refl, ap, Option, some,
}
use shard_leak.Common.Texts.{Text}
use shard_leak.Backend.Redis.{Redis, IsLawful}
use shard_leak.Backend.RateLimit.{
  Request, Result, token_bucket, fixed_window, Link, up, unreachable, cut, over, check,
  check_token_bucket, check_fixed_window, rate_of,
}
use shard_leak.Backend.RateLimit.Agreement.{
  Policy, Call, InOrder, simulated, requested, result_of, simulator_answers, service_answers,
  on_window, of_windows, parse_result-values_of,
}
use shard_leak.Backend.RateLimit.Agreement.Entries.{lim, win, window_at, decision-fixed_window}
use shard_leak.Backend.RateLimit.Agreement.Runs.{
  Agrees, empty-Agrees, later-Agrees, window_run, window_run-values, bucket_run-Agrees,
  window_run-Agrees,
}
use shard_leak.Simulator
use shard_leak.Simulator.{Simulator, new_simulator, count_request}
use shard_leak.Simulator.Schedule.{serve}

-- The connection is apart from what the scripts do.
check-over :
    (R : Redis) (link : Link) (now : ℕ) (req : Request) (db : R.Db)
    → check R link now req db ≡ over link db (check R up now req db)
unfolding check check_token_bucket check_fixed_window
check-over R link now req db =
    elim req.algorithm
      as (λ a.
        check R link now (record req { algorithm = a }) db
        ≡ over link db (check R up now (record req { algorithm = a }) db)) [
          | token_bucket ↦ refl
          | fixed_window ↦ refl
        ]

module _ (policy : Text → Policy) (limits : (id : Text) → 0 < (policy id).limit)
    (windows : (id : Text) → 0 < (policy id).window_seconds) (R : Redis) (L : IsLawful R) where
  -- One call that reaches Redis: what is held agrees again, and a fixed window's answers are equal.
  record Step (c : Call) (s : Simulator) (db : R.Db) : Type 0 where
    ran : R.Db
    value : Option Result
    done : check R up c.now_ms (requested policy c) db ≡ (ran, value)
    same :
        on_window c ≡ true
        → value
          ≡ some (result_of (policy c.identifier).limit (serve (simulated policy c) s).1.decision)
    agrees : Agrees policy limits windows R L c.now_ms (serve (simulated policy c) s).0 ran

  step :
      (link : Link) (id : Text) (algorithm : Simulator.Algorithm) (now spent random : ℕ)
      (s : Simulator) (db : R.Db)
      → Agrees policy limits windows R L now s db
      → Step
          (record {
            link = link;
            identifier = id;
            algorithm = algorithm;
            now_ms = now;
            spent = spent;
            random = random;
          })
          s
          db
  unfolding check check_token_bucket check_fixed_window
  step link id Simulator.token_bucket now spent random s db a = record {
    ran = _;
    value = _;
    done = refl;
    same = λ e. cc;
    agrees =
        bucket_run-Agrees policy limits windows R L id now spent random s db a (policy id).limit
          (rate_of R.double (policy id).limit (policy id).window_seconds)
          ((policy id).window_seconds * 2);
  }
  step link id Simulator.fixed_window now spent random s db a = record {
    ran = (window_run policy limits windows R L id now spent random s db a).0;
    value = _;
    done =
        rw
          (
            window_run-values policy limits windows R L id now spent random s db a,
            decision-fixed_window policy id now spent random s,
          )
          (ap (λ v. ((window_run policy limits windows R L id now spent random s db a).0, v))
            (parse_result-values_of (policy id).limit
              (count_request (lim policy id) (win policy id) (now / 1000)
                (window_at policy id s)).1));
    same = λ e. refl;
    agrees = window_run-Agrees policy limits windows R L id now spent random s db a;
  }

  -- A call, whatever becomes of it: what is lost on one side is lost on the other.
  over-Agrees :
      (link : Link) (now : ℕ) (s s1 : Simulator) (db db1 : R.Db) (o q : Option Result)
      → Agrees policy limits windows R L now s db
      → Agrees policy limits windows R L now s1 db1
      → Agrees policy limits windows R L now (over link s (s1, q)).0 (over link db (db1, o)).0
  over-Agrees up now s s1 db db1 o q a b = b
  over-Agrees unreachable now s s1 db db1 o q a b = a
  over-Agrees cut now s s1 db db1 o q a b = b

  over_answer :
      (link : Link) (s s1 : Simulator) (db db1 : R.Db) (o q : Option Result)
      → o ≡ q
      → (over link db (db1, o)).1 ≡ (over link s (s1, q)).1
  over_answer up s s1 db db1 o q e = e
  over_answer unreachable s s1 db db1 o q e = refl
  over_answer cut s s1 db db1 o q e = refl

  answers_from :
      (cs : List Call) (from : ℕ) (s : Simulator) (db : R.Db)
      → InOrder from cs
      → Agrees policy limits windows R L from s db
      → of_windows cs (service_answers R policy cs db)
        ≡ of_windows cs (simulator_answers policy cs s)
  unfolding service_answers simulator_answers
  answers_from [] from s db h a = refl
  answers_from (c ∷ cs) from s db h a =
      let a' = later-Agrees policy limits windows R L from c.now_ms s db h.0 a in
      let st = step c.link c.identifier c.algorithm c.now_ms c.spent c.random s db a' in
      let s1 = (serve (simulated policy c) s).0 in
      let decided : Option Result =
        some (result_of (policy c.identifier).limit (serve (simulated policy c) s).1.decision) in
      let next = over-Agrees c.link c.now_ms s s1 db st.ran st.value decided a' st.agrees in
      let rest = answers_from cs c.now_ms _ _ h.1 next in
      rw (check-over R c.link c.now_ms (requested policy c) db, st.done)
        (elim (Bool-cases (on_window c)) [
          | inl window ↦
              let same = over_answer c.link s s1 db st.ran st.value decided (st.same window) in
              rw (window, same) (ap (λ more. (over c.link s (s1, decided)).1 ∷ more) rest)
          | inr bucket ↦ rw bucket rest
        ])

  -- On fixed windows the backend answers as the simulator does. Take any sequence of calls with a clock
  -- that does not fall, on any identifiers and with either algorithm, each on a connection that works,
  -- that does not reach Redis, or that loses the answer; with one limit and one window for each
  -- identifier, both above 0, and a Redis that has the laws of its commands and is empty at the start.
  -- Then `Service.Check` returns for each call of a fixed window what a new simulator behind the same
  -- connection decides: the same `allowed`, `remaining`, reset time and wait, or no result where the
  -- connection lost it. The calls of token buckets in between, with whatever rounding, change nothing
  -- of it.
  pub service-simulator :
      (cs : List Call)
      → InOrder 0 cs
      → of_windows cs (service_answers R policy cs R.empty)
        ≡ of_windows cs (simulator_answers policy cs new_simulator)
  service-simulator cs h =
      answers_from cs 0 new_simulator R.empty h (empty-Agrees policy limits windows R L)
