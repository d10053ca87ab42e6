-- ===== src/Backend/RateLimit/Agreement/Runs.antt =====
-- What one run of a script leaves in Redis, against what the simulator's call leaves in its maps.
use shard_leak.Common.{ℕ, ◌/◌, ◌≤◌, ◌<◌, ◌≡◌, List, arith, Bool-cases, inl, inr}
use shard_leak.Common.Texts.{Text, text_eq, text_eq_iff, text_eq_refl}
use shard_leak.Backend.Redis.{Redis, IsLawful}
use shard_leak.Backend.RateLimit.{bucket_key, window_key, token_bucket_lua}
use shard_leak.Backend.Fraction.{Fraction}
use shard_leak.Backend.RateLimit.WindowRun
use shard_leak.Backend.RateLimit.WindowRun.{key_at, count_of}
use shard_leak.Backend.RateLimit.Keys.{bucket_key-key_at, text_eq-key_at}
use shard_leak.Backend.RateLimit.Agreement.{Policy}
use shard_leak.Backend.RateLimit.Agreement.Entries.{
  lim, win, window_at, after, window_at-after, window_at-token_bucket,
}
use shard_leak.Simulator
use shard_leak.Simulator.{Simulator, new_simulator, window_of, take_token, count_request}
use shard_leak.Backend.RateLimit.Step.{values_of}
use shard_leak.Common.JsMap.{get}
use shard_leak.Simulator.Window.{used, StartsBy, window_of_mono, entry-StartsBy}
use shard_leak.Simulator.Window.History.{StartsBy-mono}

module _ (policy : Text → Policy) (limits : (id : Text) → 0 < (policy id).limit)
    (windows : (id : Text) → 0 < (policy id).window_seconds) (R : Redis) (L : IsLawful R) where
  -- From a time on, Redis counts for every identifier what the simulator counts.
  pub record Agrees (from : ℕ) (s : Simulator) (db : R.Db) : Type 0 where
    pub counters :
        (id : Text) (t : ℕ)
        → from ≤ t
        → R.get (key_at (window_key id) (win policy id) t) t db
          ≡ count_of (used (window_of (win policy id) (t / 1000)) (window_at policy id s))
    pub starts :
        (id : Text) → StartsBy (window_of (win policy id) (from / 1000)) (window_at policy id s)

  pub empty-Agrees : Agrees 0 new_simulator R.empty
  unfolding new_simulator get
  empty-Agrees = record {
    counters = λ id t h. L.get-empty (key_at (window_key id) (win policy id) t) t;
    starts = λ id. tt;
  }

  pub later-Agrees :
      (from now : ℕ) (s : Simulator) (db : R.Db) → from ≤ now → Agrees from s db → Agrees now s db
  later-Agrees from now s db h a = record {
    counters = λ id t k. a.counters id t (omega arith);
    starts = λ id.
        StartsBy-mono (window_of (win policy id) (from / 1000))
          (window_of (win policy id) (now / 1000)) (window_at policy id s)
          (window_of_mono (win policy id) (from / 1000) (now / 1000) (omega arith)) (a.starts id);
  }

  module _ (id0 : Text) (now spent random : ℕ) (s : Simulator) (db : R.Db)
      (a : Agrees now s db) where
    abbrev l : ℕ
    l = lim policy id0

    abbrev w : ℕ
    w = win policy id0

    abbrev pub window_run : R.Db × List ℕ
    window_run =
        WindowRun.ran R L (window_key id0) l w now (limits id0) (windows id0)
          (window_at policy id0 s) db

    pub window_run-values :
        window_run.1 ≡ values_of (count_request l w (now / 1000) (window_at policy id0 s)).1
    window_run-values =
        WindowRun.values-ran R L (window_key id0) l w now (limits id0) (windows id0)
          (window_at policy id0 s) db (a.counters id0 now (omega arith))

    -- A bucket's script leaves the counters alone, whatever it writes.
    bucket_run-counters :
        (limit : ℕ) (rate : Fraction) (ttl : ℕ) (id : Text) (t : ℕ)
        → now ≤ t
        → R.get
            (key_at (window_key id) (win policy id) t)
            t
            (token_bucket_lua R (bucket_key id0) limit rate now ttl db).0
          ≡ R.get (key_at (window_key id) (win policy id) t) t db
    unfolding token_bucket_lua
    bucket_run-counters limit rate ttl id t h =
        L.get-expire-hset (bucket_key id0) (key_at (window_key id) (win policy id) t) _ ttl now t db
          (bucket_key-key_at id0 id (win policy id) (win policy id) t t) h

    pub bucket_run-Agrees :
        (limit : ℕ) (rate : Fraction) (ttl : ℕ)
        → Agrees now
            (after policy id0 now spent random s Simulator.token_bucket)
            (token_bucket_lua R (bucket_key id0) limit rate now ttl db).0
    bucket_run-Agrees limit rate ttl = record {
      counters = λ id t h.
          rw
            (
              bucket_run-counters limit rate ttl id t h,
              window_at-token_bucket policy id0 now spent random s id,
            )
            (a.counters id t h);
      starts = λ id. rw (window_at-token_bucket policy id0 now spent random s id) (a.starts id);
    }

    window_run-counters :
        (id : Text) (t : ℕ)
        → now ≤ t
        → R.get (key_at (window_key id) (win policy id) t) t window_run.0
          ≡ count_of (
              used
                (window_of (win policy id) (t / 1000))
                (window_at policy id (after policy id0 now spent random s Simulator.fixed_window)))
    window_run-counters id t h = elim (Bool-cases (text_eq id0 id)) [
      | inl same ↦ rw (← (text_eq_iff id0 id).0 same) (
          rw (window_at-after policy id0 now spent random s id0, text_eq_refl id0)
            (WindowRun.get-ran R L (window_key id0) l w now (limits id0) (windows id0)
              (window_at policy id0 s) db (a.starts id0) (a.counters id0) t h))
      | inr other ↦
          rw
            (
              WindowRun.get-ran_other R L (window_key id0) l w now (limits id0) (windows id0)
                  (window_at policy id0 s) db (a.counters id0 now (omega arith))
                  (key_at (window_key id) (win policy id) t) t
                  (text_eq-key_at id0 id w (win policy id) now t other) h,
              window_at-after policy id0 now spent random s id,
              other,
            )
            (a.counters id t h)
    ]

    window_run-starts :
        (id : Text)
        → StartsBy
            (window_of (win policy id) (now / 1000))
            (window_at policy id (after policy id0 now spent random s Simulator.fixed_window))
    window_run-starts id = elim (Bool-cases (text_eq id0 id)) [
      | inl same ↦
          rw (window_at-after policy id0 now spent random s id, same)
            (entry-StartsBy (lim policy id) (win policy id) (now / 1000) (window_at policy id s)
              (a.starts id))
      | inr other ↦ rw (window_at-after policy id0 now spent random s id, other) (a.starts id)
    ]

    pub window_run-Agrees :
        Agrees now (after policy id0 now spent random s Simulator.fixed_window) window_run.0
    window_run-Agrees = record { counters = window_run-counters; starts = window_run-starts }
