-- ===== src/Backend/RateLimit/WindowRun.antt =====
-- `fixedWindowLua` on one identifier's keys, against a fixed window of the simulator.
use shard_leak.Common.{
  ℕ, zero, suc, ◌+◌, ◌-◌, ◌*◌, ◌/◌, ◌≤◌, ◌<◌, ◌≡◌, true, false, Option, none, some, List, [], ◌∷◌,
  ◌++◌, ltb, ◌==◌, if◌then◌else◌, get_or, refl, ap, arith, Bool-cases, inl, inr,
}
use shard_leak.Common.Texts.{
  Text, text_eq, text_eq_iff, text_eq_refl, decimal, decimal-injective, decimal-NoColon, split_last,
}
use shard_leak.Backend.Redis.{Redis, IsLawful}
use shard_leak.Backend.RateLimit.{fixed_window_lua}
use shard_leak.Backend.RateLimit.Step.{values_of}
use shard_leak.Simulator.{FwState, count_request, window_of}
use shard_leak.Simulator.Window.{
  used, entry, StartsBy, window_of_mono, count_request-allowed, used-entry, entry-StartsBy,
}
use shard_leak.Simulator.Window.History.{used_before}
use native.Mathlib.Nat.{lt-div-mul-add}

-- A counter in Redis: there is none before the first request.
abbrev pub count_of : ℕ → Option ℕ
count_of zero = none
count_of (suc n) = some (suc n)

get_or-count_of : (n : ℕ) → get_or (count_of n) 0 ≡ n
get_or-count_of zero = refl
get_or-count_of (suc n) = refl

-- The key of the window that holds a time.
abbrev pub key_at : Text → ℕ → ℕ → Text
key_at key w t = key ++ (b':' ∷ decimal (window_of w (t / 1000)))

module _ (limit w now : ℕ) (hl : 0 < limit) (found : Option FwState) where
  abbrev secs : ℕ
  secs = now / 1000

  abbrev n : ℕ
  n = used (window_of w secs) found

  -- The list that the script returns, from the count that it reads.
  values-count :
      (if ltb n limit
        then 1 ∷ (limit - (n + 1)) ∷ (window_of w secs + w) ∷ 0 ∷ []
        else 0 ∷ (limit - n) ∷ (window_of w secs + w) ∷ (window_of w secs + w - secs) ∷ [])
      ≡ values_of (count_request limit w secs found).1
  unfolding count_request
  values-count = ground arith

  entry_rejected : ltb n limit ≡ false → entry limit w secs found ≡ found
  unfolding count_request
  entry_rejected h = ground arith

ends_after : (w t : ℕ) → 0 < w → t < 1000 * (window_of w (t / 1000) + w)
ends_after w t h = omega (arith, lt-div-mul-add {a = t / 1000} {b = w} h)

key_at-injective :
    (key : Text) (w t u : ℕ)
    → key_at key w t ≡ key_at key w u
    → window_of w (t / 1000) ≡ window_of w (u / 1000)
key_at-injective key w t u e =
    decimal-injective (window_of w (t / 1000)) (window_of w (u / 1000))
      (split_last key key (decimal (window_of w (t / 1000))) (decimal (window_of w (u / 1000)))
        (decimal-NoColon (window_of w (t / 1000))) (decimal-NoColon (window_of w (u / 1000))) e).1

module _ (R : Redis) (L : IsLawful R) (key : Text) (limit w now : ℕ) (hl : 0 < limit) (hw : 0 < w)
    (found : Option FwState) (db : R.Db) where
  abbrev pub ran : R.Db × List ℕ
  ran = fixed_window_lua R key limit w (now / 1000) now db

  abbrev here : Text
  here = key_at key w now

  abbrev count : ℕ
  count = used (window_of w (now / 1000)) found

  -- The database after a request that is allowed, behind `n` others.
  abbrev stored : ℕ → R.Db
  stored n =
      if n + 1 == 1
      then R.expireat here (window_of w (now / 1000) + w) now (R.incr here now db).0
      else (R.incr here now db).0

  get-stored :
      (n : ℕ) (j : Text) (t : ℕ)
      → R.get here now db ≡ count_of n
      → now ≤ t
      → t < 1000 * (window_of w (now / 1000) + w)
      → R.get here t db ≡ count_of n
      → R.get j t (stored n) ≡ (if text_eq here j then count_of (n + 1) else R.get j t db)
  get-stored zero j t read h early same =
      ground (arith, L.get-expireat-incr here j (window_of w (now / 1000) + w) now t db read h)
  get-stored (suc n) j t read h early same = ground (arith, L.get-incr here j now t db read h)

  get-stored_other :
      (n : ℕ) (j : Text) (t : ℕ)
      → R.get here now db ≡ count_of n
      → now ≤ t
      → text_eq here j ≡ false
      → R.get j t (stored n) ≡ R.get j t db
  get-stored_other zero j t read h other =
      ground (arith, L.get-expireat-incr here j (window_of w (now / 1000) + w) now t db read h)
  get-stored_other (suc n) j t read h other = ground (arith, L.get-incr here j now t db read h)

  module _ (read : R.get here now db ≡ count_of count) where
    counted : get_or (R.get here now db) 0 ≡ count
    counted = rw read (get_or-count_of count)

    bumped : (R.incr here now db).1 ≡ count + 1
    bumped = rw (L.incr_value here now db, counted)

    ran_allowed :
        ltb count limit ≡ true
        → ran ≡ (stored count, 1 ∷ (limit - (count + 1)) ∷ (window_of w (now / 1000) + w) ∷ 0 ∷ [])
    unfolding fixed_window_lua
    ran_allowed room = rw (counted, bumped, room)

    ran_rejected :
        ltb count limit ≡ false
        → ran ≡ (
          db,
          0
              ∷ (limit - count)
              ∷ (window_of w (now / 1000) + w)
              ∷ (window_of w (now / 1000) + w - now / 1000)
              ∷ [],
        )
    unfolding fixed_window_lua
    ran_rejected room = rw (counted, bumped, room)

    pub values-ran : ran.1 ≡ values_of (count_request limit w (now / 1000) found).1
    values-ran =
        let values = values-count limit w now hl found in
        elim (Bool-cases (ltb count limit)) [
          | inl room ↦ rw (ran_allowed room) (rw room at values)
          | inr full ↦ rw (ran_rejected full) (rw full at values)
        ]

    -- The keys that a run leaves alone.
    pub get-ran_other :
        (j : Text) (t : ℕ) → text_eq here j ≡ false → now ≤ t → R.get j t ran.0 ≡ R.get j t db
    get-ran_other j t other h = elim (Bool-cases (ltb count limit)) [
      | inl room ↦ rw (ran_allowed room) (get-stored_other count j t read h other)
      | inr full ↦ rw (ran_rejected full)
    ]

    -- The counter of the window is one more if the request is allowed.
    get-ran_here :
        (t : ℕ)
        → now ≤ t
        → t < 1000 * (window_of w (now / 1000) + w)
        → R.get here t db ≡ count_of count
        → R.get here t ran.0
          ≡ count_of (used (window_of w (now / 1000)) (entry limit w (now / 1000) found))
    get-ran_here t h early same = elim (Bool-cases (ltb count limit)) [
      | inl room ↦ rw (
        ran_allowed room,
        get-stored count here t read h early same,
        text_eq_refl here,
        used-entry limit w (now / 1000) found,
        count_request-allowed limit w (now / 1000) found hl,
        room,
      )
      | inr full ↦
          rw
            (
              ran_rejected full,
              used-entry limit w (now / 1000) found,
              count_request-allowed limit w (now / 1000) found hl,
              full,
              same,
            )
            (ap count_of (omega arith))
    ]

  -- At every later time, the window that holds it has its counter.
  pub get-ran :
      StartsBy (window_of w (now / 1000)) found
      → ((t : ℕ)
          → now ≤ t
          → R.get (key_at key w t) t db ≡ count_of (used (window_of w (t / 1000)) found))
      → (t : ℕ) → now ≤ t
      → R.get (key_at key w t) t ran.0
        ≡ count_of (used (window_of w (t / 1000)) (entry limit w (now / 1000) found))
  get-ran starts read t h = elim (Bool-cases (window_of w (now / 1000) == window_of w (t / 1000))) [
    | inl same ↦
        let e : window_of w (now / 1000) ≡ window_of w (t / 1000) = ground arith in
        let at_now = read now (omega arith) in
        let at_t = read t h in
        let early = ends_after w t hw in
        rw (← e) (get-ran_here at_now t h (rw (← e) at early) (rw (← e) at at_t))
    | inr later ↦
        let lt : window_of w (now / 1000) < window_of w (t / 1000) =
          ground (arith, window_of_mono w (now / 1000) (t / 1000) (omega arith)) in
        let other : text_eq here (key_at key w t) ≡ false =
          ground (arith, text_eq_iff here (key_at key w t), key_at-injective key w now t) in
        rw (
          get-ran_other (read now (omega arith)) (key_at key w t) t other h,
          read t h,
          used_before (window_of w (now / 1000)) (window_of w (t / 1000)) found lt starts,
          used_before (window_of w (now / 1000)) (window_of w (t / 1000))
              (entry limit w (now / 1000) found) lt
              (entry-StartsBy limit w (now / 1000) found starts),
        )
  ]
