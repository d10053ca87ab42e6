-- ===== src/Simulator/Window.antt =====
-- frontend-demo/lib/simulator.ts, `fixedWindow` and `peekWindow`: what one check reads and writes.
pub mod Limit
pub mod History
use shard_leak.Common.{
  ℕ, zero, suc, ◌+◌, ◌-◌, ◌*◌, ◌/◌, ◌%◌, ◌≤◌, ◌<◌, ◌≡◌, Bool, true, false, Option, none, some, List,
  refl, ap, ltb, leb, ◌==◌, if◌then◌else◌, arith, ◌&&◌, ◌||◌, mul_mono,
}
use native.Mathlib.Nat.{le-div_iff_mul-le, div-mul-le_self}
use shard_leak.Common.JsMap.{get, set, get-set}
use shard_leak.Common.Texts.{Text, text_eq, text_eq_iff}
use shard_leak.Simulator.{
  FwState, Simulator, Decision, count_request, fw_key, check_fixed_window, peek_window, view_of,
  write_back, window_of, check, decide_request, check_token_bucket,
}
use shard_leak.Simulator.Schedule.{Request, serve, on_window}
use shard_leak.Simulator.Keys.{same_triple, text_eq-fw_key}

-- The requests that an entry counts against the window that starts at `start`.
abbrev pub used : ℕ → Option FwState → ℕ
used start none = 0
used start (some state) = if ltb state.window_start start then 0 else state.count

-- The entry after a write that may be none.
abbrev pub written_or : Option FwState → Option FwState → Option FwState
written_or none found = found
written_or (some state) found = some state

-- The entry's window starts no later than `start`.
abbrev pub StartsBy : ℕ → Option FwState → Type 0
StartsBy start none = Unit
StartsBy start (some state) = state.window_start ≤ start

pub window_of_mono : (w a b : ℕ) → a ≤ b → window_of w a ≤ window_of w b
window_of_mono zero a b h = omega arith
window_of_mono (suc w) a b h =
    mul_mono (a / suc w) (b / suc w) (suc w)
      ((le-div_iff_mul-le (omega arith)).1 (omega (arith, div-mul-le_self a (suc w))))

used-view_of :
    (w now : ℕ) (found : Option FwState)
    → (view_of w now found).count ≡ used (window_of w now) found
used-view_of w now none = refl
used-view_of w now (some state) = ground arith

-- `peekWindow` counts against the window of its own time.
pub peek_window-used :
    (id : Text) (limit w now : ℕ) (s : Simulator)
    → (peek_window id limit w now s).count
      ≡ used (window_of w (now / 1000)) (get (fw_key id limit w) s.fw)
unfolding peek_window
peek_window-used id limit w now s = used-view_of w (now / 1000) (get (fw_key id limit w) s.fw)

-- One request, at a time in the window that starts at `window_of w now`.
module _ (limit w now : ℕ) (found : Option FwState) where
  abbrev pub entry : Option FwState
  entry = written_or (count_request limit w now found).0 found

  pub count_request-allowed :
      0 < limit
      → (count_request limit w now found).1.allowed ≡ ltb (used (window_of w now) found) limit
  unfolding count_request
  count_request-allowed h = ground arith

  -- The window of the request counts it if it is allowed.
  pub used-entry :
      used (window_of w now) entry
      ≡ used (window_of w now) found
        + (if (count_request limit w now found).1.allowed then 1 else 0)
  unfolding count_request
  used-entry = ground arith

  -- No later window loses a count.
  pub used-entry_later : (start : ℕ) → window_of w now ≤ start → used start found ≤ used start entry
  unfolding count_request
  used-entry_later start h = ground arith

  pub entry-StartsBy : StartsBy (window_of w now) found → StartsBy (window_of w now) entry
  unfolding count_request
  entry-StartsBy h = ground arith

get-write_back :
    (id : Text) (limit w : ℕ) (id' : Text) (limit' w' : ℕ) (written : Option FwState)
    (m : List (Text × FwState))
    → get (fw_key id' limit' w') (write_back (fw_key id limit w) written m) ≡ (
        if same_triple id limit w id' limit' w'
        then written_or written (get (fw_key id limit w) m)
        else get (fw_key id' limit' w') m)
get-write_back id limit w id' limit' w' none m = ground (arith, text_eq_iff id id')
get-write_back id limit w id' limit' w' (some state) m = rw (get-set, text_eq-fw_key)

-- What the map holds after a fixed-window check, at every key of a fixed window.
pub get-check_fixed_window :
    (id : Text) (limit w now : ℕ) (s : Simulator) (id' : Text) (limit' w' : ℕ)
    → get (fw_key id' limit' w') (check_fixed_window id limit w now s).0.fw ≡ (
        if same_triple id limit w id' limit' w'
        then entry limit w (now / 1000) (get (fw_key id limit w) s.fw)
        else get (fw_key id' limit' w') s.fw)
unfolding check_fixed_window
get-check_fixed_window id limit w now s id' limit' w' =
    get-write_back id limit w id' limit' w'
      (count_request limit w (now / 1000) (get (fw_key id limit w) s.fw)).0 s.fw

module _ (id : Text) (limit w : ℕ) (r : Request) (s : Simulator) where
  -- What a call leaves in a fixed window: its own is stepped, every other is as it was.
  pub get-serve : get (fw_key id limit w) (serve r s).0.fw ≡ (
      if on_window id limit w r
      then entry limit w (r.now_ms / 1000) (get (fw_key id limit w) s.fw)
      else get (fw_key id limit w) s.fw)
  unfolding check check_token_bucket
  get-serve = ground (
    arith,
    text_eq_iff r.opts.identifier id,
    get-check_fixed_window r.opts.identifier r.opts.limit r.opts.window_seconds r.now_ms s id limit
        w,
  )

  pub decision-serve :
      on_window id limit w r ≡ true
      → (serve r s).1.decision
        ≡ (count_request limit w (r.now_ms / 1000) (get (fw_key id limit w) s.fw)).1
  unfolding check check_fixed_window
  decision-serve h = ground (arith, text_eq_iff r.opts.identifier id)

  pub allowed-serve :
      on_window id limit w r ≡ true
      → (serve r s).1.decision.allowed
        ≡ (count_request limit w (r.now_ms / 1000) (get (fw_key id limit w) s.fw)).1.allowed
  allowed-serve h = ap (λ d. d.allowed) (decision-serve h)
