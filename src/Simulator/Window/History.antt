-- ===== src/Simulator/Window/History.antt =====
-- frontend-demo/lib/simulator.ts, `fixedWindow`: the stored counter against the list of the calls
-- made so far.
use shard_leak.Common.{
  ℕ, ◌+◌, ◌-◌, ◌/◌, ◌≤◌, ◌<◌, min, List, [], ◌∷◌, ◌≡◌, true, Option, none, some, if◌then◌else◌, ltb,
  ◌==◌, ==_iff, arith, Bool-cases, inl, inr, refl,
}
use native.Mathlib.Nat.{add_assoc}
use shard_leak.Common.Int.{pos}
use shard_leak.Common.JsMap.{get}
use shard_leak.Common.Texts.{Text}
use shard_leak.Simulator.{Simulator, FwState, fw_key, window_of, count_request, new_simulator}
use shard_leak.Simulator.Schedule.{
  Request, serve, asked, after, Timed, Timed-le, on_window, in_window,
}
use shard_leak.Simulator.Window.{
  used, entry, StartsBy, window_of_mono, count_request-allowed, used-entry, entry-StartsBy,
  get-serve, decision-serve,
}

pub StartsBy-mono : (a b : ℕ) (found : Option FwState) → a ≤ b → StartsBy a found → StartsBy b found
StartsBy-mono a b none h k = tt
StartsBy-mono a b (some state) h k = omega arith

pub used_before :
    (a start : ℕ) (found : Option FwState) → a < start → StartsBy a found → used start found ≡ 0
used_before a start none h k = refl
used_before a start (some state) h k = ground arith

entry_counts :
    (limit w now start n : ℕ) (found : Option FwState)
    → 0 < limit
    → window_of w now ≤ start
    → StartsBy (window_of w now) found
    → used start found ≡ min limit n
    → used start (entry limit w now found)
      ≡ min limit (n + (if window_of w now == start then 1 else 0))
entry_counts limit w now start n found room early h e =
    elim (Bool-cases (window_of w now == start)) [
      | inl here ↦
          let same : window_of w now ≡ start = (==_iff (window_of w now) start).0 here in
          rw (← same, (==_iff (window_of w now) (window_of w now)).1 refl)
            (ground (
              arith,
              same,
              rw (← same) at e,
              used-entry limit w now found,
              count_request-allowed limit w now found room,
            ))
      | inr earlier ↦
          let lt : window_of w now < start = ground arith in
          rw
            (
              earlier,
              used_before (window_of w now) start (entry limit w now found) lt
                  (entry-StartsBy limit w now found h),
            )
            (omega (arith, e, used_before (window_of w now) start found lt h))
    ]

module _ (id : Text) (limit w start : ℕ) (room : 0 < limit) where
  -- The entry counts the calls of the window, up to the limit; `n` is the number of those before.
  record Counts (from n : ℕ) (s : Simulator) : Type 0 where
    starts : StartsBy (window_of w (from / 1000)) (get (fw_key id limit w) s.fw)
    counts : used start (get (fw_key id limit w) s.fw) ≡ min limit n

  Counts-serve :
      (r : Request) (s : Simulator) (from n : ℕ)
      → from ≤ r.now_ms
      → window_of w (r.now_ms / 1000) ≤ start
      → Counts from n s
      → Counts r.now_ms (n + (if in_window id limit w start r then 1 else 0)) (serve r s).0
  Counts-serve r s from n h early c =
      let found = get (fw_key id limit w) s.fw in
      let now = r.now_ms / 1000 in
      let later =
        StartsBy-mono (window_of w (from / 1000)) (window_of w now) found
          (window_of_mono w (from / 1000) now (omega arith)) c.starts in
      elim (Bool-cases (on_window id limit w r)) [
        | inl on ↦ record {
          starts = rw (get-serve id limit w r s, on) (entry-StartsBy limit w now found later);
          counts =
              rw (get-serve id limit w r s, on)
                (entry_counts limit w now start n found room early later c.counts);
        }
        | inr off ↦ record {
          starts = rw (get-serve id limit w r s, off) later;
          counts = rw (get-serve id limit w r s, off) (omega (arith, c.counts));
        }
      ]

  Counts-after :
      (rs : List Request) (s : Simulator) (from to n : ℕ)
      → Timed from rs to
      → window_of w (to / 1000) ≤ start
      → Counts from n s
      → Counts to (n + asked (in_window id limit w start) rs) (after rs s)
  unfolding asked after
  Counts-after [] s from to n h early c = record {
    starts =
        StartsBy-mono (window_of w (from / 1000)) (window_of w (to / 1000))
          (get (fw_key id limit w) s.fw) (window_of_mono w (from / 1000) (to / 1000) (omega arith))
          c.starts;
    counts = omega (arith, c.counts);
  }
  Counts-after (r ∷ rs) s from to n h early c =
      let soon =
        window_of_mono w (r.now_ms / 1000) (to / 1000)
          (omega (arith, Timed-le r.now_ms to rs h.1)) in
      rw (← add_assoc) (
        Counts-after rs (serve r s).0 r.now_ms to
          (n + (if in_window id limit w start r then 1 else 0)) h.1 early
          (Counts-serve r s from n h.0 (omega (arith, soon)) c))

remaining_of :
    (limit w now n : ℕ) (found : Option FwState)
    → 0 < limit
    → used (window_of w now) found ≡ min limit n
    → ((count_request limit w now found).1.allowed ≡ ltb n limit)
      × ((count_request limit w now found).1.remaining ≡ pos (limit - n - 1))
unfolding count_request
remaining_of limit w now n none room e = ground arith
remaining_of limit w now n (some state) room e = ground arith

-- The window's counter decides as the history would. Of the calls made since the simulator was
-- created, with a clock that does not fall, take those on this triple in the window of the new call:
-- it is allowed exactly if they are fewer than `limit`, allowed or not, and `remaining` is what they
-- and the call itself leave. The limit is above 0.
pub allowed-asked :
    (id : Text) (limit w : ℕ) (rs : List Request) (r : Request)
    → 0 < limit
    → on_window id limit w r ≡ true
    → Timed 0 rs r.now_ms
    → let before = asked (in_window id limit w (window_of w (r.now_ms / 1000))) rs in
      let decision = (serve r (after rs new_simulator)).1.decision in
      (decision.allowed ≡ ltb before limit) × (decision.remaining ≡ pos (limit - before - 1))
unfolding new_simulator get
allowed-asked id limit w rs r room on h =
    let start = window_of w (r.now_ms / 1000) in
    let s = after rs new_simulator in
    let c =
      Counts-after id limit w start room rs new_simulator 0 r.now_ms 0 h (omega arith)
        (record { starts = tt; counts = omega arith }) in
    rw (decision-serve id limit w r s on) (
      remaining_of limit w (r.now_ms / 1000) (asked (in_window id limit w start) rs)
        (get (fw_key id limit w) s.fw) room (omega (arith, c.counts)))
