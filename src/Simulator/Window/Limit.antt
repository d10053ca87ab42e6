-- ===== src/Simulator/Window/Limit.antt =====
-- frontend-demo/lib/simulator.ts, `fixedWindow`: how many requests one window lets through.
use shard_leak.Common.{
  ℕ, ◌+◌, ◌-◌, ◌/◌, ◌≤◌, ◌<◌, List, [], ◌∷◌, ◌≡◌, if◌then◌else◌, leb, arith, Bool-cases, inl, inr,
  ◌&&◌, refl,
}
use shard_leak.Common.JsMap.{get}
use shard_leak.Common.Texts.{Text}
use shard_leak.Simulator.{Simulator, fw_key, window_of}
use shard_leak.Simulator.Schedule.{Request, serve, admitted, Timed, on_window, in_window}
use shard_leak.Simulator.Window.{
  used, window_of_mono, count_request-allowed, used-entry, used-entry_later, get-serve,
  allowed-serve,
}

module _ (id : Text) (limit w start : ℕ) where
  abbrev count_at : Simulator → ℕ
  count_at s = used start (get (fw_key id limit w) s.fw)

  abbrev tally : Request → Simulator → ℕ
  tally r s = if in_window id limit w start r && (serve r s).1.decision.allowed then 1 else 0

  -- A call in the window, or before it, is counted if it is allowed in the window.
  count_at-serve :
      (r : Request) (s : Simulator)
      → window_of w (r.now_ms / 1000) ≤ start
      → count_at s + tally r s ≤ count_at (serve r s).0
  count_at-serve r s h =
      let found = get (fw_key id limit w) s.fw in
      let now = r.now_ms / 1000 in
      elim (Bool-cases (on_window id limit w r)) [
        | inl on ↦
            rw (on, get-serve id limit w r s, on, allowed-serve id limit w r s on)
              (ground
                (arith, used-entry limit w now found, used-entry_later limit w now found start h))
        | inr off ↦ rw (off, get-serve id limit w r s, off) (omega arith)
      ]

  -- A call is allowed in the window only while the count is below the limit.
  tally-lt : (r : Request) (s : Simulator) → 0 < limit → tally r s ≤ limit - count_at s
  tally-lt r s h = elim (Bool-cases (on_window id limit w r)) [
    | inl on ↦
        rw (on, allowed-serve id limit w r s on)
          (ground (
            arith,
            count_request-allowed limit w (r.now_ms / 1000) (get (fw_key id limit w) s.fw) h,
          ))
    | inr off ↦ rw off (omega arith)
  ]

  -- After the window the clock does not come back to it.
  admitted_past :
      (rs : List Request) (s : Simulator) (from to : ℕ)
      → start < window_of w (from / 1000)
      → Timed from rs to
      → admitted (in_window id limit w start) rs s ≡ 0
  unfolding admitted
  admitted_past [] s from to past h = refl
  admitted_past (r ∷ rs) s from to past h =
      let mono = window_of_mono w (from / 1000) (r.now_ms / 1000) (omega arith) in
      ground (arith, admitted_past rs (serve r s).0 r.now_ms to (omega (arith, mono)) h.1)

  admitted-le-room :
      (rs : List Request) (s : Simulator) (from to : ℕ)
      → 0 < limit
      → Timed from rs to
      → admitted (in_window id limit w start) rs s ≤ limit - count_at s
  unfolding admitted
  admitted-le-room [] s from to pos h = omega arith
  admitted-le-room (r ∷ rs) s from to pos h =
      elim (Bool-cases (leb (window_of w (r.now_ms / 1000)) start)) [
        | inl soon ↦ omega (
          arith,
          tally-lt r s pos,
          count_at-serve r s (ground arith),
          admitted-le-room rs (serve r s).0 r.now_ms to pos h.1,
        )
        | inr late ↦
            omega
              (arith, admitted_past (r ∷ rs) s r.now_ms to (ground arith) (omega (arith, h.1), h.1))
      ]

  -- A window of time admits no more than the limit: of all calls on this triple that fall into it,
  -- made in any order with others while the clock does not fall, at most `limit` are allowed,
  -- whatever the state at the start. The limit is above 0.
  pub admitted-le-limit :
      (rs : List Request) (s : Simulator) (from to : ℕ)
      → 0 < limit
      → Timed from rs to
      → admitted (in_window id limit w start) rs s ≤ limit
  admitted-le-limit rs s from to pos h = omega (arith, admitted-le-room rs s from to pos h)
