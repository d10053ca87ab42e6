-- ===== src/Client/Keys/Copy.antt =====
-- frontend/app/dashboard/api-keys/page.tsx: `CopyButton`, whose label is "Copied!" for two seconds.
--
-- The clipboard is the browser's: `written` runs when a write has succeeded, at a time in milliseconds.
-- A timer that is due runs before anything else at its time. All timers do the same, so that their
-- order is left out.
use shard_leak.Common.{
  ℕ, ◌+◌, ◌≤◌, ◌≡◌, Bool, true, false, ◌&&◌, ◌||◌, List, [], ◌∷◌, if◌then◌else◌, ltb, leb, keep_if,
  refl, arith,
}
use shard_leak.Common.Texts.{Text, codes}

-- `copied`, and the times at which the timers are due.
pub record CopyButton : Type 0 where
  pub copied : Bool
  pub timers : List ℕ

abbrev pub new_button : CopyButton
new_button = record { copied = false; timers = [] }

-- No timer is due.
unfoldable pub none_due : ℕ → List ℕ → Bool
none_due now [] = true
none_due now (t ∷ ts) = ltb now t && none_due now ts

-- The timers up to a time run.
unfoldable pub run_timers : ℕ → CopyButton → CopyButton
unfolding none_due
run_timers now b = record {
  copied = b.copied && none_due now b.timers;
  timers = keep_if (ltb now) b.timers;
}

-- What follows a write to the clipboard: `setCopied(true)`, and a timer of 2000 ms.
unfoldable pub written : ℕ → CopyButton → CopyButton
unfolding run_timers
written now b = record { copied = true; timers = (now + 2000) ∷ (run_timers now b).timers }

abbrev pub label : CopyButton → Text
label b = if b.copied then codes "Copied!" else codes "Copy"

-- The button after writes at the given times, the last one first.
unfoldable pub after_writes : List ℕ → CopyButton
after_writes [] = new_button
after_writes (u ∷ us) = written u (after_writes us)

-- No write is later than the one before it.
abbrev pub LastFirst : ℕ → List ℕ → Type 0
LastFirst now [] = Unit
LastFirst now (u ∷ us) = (u ≤ now) × LastFirst u us

-- The two seconds of none of the writes end behind `from` and up to `to`.
unfoldable pub quiet : ℕ → ℕ → List ℕ → Bool
quiet from to [] = true
quiet from to (u ∷ us) = (leb (u + 2000) from || ltb to (u + 2000)) && quiet from to us

-- The same of timers.
unfoldable quiet_timers : ℕ → ℕ → List ℕ → Bool
quiet_timers from to [] = true
quiet_timers from to (t ∷ ts) = (leb t from || ltb to t) && quiet_timers from to ts

none_due-keep_if :
    (from to : ℕ) (ts : List ℕ) → none_due to (keep_if (ltb from) ts) ≡ quiet_timers from to ts
unfolding none_due quiet_timers
none_due-keep_if from to [] = refl
none_due-keep_if from to (t ∷ ts) = ground (arith, none_due-keep_if from to ts)

quiet_timers-keep_if :
    (before from to : ℕ) (ts : List ℕ)
    → before ≤ from
    → quiet_timers from to (keep_if (ltb before) ts) ≡ quiet_timers from to ts
unfolding quiet_timers
quiet_timers-keep_if before from to [] h = refl
quiet_timers-keep_if before from to (t ∷ ts) h =
    ground (arith, quiet_timers-keep_if before from to ts h)

quiet-after_writes :
    (from to now : ℕ) (us : List ℕ)
    → LastFirst now us
    → now ≤ from
    → quiet_timers from to (after_writes us).timers ≡ quiet from to us
unfolding quiet quiet_timers after_writes written run_timers
quiet-after_writes from to now [] h le = refl
quiet-after_writes from to now (u ∷ us) h le =
    let rest = quiet-after_writes from to u us h.1 (omega arith) in
    ground (arith, rest, quiet_timers-keep_if u from to (after_writes us).timers (omega arith))

-- When the label of the copy button reads "Copied!". After writes to the clipboard at times that do not
-- fall, the last one at `u`, it is shown at a time `t` from `u` on exactly if `t` is less than two
-- seconds after `u` and the two seconds of no write before end behind `u` and up to `t`.
pub copied-after_writes :
    (u t : ℕ) (us : List ℕ)
    → LastFirst u us
    → u ≤ t
    → (run_timers t (after_writes (u ∷ us))).copied ≡ (ltb t (u + 2000) && quiet u t us)
unfolding run_timers after_writes written none_due
copied-after_writes u t us h le = ground (
  arith,
  none_due-keep_if u t (after_writes us).timers,
  quiet-after_writes u t u us h (omega arith),
)
