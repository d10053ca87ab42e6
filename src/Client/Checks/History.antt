-- ===== src/Client/Checks/History.antt =====
-- frontend/app/dashboard/playground/page.tsx: the requests that the page sends and the log that it
-- keeps.
use shard_leak.Common.{
  ◌++◌, ℕ, zero, suc, ◌+◌, ◌-◌, ◌≤◌, ◌<◌, some, List, [], ◌∷◌, take, length, length-take, ◌≡◌, ◌≢◌,
  refl, arith,
}
use shard_leak.Common.Texts.{Text}
use shard_leak.Client.Api.{Call, ok, throw, Browser, build_request, bearer}
use shard_leak.Client.Calls
use shard_leak.Client.Uri.{trim}
use shard_leak.Common.Texts.{codes}
use shard_leak.Client.Checks.{
  Decision, ChecksPage, Event, type_identifier, pick_algorithm, type_limit, type_window, type_key,
  click_check, checked, clear, initial, request_of, check_trimmed, check_start, check_done, step,
  run,
}

-- The ids fall along the log by one at each line, from `next` on.
abbrev pub Numbered : ℕ → List Decision → Type 0
Numbered next [] = Unit
Numbered next (d ∷ ds) = (d.id ≡ next) × (0 < next) × Numbered (next - 1) ds

Numbered-take : (next n : ℕ) (ds : List Decision) → Numbered next ds → Numbered next (take n ds)
Numbered-take next zero ds h = tt
Numbered-take next (suc n) [] h = tt
Numbered-take next (suc n) (d ∷ ds) h = (h.0, h.1, Numbered-take (next - 1) n ds h.2)

pub record LogIsValid (p : ChecksPage) : Type 0 where
  pub capped : length p.history ≤ 50
  pub numbered : Numbered p.decision_counter p.history

check_start-log :
    (p : ChecksPage)
    → ((check_start p).0.history ≡ p.history)
      × ((check_start p).0.decision_counter ≡ p.decision_counter)
unfolding check_start
check_start-log p = ground arith

step-LogIsValid : (e : Event) (p : ChecksPage) → LogIsValid p → LogIsValid (step e p)
unfolding step check_done
step-LogIsValid (type_identifier v) p h = ground arith
step-LogIsValid (pick_algorithm a) p h = ground arith
step-LogIsValid (type_limit n) p h = ground arith
step-LogIsValid (type_window n) p h = ground arith
step-LogIsValid (type_key v) p h = ground arith
step-LogIsValid click_check p h =
    let same = check_start-log p in
    record { capped = rw same.0 h.capped; numbered = rw same.0 (rw same.1 h.numbered) }
step-LogIsValid (checked sent latency (ok r)) p h =
    let same : p.decision_counter + 1 - 1 ≡ p.decision_counter = omega arith in
    record {
      capped = omega (arith, length-take 49 p.history);
      numbered =
          (refl, omega arith, rw same (Numbered-take p.decision_counter 49 p.history h.numbered));
    }
step-LogIsValid (checked sent latency (throw e)) p h = ground arith
step-LogIsValid clear p h = ground arith

run_from-LogIsValid : (es : List Event) (p : ChecksPage) → LogIsValid p → LogIsValid (run es p)
unfolding run
run_from-LogIsValid [] p h = h
run_from-LogIsValid (e ∷ es) p h = run_from-LogIsValid es (step e p) (step-LogIsValid e p h)

-- After any events the log holds at most fifty decisions, numbered without a gap down from the
-- counter of decisions, so no two lines have the same id.
pub run-LogIsValid : (es : List Event) → LogIsValid (run es initial)
unfolding initial
run-LogIsValid es = run_from-LogIsValid es initial (record { capped = omega arith; numbered = tt })

trimmed :
    (key id : Text) (p : ChecksPage) {c : Call}
    → (check_trimmed key id p).1 ≡ some c
    → (c ≡ Calls.execute_check key (request_of p)) × (key ≢ []) × (id ≢ [])
unfolding check_trimmed
trimmed [] id p h = cc
trimmed (c ∷ key) [] p h = cc
trimmed (c ∷ key) (d ∷ id) p h = (cc, (λ e. cc), (λ e. cc))

bearer-full : (key : Text) → key ≢ [] → bearer (some key) ≡ some (codes "Bearer " ++ key)
bearer-full [] h = absurd (h refl)
bearer-full (c ∷ key) h = refl

-- A check is sent under the key of the form and never under the session's token: a click that makes a
-- call sends the configuration of the form with the header `Bearer ` and the trimmed key behind it, in
-- whatever state the browser's storage is; and the key and the identifier are not blank.
pub check_start-bearer :
    (p : ChecksPage) (base : Text) (b : Browser) {c : Call}
    → (check_start p).1 ≡ some c
    → (c ≡ Calls.execute_check (trim p.api_key) (request_of p))
      × ((build_request base c b).authorization ≡ some (codes "Bearer " ++ trim p.api_key))
      × (trim p.api_key ≢ [])
      × (trim p.identifier ≢ [])
unfolding check_start build_request Calls.execute_check
check_start-bearer p base b {c} h =
    let (e, k, i) = trimmed (trim p.api_key) (trim p.identifier) p h in
    (e, rw e (bearer-full (trim p.api_key) k), k, i)
