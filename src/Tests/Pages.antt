-- ===== src/Tests/Pages.antt =====
-- frontend/app/dashboard: the theorems of its pages at small inputs.
use shard_leak.Backend.Auth.Page.{sent}
use shard_leak.Backend.Limits.{Insertion, inserted_answer, create_handler}
use shard_leak.Backend.Store.{empty_store, err_conflict}
use shard_leak.Backend.Limits.Page.{listed, told_of, create_start-handler}
use shard_leak.Client.Api.{Call, read_response}
use shard_leak.Client.Keys.Copy.{
  run_timers, after_writes, written, none_due, quiet, label, copied-after_writes,
}
use shard_leak.Common.{
  ltb, ◌&&◌, ◌+◌, true, false, none, some, List, [], ◌∷◌, ◌++◌, map, ◌≡◌, ◌≢◌, All, inl, refl,
  arith,
}
use shard_leak.Common.Int.{pos}
use shard_leak.Common.Texts.{Text, codes, decimal}
use shard_leak.Client.Api.{
  Browser, token_bucket, ApiKeyMeta, ApiKeyCreated, LimitConfig, CheckRequest, ok, build_request,
}
use shard_leak.Client.Calls
use shard_leak.Client.Uri.{trim, trim_start, trim_end}
use shard_leak.Client.Uri.Encode.{IsPlain}
use shard_leak.Client.Keys
use shard_leak.Client.Keys.Replay.{stored_of, acks, keys-run}
use shard_leak.Client.Limits
use shard_leak.Client.Limits.Replay.{row_of-run, Distinct}
use shard_leak.Client.Limits.Form.{delete_start-path}
use shard_leak.Client.Checks
use shard_leak.Client.Checks.History.{LogIsValid, run-LogIsValid, check_start-bearer}

abbrev base : Text
base = codes "http://localhost:8082"

abbrev signed_out : Browser
signed_out = record { has_window = true; stored = none }

abbrev key_a : ApiKeyMeta
key_a = record { id = codes "a"; name = codes "CI"; created_at = []; revoked_at = none }

abbrev key_b : ApiKeyMeta
key_b = record { id = codes "a2"; name = codes "Production"; created_at = []; revoked_at = none }

abbrev made : ApiKeyMeta → ApiKeyCreated
made k = record { meta = k; key = codes "sk_shard_1" }

abbrev api_config : LimitConfig
api_config = record {
  identifier = codes "api/search?";
  algorithm = token_bucket;
  limit = pos 10;
  window_seconds = pos 60;
  created_at = [];
  updated_at = [];
}

abbrev key_events : List Keys.Event
key_events =
    Keys.loaded (ok (some (key_a ∷ [])))
    ∷ Keys.type_name (codes "Production")
    ∷ Keys.submit
    ∷ Keys.created (ok (made key_b))
    ∷ Keys.click_revoke (codes "a") true
    ∷ Keys.revoked (codes "a") (codes "now") (ok tt)
    ∷ []

keys-run_example :
    map stored_of (Keys.run key_events Keys.initial).keys
    ≡ Keys.Replay.apply_all (acks key_events) (map stored_of Keys.initial.keys)
keys-run_example = keys-run key_events Keys.initial

abbrev named_page : Text → Keys.KeysPage
named_page name = record Keys.initial { key_name = name }

abbrev limit_events : List Limits.Event
limit_events =
    Limits.loaded (ok (some []))
    ∷ Limits.submit
    ∷ Limits.created (ok api_config)
    ∷ Limits.click_delete (codes "api/search?")
    ∷ []

row_of-run_example :
    Distinct (Limits.run limit_events Limits.initial).configs
    × (Limits.Replay.row_of (Limits.run limit_events Limits.initial).configs (codes "api/search?")
        ≡ Limits.Replay.apply_all limit_events
            (Limits.Replay.row_of Limits.initial.configs)
            (codes "api/search?"))
unfolding Limits.step Limits.load_done Limits.create_start Limits.create_guarded Limits.form_guard
    Limits.initial Limits.Replay.row_of trim trim_start trim_end
row_of-run_example =
    row_of-run limit_events Limits.initial (codes "api/search?") (tt, (tt, (refl, (tt, tt)))) tt

abbrev limit_page : Limits.LimitsPage
limit_page = record Limits.initial { identifier = codes "ip:7 " }

abbrev limit_call : Call
limit_call = Calls.create_limit (record {
  identifier = codes "ip:7";
  algorithm = token_bucket;
  limit = pos 100;
  window_seconds = pos 60;
})

abbrev taken : Insertion
taken req s = (s, err_conflict)

create_start-handler_example :
    (r : CheckRequest) × (limit_call ≡ Calls.create_limit r)
    × (let (after, answer) =
          create_handler (λ t. t) decimal taken (sent (λ c. true) limit_call.body) empty_store in
        let q = Limits.create_done (read_response answer) Limits.initial in
        (after ≡ empty_store)
        × (answer ≡ inserted_answer decimal err_conflict)
        × (q.configs ≡ listed decimal err_conflict Limits.initial.configs)
        × (q.form_error ≡ told_of err_conflict Limits.initial.form_error)
        × (q.creating ≡ false))
unfolding Limits.create_start Limits.create_guarded Limits.form_guard Limits.initial trim trim_start
    trim_end
create_start-handler_example =
    create_start-handler (λ t. t) decimal taken (λ c. true) empty_store limit_page Limits.initial
      refl

delete_start-path_example :
    (segment : Text) × ((Calls.delete_limit (codes "a/b")).path
      ≡ codes "/api/v1/limits/" ++ segment)
    × All IsPlain segment
    × ((Limits.delete_start (codes "a/b") Limits.initial).0.deleting ≡ some (codes "a/b"))
unfolding Limits.delete_start
delete_start-path_example =
    delete_start-path (codes "a/b") Limits.initial
      (
        (omega arith, inl (omega arith)),
        ((omega arith, inl (omega arith)), ((omega arith, inl (omega arith)), tt)),
      )
      refl

abbrev check_page : Checks.ChecksPage
check_page = record Checks.initial { api_key = codes "sk_shard_1 " }

check_start-bearer_example :
    (Calls.execute_check (codes "sk_shard_1") (Checks.request_of check_page)
      ≡ Calls.execute_check (trim check_page.api_key) (Checks.request_of check_page))
    × ((build_request base
          (Calls.execute_check (codes "sk_shard_1") (Checks.request_of check_page))
          signed_out).authorization
        ≡ some (codes "Bearer " ++ trim check_page.api_key))
    × (trim check_page.api_key ≢ [])
    × (trim check_page.identifier ≢ [])
unfolding Checks.check_start Checks.check_trimmed Checks.initial trim trim_start trim_end
check_start-bearer_example = check_start-bearer check_page base signed_out refl

abbrev check_events : List Checks.Event
check_events =
    Checks.type_key (codes "sk_shard_1")
    ∷ Checks.click_check
    ∷ Checks.checked (Checks.request_of check_page) 12
        (ok (record { allowed = false; remaining = pos 0; reset_at = []; retry_after = some 7 }))
    ∷ []

run-LogIsValid_example : LogIsValid (Checks.run check_events Checks.initial)
run-LogIsValid_example = run-LogIsValid check_events

copied-after_writes_example :
    (run_timers 2100 (after_writes (1500 ∷ 0 ∷ []))).copied
    ≡ (ltb 2100 (1500 + 2000) && quiet 1500 2100 (0 ∷ []))
copied-after_writes_example = copied-after_writes 1500 2100 (0 ∷ []) (omega arith, tt) (omega arith)

-- The label of a second copy goes after 500 ms.
label_lost : label (run_timers 2000 (after_writes (1500 ∷ 0 ∷ []))) ≡ codes "Copy"
unfolding run_timers after_writes written none_due
label_lost = refl
