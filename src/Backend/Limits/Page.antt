-- ===== src/Backend/Limits/Page.antt =====
-- The create form of the dashboard's limits page against the backend.
use shard_leak.Common.{
  Bool, Bool-cases, if◌then◌else◌, ℕ, suc, ◌≡◌, true, false, inl, inr, some, List, [], ◌∷◌, refl,
  ltb, arith, Option-cases,
}
use shard_leak.Common.Int.{ℤ, pos}
use shard_leak.Common.Texts.{Text, codes, text_eq, text_eq_iff}
use shard_leak.Client.Api.{Call, LimitConfig, Fetched, config, read_response, CheckRequest}
use shard_leak.Client.Calls
use shard_leak.Client.Limits.{LimitsPage, create_start, create_done}
use shard_leak.Client.Limits.Form.{Acceptable, create_start-Acceptable}
use shard_leak.Backend.Check
use shard_leak.Backend.Check.{above_zero, algorithm_of, plain}
use shard_leak.Backend.Handlers.{bad_request}
use shard_leak.Backend.Auth.Page.{sent, sent_algorithm, algorithm_of-sent}
use shard_leak.Backend.Store.{Store, LimitRow, Outcome, done, err_not_found, err_conflict, err_db}
use shard_leak.Backend.Limits.{
  Insertion, config_response, limit_validated, inserted_answer, create_answer, create_handler,
}

-- What the handler inserts for a configuration.
abbrev pub wire : CheckRequest → Check.CheckRequest
wire r = record {
  identifier = r.identifier;
  limit = r.limit;
  window_seconds = r.window_seconds;
  algorithm = sent_algorithm r.algorithm;
}

-- The list of the page after the store's word on a row, and the error of its form.
abbrev pub listed : (ℕ → Text) → Outcome LimitRow → List LimitConfig → List LimitConfig
listed shown (done row) configs = config_response shown row ∷ configs
listed shown err_not_found configs = configs
listed shown err_conflict configs = configs
listed shown err_db configs = configs

abbrev pub told_of : Outcome LimitRow → Text → Text
told_of (done row) error = error
told_of err_conflict error = codes "A configuration for this identifier already exists."
told_of err_not_found error = codes "failed to create configuration"
told_of err_db error = codes "failed to create configuration"

abbrev pub refusal : Fetched LimitConfig
refusal = bad_request (codes "invalid JSON body")

positive_passes : {z : ℤ} → (n : ℕ) × (z ≡ pos (suc n)) → (n : ℕ) × (above_zero z ≡ some n)
positive_passes {z} (n, e) =
    let above : ltb 0 (suc n) ≡ true = ground arith in (suc n, rw (e, above) refl)

validated-Acceptable :
    (decodes : CheckRequest → Bool) (r : CheckRequest)
    → Acceptable r
    → limit_validated (sent decodes (config r))
      ≡ (if decodes r then inr (wire r) else inl (plain (codes "invalid JSON body")))
unfolding limit_validated
validated-Acceptable decodes r a =
    let (limit, l) = positive_passes a.limit in
    let (window, w) = positive_passes a.window_seconds in
    let named : text_eq r.identifier [] ≡ false =
      ground (arith, text_eq_iff r.identifier [], a.named) in
    elim (Option-cases (algorithm_of (sent_algorithm r.algorithm))) [
      | inl unknown ↦
          let known = algorithm_of-sent r.algorithm in
          let never : false ≡ true = rw unknown at known in cc
      | inr (algorithm, e) ↦ elim (Bool-cases (decodes r)) [
        | inl d ↦ rw (d, named, e, l, w) refl
        | inr refused ↦ rw refused refl
      ]
    ]

done-inserted :
    (shown : ℕ → Text) (o : Outcome LimitRow) (p : LimitsPage)
    → let q = create_done (read_response (inserted_answer shown o)) p in
      (q.configs ≡ listed shown o p.configs)
      × (q.form_error ≡ told_of o p.form_error)
      × (q.creating ≡ false)
unfolding inserted_answer read_response create_done
done-inserted shown (done row) p = (refl, refl, refl)
done-inserted shown err_not_found p = (refl, refl, refl)
done-inserted shown err_conflict p = (refl, refl, refl)
done-inserted shown err_db p = (refl, refl, refl)

-- What the form submits the backend takes, if it decodes it. The handler hands the configuration of a
-- submission that made a call to the store, and the page, whatever it shows by then, lists the row that
-- was inserted first, or says that there is one for the identifier or that it could not be created. A
-- body that is not decoded is the only thing that the handler refuses: then the store is not asked, and
-- the page says `invalid JSON body`, with its list as it was. Either way its form is ready again. The
-- limit and the window of the form are whole numbers.
pub create_start-handler :
    (quote : Text → Text) (shown : ℕ → Text) (insert : Insertion) (decodes : CheckRequest → Bool)
    (s : Store) (p later : LimitsPage) {c : Call}
    → (create_start p).1 ≡ some c
    → (r : CheckRequest) × (c ≡ Calls.create_limit r)
      × (let (after, answer) = create_handler quote shown insert (sent decodes c.body) s in
          let (kept, o) = insert (wire r) s in
          let q = create_done (read_response answer) later in
          (after ≡ (if decodes r then kept else s))
          × (answer ≡ (if decodes r then inserted_answer shown o else refusal))
          × (q.configs ≡ (if decodes r then listed shown o later.configs else later.configs))
          × (q.form_error
              ≡ (if decodes r then told_of o later.form_error else codes "invalid JSON body"))
          × (q.creating ≡ false))
unfolding create_handler create_answer Calls.create_limit read_response create_done
create_start-handler quote shown insert decodes s p later {c} h =
    let (r, call, acceptable, limit, window, algorithm) = create_start-Acceptable p h in
    let (configs, error, ready) = done-inserted shown (insert (wire r) s).1 later in
    elim (Bool-cases (decodes r)) [
      | inl d ↦ (
        r,
        call,
        rw (call, validated-Acceptable decodes r acceptable, d) (refl, refl, configs, error, ready),
      )
      | inr refused ↦ (
        r,
        call,
        rw (call, validated-Acceptable decodes r acceptable, refused)
            (refl, refl, refl, refl, refl),
      )
    ]
