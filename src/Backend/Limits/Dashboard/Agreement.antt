-- ===== src/Backend/Limits/Dashboard/Agreement.antt =====
-- The limits page of the dashboard shows what the server has.
use mathlib.Core.List.{Permᴰ}
use shard_leak.Common.{
  ℕ, false, Option, none, some, List, [], ◌∷◌, if◌then◌else◌, ◌≡◌, ◌≢◌, refl, sym, ap, ◌∙◌, inl,
  inr, arith, Option-cases, Bool-cases,
}
use shard_leak.Common.Texts.{Text, text_eq, text_eq_iff, text_eq_refl}
use shard_leak.Client.Api.{Algorithm, LimitConfig, Call, read_response}
use shard_leak.Client.Limits.{LimitsPage, create_start, create_done, load_done, delete_done}
use shard_leak.Client.Limits.Replay.{row_of, row_of-keep_if, configs-create_start}
use shard_leak.Backend.RateLimit.{Link, up, unreachable, cut}
use shard_leak.Backend.Check
use shard_leak.Backend.Auth.Page.{sent}
use shard_leak.Backend.Store.{
  Store, LimitRow, Tables, db_err, first_of, some_row, config_at, query, exec, Verdict, inserts,
  unique_violation, other_violation, insert_row,
}
use shard_leak.Backend.Store.Limits.{
  create_limit_config, list_limit_configs, delete_limit_config, new_config, judge_named,
  named_algorithm,
}
use shard_leak.Backend.Store.Change.{judge_config-inserts}
use shard_leak.Backend.Store.Consistent.{Consistent}
use shard_leak.Backend.Handlers.{Handler, for_user}
use shard_leak.Backend.Limits.{
  config_response, create_handler, list_handler, listed_answer, delete_handler, deleted_answer,
}
use shard_leak.Backend.Limits.Page.{wire, listed, create_start-handler}
use shard_leak.Backend.Limits.Dashboard.{as_listed}
use shard_leak.Backend.Limits.Dashboard.Found.{shown_row, stored, row_of-listed, stored-drop}
use shard_leak.Backend.Api.{Library, Exchange}
use shard_leak.Backend.Api.Isolation.{configs_of}

pub for_user-named {ℓ} :
    {T : Type ℓ} (v : Text) (h : Text → Handler T) (s : Store)
    → v ≢ []
    → for_user (inr v) h s ≡ h v s
unfolding for_user
for_user-named [] h s named = absurd (named refl)
for_user-named (c ∷ v) h s named = refl

kept_missing :
    (v id other : Text) (configs : List LimitRow)
    → some_row (config_at v id) configs ≡ false
    → (if text_eq id other then none else first_of (config_at v other) configs)
      ≡ first_of (config_at v other) configs
kept_missing v id other configs missing = elim (Bool-cases (text_eq id other)) [
  | inl same ↦
      let here : id ≡ other = (text_eq_iff id other).0 same in
      let missing' : some_row (config_at v other) configs ≡ false = rw here at missing in
      ground (arith, Option-cases (first_of (config_at v other) configs))
  | inr apart ↦ rw apart refl
]

module _ (lib : Library) (v : Text) where
  -- The page has for every identifier the configuration of the user that the server has, if any.
  abbrev pub Agrees : LimitsPage × Store → Type 0
  Agrees (p, s) = (id : Text) → row_of p.configs id ≡ shown_row lib.shown (stored v s.tables id)

  -- A load that succeeds makes the page agree, whatever it shows before.
  pub loaded-Agrees :
      (p : LimitsPage) (s : Store)
      → ((rows : List LimitRow) → Permᴰ rows (lib.latest_configs rows))
      → Consistent s.tables
      → (let (after, answer) = list_handler lib.shown lib.latest_configs up v s in
          Agrees (load_done (read_response (as_listed answer)) p, after))
  unfolding list_handler list_limit_configs query listed_answer read_response load_done
  loaded-Agrees p s order c id =
      row_of-listed lib.shown v s.tables (lib.latest_configs (configs_of v s.tables)) id c.places
        (order (configs_of v s.tables))

  pub load-Agrees :
      (link : Link) (p : LimitsPage) (s : Store)
      → ((rows : List LimitRow) → Permᴰ rows (lib.latest_configs rows))
      → Consistent s.tables
      → Agrees (p, s)
      → (let (after, answer) = list_handler lib.shown lib.latest_configs link v s in
          Agrees (load_done (read_response (as_listed answer)) p, after))
  unfolding list_handler list_limit_configs query db_err listed_answer read_response load_done
  load-Agrees up p s order c a = loaded-Agrees p s order c
  load-Agrees unreachable p s order c a = a
  load-Agrees cut p s order c a = a

  pub delete-Agrees :
      (link : Link) (id : Text) (p : LimitsPage) (s : Store)
      → link ≢ cut
      → Agrees (p, s)
      → (let (after, answer) = delete_handler link id v s in
          Agrees (delete_done id (read_response answer) p, after))
  unfolding delete_handler delete_limit_config exec db_err deleted_answer read_response delete_done
  delete-Agrees link [] p s whole a other = a other
  delete-Agrees up (c ∷ id) p s whole a other =
      let drop = stored-drop v (c ∷ id) other s.configs in
      elim (Bool-cases (some_row (config_at v (c ∷ id)) s.configs)) [
        | inl there ↦
            rw (there, drop) (row_of-keep_if (c ∷ id) other p.configs ∙ rw (a other) (ground arith))
        | inr missing ↦
            rw (missing, drop)
              (a other
                ∙ ap (shown_row lib.shown) (sym (kept_missing v (c ∷ id) other s.configs missing)))
      ]
  delete-Agrees unreachable (c ∷ id) p s whole a other = a other
  delete-Agrees cut (c ∷ id) p s whole a other = absurd (whole refl)

  -- A verdict that lets in rows of the user at the head of the table.
  abbrev Owned : Store → Verdict LimitRow → Type 0
  Owned s verdict =
      (row : LimitRow) (t : Tables)
      → verdict ≡ inserts row t
      → (row ∷ s.configs ≡ t.configs) × (row.user_id ≡ v)

  insert-Agrees :
      (link : Link) (verdict : Verdict LimitRow) (configs : List LimitConfig) (s : Store)
      → link ≢ cut
      → Owned s verdict
      → ((id : Text) → row_of configs id ≡ shown_row lib.shown (stored v s.tables id))
      → (id : Text)
      → (let (kept, o) = insert_row link verdict s in
          row_of (listed lib.shown o configs) id ≡ shown_row lib.shown (stored v kept.tables id))
  unfolding insert_row db_err row_of first_of config_response
  insert-Agrees up (inserts row t) configs s whole owned a id =
      let (head, owner) = owned row t refl in
      rw (← head, owner, text_eq_refl v) (ground (arith, a id))
  insert-Agrees up unique_violation configs s whole owned a id = a id
  insert-Agrees up other_violation configs s whole owned a id = a id
  insert-Agrees unreachable verdict configs s whole owned a id = a id
  insert-Agrees cut verdict configs s whole owned a id = absurd (whole refl)

  judge_named-Owned :
      (id : Text) (now : ℕ) (req : Check.CheckRequest) (o : Option Algorithm) (s : Store)
      → Owned s (judge_named id now v req o s.tables)
  unfolding judge_named
  judge_named-Owned id now req none s row t e = cc
  judge_named-Owned id now req (some algorithm) s row t e =
      let (after, same, own, place, owner, limit, window_seconds) =
        judge_config-inserts (new_config id now v req algorithm) row s.tables t e in
      (rw (← after, ← same) refl, rw (← same) refl)

  pub submit-Agrees :
      (e : Exchange) (p : LimitsPage) (s : Store) {call : Call}
      → e.link ≢ cut
      → (create_start p).1 ≡ some call
      → Agrees (p, s)
      → (let (after, answer) =
            create_handler lib.quote lib.shown
              (create_limit_config e.link e.new_id e.now v)
              (sent lib.decodes call.body)
              s in
          Agrees (create_done (read_response answer) (create_start p).0, after))
  unfolding create_limit_config
  submit-Agrees e p s whole called a id =
      let insert = create_limit_config e.link e.new_id e.now v in
      let (r, same, (after, answer, configs, error, ready)) =
        create_start-handler lib.quote lib.shown insert lib.decodes s p (create_start p).0 called in
      let verdict =
        judge_named e.new_id e.now v (wire r) (named_algorithm (wire r).algorithm) s.tables in
      let added =
        insert-Agrees e.link verdict p.configs s whole
          (judge_named-Owned e.new_id e.now (wire r) (named_algorithm (wire r).algorithm) s) a id in
      rw (configs, after, configs-create_start p)
        (elim (Bool-cases (lib.decodes r)) [ inl d ↦ rw d added | inr refused ↦ rw refused (a id) ])
