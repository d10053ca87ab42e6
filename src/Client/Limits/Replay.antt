-- ===== src/Client/Limits/Replay.antt =====
-- frontend/app/dashboard/limits/page.tsx: the list on the page against a table of configurations with
-- one row for each identifier, as the server keeps.
use shard_leak.Common.{
  Option, none, some, List, [], ◌∷◌, if◌then◌else◌, get_or, ◌≡◌, refl, arith, keep_if, ◌∙◌,
  Bool-cases, inl, inr,
}
use shard_leak.Common.Texts.{Text, text_eq, text_eq_iff}
use shard_leak.Client.Api.{LimitConfig, ok, throw}
use shard_leak.Client.Limits.{
  LimitsPage, Event, loaded, type_identifier, pick_algorithm, type_limit, type_window,
  toggle_create, open_create, submit, created, click_delete, deleted, differs, create_start,
  create_done, delete_start, delete_done, load_done, step, run,
}

-- The server's table: the configuration of an identifier, if it has one.
abbrev pub Table : Type 0
Table = Text → Option LimitConfig

-- The row of the list that an identifier has.
unfoldable pub row_of : List LimitConfig → Table
row_of [] id = none
row_of (c ∷ cs) id = if text_eq c.identifier id then some c else row_of cs id

-- No two configurations of the list have one identifier.
abbrev pub Distinct : List LimitConfig → Type 0
Distinct [] = Unit
Distinct (c ∷ cs) = (row_of cs c.identifier ≡ none) × Distinct cs

-- What the server may answer to the page as it stands: it lists a table, and creates a configuration
-- only for an identifier that has none (else it answers 409).
abbrev pub Fits : Event → LimitsPage → Type 0
Fits (loaded (ok cs)) p = Distinct (get_or cs [])
Fits (created (ok c)) p = row_of p.configs c.identifier ≡ none
Fits _ p = Unit

abbrev pub AllFit : List Event → LimitsPage → Type 0
AllFit [] p = Unit
AllFit (e ∷ es) p = Fits e p × AllFit es (step e p)

-- The table after an event.
unfoldable pub apply : Event → Table → Table
apply (loaded (ok cs)) t = row_of (get_or cs [])
apply (created (ok c)) t = λ id. if text_eq c.identifier id then some c else t id
apply (deleted id (ok _)) t = λ other. if text_eq id other then none else t other
apply _ t = t

unfoldable pub apply_all : List Event → Table → Table
apply_all [] t = t
apply_all (e ∷ es) t = apply_all es (apply e t)

pub row_of-keep_if :
    (id other : Text) (cs : List LimitConfig)
    → row_of (keep_if (differs id) cs) other ≡ (if text_eq id other then none else row_of cs other)
unfolding row_of
row_of-keep_if id other [] = ground arith
row_of-keep_if id other (c ∷ cs) = ground (
  arith,
  text_eq_iff id other,
  text_eq_iff c.identifier id,
  text_eq_iff c.identifier other,
  row_of-keep_if id other cs,
)

Distinct-keep_if :
    (id : Text) (cs : List LimitConfig) → Distinct cs → Distinct (keep_if (differs id) cs)
Distinct-keep_if id [] h = tt
Distinct-keep_if id (c ∷ cs) h = elim (Bool-cases (text_eq c.identifier id)) [
  | inl same ↦ rw same (Distinct-keep_if id cs h.1)
  | inr other ↦
      rw other (ground (arith, row_of-keep_if id c.identifier cs, h.0), Distinct-keep_if id cs h.1)
]

pub configs-create_start : (p : LimitsPage) → (create_start p).0.configs ≡ p.configs
unfolding create_start
configs-create_start p = ground arith

-- One event keeps the list free of doubles, and takes the page's rows where it takes the table.
step-Distinct :
    (e : Event) (p : LimitsPage) → Fits e p → Distinct p.configs → Distinct (step e p).configs
unfolding step load_done create_done delete_done delete_start
step-Distinct (loaded (ok cs)) p f d = f
step-Distinct (loaded (throw e)) p f d = d
step-Distinct (type_identifier v) p f d = d
step-Distinct (pick_algorithm a) p f d = d
step-Distinct (type_limit n) p f d = d
step-Distinct (type_window n) p f d = d
step-Distinct toggle_create p f d = d
step-Distinct open_create p f d = d
step-Distinct submit p f d = rw (configs-create_start p) d
step-Distinct (created (ok c)) p f d = (f, d)
step-Distinct (created (throw e)) p f d = d
step-Distinct (click_delete id) p f d = d
step-Distinct (deleted id (ok u)) p f d = Distinct-keep_if id p.configs d
step-Distinct (deleted id (throw e)) p f d = d

step-apply :
    (e : Event) (p : LimitsPage) (t : Table)
    → ((id : Text) → row_of p.configs id ≡ t id)
    → (id : Text) → row_of (step e p).configs id ≡ apply e t id
unfolding step load_done create_done delete_done delete_start apply row_of
step-apply (loaded (ok cs)) p t h id = refl
step-apply (loaded (throw e)) p t h id = h id
step-apply (type_identifier v) p t h id = h id
step-apply (pick_algorithm a) p t h id = h id
step-apply (type_limit n) p t h id = h id
step-apply (type_window n) p t h id = h id
step-apply toggle_create p t h id = h id
step-apply open_create p t h id = h id
step-apply submit p t h id = rw (configs-create_start p) (h id)
step-apply (created (ok c)) p t h id = rw (h id)
step-apply (created (throw e)) p t h id = h id
step-apply (click_delete x) p t h id = h id
step-apply (deleted x (ok u)) p t h id = row_of-keep_if x id p.configs ∙ (rw (h id))
step-apply (deleted x (throw e)) p t h id = h id

run-table :
    (es : List Event) (p : LimitsPage) (t : Table)
    → AllFit es p
    → Distinct p.configs
    → ((id : Text) → row_of p.configs id ≡ t id)
    → (id : Text) → Distinct (run es p).configs × (row_of (run es p).configs id ≡ apply_all es t id)
unfolding run apply_all
run-table [] p t f d h id = (d, h id)
run-table (e ∷ es) p t f d h id =
    run-table es (step e p) (apply e t) f.1 (step-Distinct e p f.0 d) (step-apply e p t h) id

-- The page shows the server's table: after any events, the configuration that the list has for an
-- identifier is that of the table which the acknowledged listings, creations and deletions make of
-- the one before, and no identifier stands in the list twice. The server lists distinct identifiers,
-- and creates a configuration only for one that has none.
pub row_of-run :
    (es : List Event) (p : LimitsPage) (id : Text)
    → AllFit es p
    → Distinct p.configs
    → Distinct (run es p).configs
      × (row_of (run es p).configs id ≡ apply_all es (row_of p.configs) id)
row_of-run es p id f d = run-table es p (row_of p.configs) f d (λ other. refl) id
