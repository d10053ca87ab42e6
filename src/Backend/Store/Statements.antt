-- ===== src/Backend/Store/Statements.antt =====
-- backend/internal/store/store.go: what the statements leave of the tables, and what their success says.
use shard_leak.Common.{Bool, Option, none, some, List, ◌≡◌, refl, ap}
use shard_leak.Backend.RateLimit.{Link, up, unreachable, cut}
use shard_leak.Backend.Store.{
  Tables, Store, Outcome, done, db_err, query_row, exec, Verdict, inserts, unique_violation,
  other_violation, insert_row, query,
}

module _ {ℓ} {A : Type ℓ} where
  pub tables-query_row :
      (link : Link) (o : Option A) (s : Store) → (query_row link o s).0.tables ≡ s.tables
  unfolding query_row db_err
  tables-query_row up none s = refl
  tables-query_row up (some row) s = refl
  tables-query_row unreachable o s = refl
  tables-query_row cut o s = refl

  pub tables-query :
      (link : Link) (rows : List A) (s : Store) → (query link rows s).0.tables ≡ s.tables
  unfolding query db_err
  tables-query up rows s = refl
  tables-query unreachable rows s = refl
  tables-query cut rows s = refl

  pub insert_row-cases {κ} :
      (P : Tables → Type κ) (link : Link) (v : Verdict A) (s : Store)
      → P s.tables
      → ((row : A) (t : Tables) → v ≡ inserts row t → P t)
      → P (insert_row link v s).0.tables
  unfolding insert_row db_err
  insert_row-cases P up (inserts row t) s h k = k row t refl
  insert_row-cases P up unique_violation s h k = h
  insert_row-cases P up other_violation s h k = h
  insert_row-cases P unreachable v s h k = h
  insert_row-cases P cut (inserts row t) s h k = k row t refl
  insert_row-cases P cut unique_violation s h k = h
  insert_row-cases P cut other_violation s h k = h

  -- A row that the INSERT gives back is in the tables.
  pub insert_row-done :
      (link : Link) (v : Verdict A) (s : Store) {row : A}
      → (insert_row link v s).1 ≡ done row
      → (t : Tables) × (v ≡ inserts row t) × ((insert_row link v s).0.tables ≡ t)
  unfolding insert_row db_err
  insert_row-done up (inserts made t) s e = (t, ap (λ o. verdict_of o t) e, refl)
    where
      verdict_of : Outcome A → Tables → Verdict A
      verdict_of (done r) t' = inserts r t'
      verdict_of _ t' = unique_violation
  insert_row-done up unique_violation s e = cc
  insert_row-done up other_violation s e = cc
  insert_row-done unreachable v s e = cc
  insert_row-done cut (inserts made t) s e = cc
  insert_row-done cut unique_violation s e = cc
  insert_row-done cut other_violation s e = cc

pub exec-cases {κ} :
    (P : Tables → Type κ) (link : Link) (touched : Bool) (after : Tables) (s : Store)
    → P s.tables
    → P after
    → P (exec link touched after s).0.tables
unfolding exec db_err
exec-cases P up touched after s h k = k
exec-cases P unreachable touched after s h k = h
exec-cases P cut touched after s h k = k

pub exec-done :
    (link : Link) (touched : Bool) (after : Tables) (s : Store)
    → (exec link touched after s).1 ≡ done tt
    → (exec link touched after s).0.tables ≡ after
unfolding exec db_err
exec-done up touched after s e = refl
exec-done unreachable touched after s e = cc
exec-done cut touched after s e = refl
