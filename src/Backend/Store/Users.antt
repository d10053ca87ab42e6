-- ===== src/Backend/Store/Users.antt =====
-- backend/internal/store/store.go: the table `users`.
use shard_leak.Common.{ℕ, ◌||◌, ◌∷◌, if◌then◌else◌}
use shard_leak.Common.Texts.{Text}
use shard_leak.Backend.RateLimit.{Link}
use shard_leak.Backend.Store.{
  UserRow, Tables, Store, Outcome, query_row, Verdict, inserts, unique_violation, insert_row,
  first_of, some_row, user_has_id, user_has_email,
}

-- `CreateUser`
unfoldable pub judge_user : UserRow → Tables → Verdict UserRow
judge_user u t =
    if some_row (user_has_id u.id) t.users || some_row (user_has_email u.email) t.users
    then unique_violation
    else inserts u (record t { users = u ∷ t.users })

-- The row of the INSERT.
abbrev pub new_user : Text → ℕ → Text → Text → UserRow
new_user id now email password_hash = record {
  id = id;
  email = email;
  password_hash = password_hash;
  created_at = now;
}

unfoldable pub create_user : Link → Text → ℕ → Text → Text → Store → Store × Outcome UserRow
unfolding insert_row judge_user
create_user link id now email password_hash s =
    insert_row link (judge_user (new_user id now email password_hash) s.tables) s

unfoldable pub get_user_by_email : Link → Text → Store → Store × Outcome UserRow
unfolding query_row first_of
get_user_by_email link email s = query_row link (first_of (user_has_email email) s.users) s

unfoldable pub get_user_by_id : Link → Text → Store → Store × Outcome UserRow
unfolding query_row first_of
get_user_by_id link id s = query_row link (first_of (user_has_id id) s.users) s
