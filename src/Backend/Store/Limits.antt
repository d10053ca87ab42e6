-- ===== src/Backend/Store/Limits.antt =====
-- backend/internal/store/store.go: the table `rate_limit_configs`.
use shard_leak.Common.{
  ℕ, Bool, false, ◌&&◌, ◌||◌, not, Option, none, some, List, ◌∷◌, ltb, if◌then◌else◌, keep_if,
}
use shard_leak.Common.Int.{ℤ, pos, negsuc}
use shard_leak.Common.Texts.{Text, codes, text_eq}
use shard_leak.Client.Api.{Algorithm, token_bucket, fixed_window}
use shard_leak.Backend.RateLimit.{Link}
use shard_leak.Backend.Check.{CheckRequest}
use shard_leak.Backend.Store.{
  LimitRow, Tables, Store, Outcome, query_row, exec, Verdict, inserts, unique_violation,
  other_violation, insert_row, query, first_of, some_row, user_has_id, config_has_id, config_of,
  config_at,
}

-- A number above 0 that fits the type INTEGER.
abbrev pub fits_column : ℤ → Bool
fits_column (pos n) = ltb 0 n && ltb n 2147483648
fits_column (negsuc n) = false

-- The names that the column `algorithm` takes.
unfoldable pub named_algorithm : Text → Option Algorithm
named_algorithm t =
    if text_eq t (codes "token_bucket")
    then some token_bucket
    else if text_eq t (codes "fixed_window")
    then some fixed_window
    else none

-- `CreateLimitConfig`
unfoldable pub judge_config : LimitRow → Tables → Verdict LimitRow
judge_config c t =
    if not (fits_column c.limit && fits_column c.window_seconds)
    then other_violation
    else if some_row (config_has_id c.id) t.configs
        || some_row (config_at c.user_id c.identifier) t.configs
    then unique_violation
    else if some_row (user_has_id c.user_id) t.users
    then inserts c (record t { configs = c ∷ t.configs })
    else other_violation

-- The row of the INSERT.
abbrev pub new_config : Text → ℕ → Text → CheckRequest → Algorithm → LimitRow
new_config id now user_id req algorithm = record {
  id = id;
  user_id = user_id;
  identifier = req.identifier;
  algorithm = algorithm;
  limit = req.limit;
  window_seconds = req.window_seconds;
  created_at = now;
  updated_at = now;
}

unfoldable pub judge_named :
    Text → ℕ → Text → CheckRequest → Option Algorithm → Tables → Verdict LimitRow
unfolding judge_config
judge_named id now user_id req none t = other_violation
judge_named id now user_id req (some algorithm) t =
    judge_config (new_config id now user_id req algorithm) t

unfoldable pub create_limit_config :
    Link → Text → ℕ → Text → CheckRequest → Store → Store × Outcome LimitRow
unfolding insert_row judge_named named_algorithm
create_limit_config link id now user_id req s =
    insert_row link (judge_named id now user_id req (named_algorithm req.algorithm) s.tables) s

unfoldable pub get_limit_config : Link → Text → Text → Store → Store × Outcome LimitRow
unfolding query_row first_of
get_limit_config link user_id identifier s =
    query_row link (first_of (config_at user_id identifier) s.configs) s

abbrev pub other_config : Text → Text → LimitRow → Bool
other_config user_id identifier c = not (config_at user_id identifier c)

unfoldable pub delete_limit_config : Link → Text → Text → Store → Store × Outcome (Unit {0})
unfolding exec first_of
delete_limit_config link user_id identifier s =
    exec link (some_row (config_at user_id identifier) s.configs)
      (record s.tables { configs = keep_if (other_config user_id identifier) s.configs }) s

-- The argument puts rows in the order of `created_at DESC`.
unfoldable pub list_limit_configs :
    (List LimitRow → List LimitRow) → Link → Text → Store → Store × Outcome (List LimitRow)
unfolding query
list_limit_configs latest_first link user_id s =
    query link (latest_first (keep_if (config_of user_id) s.configs)) s
