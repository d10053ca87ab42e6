-- ===== src/Backend/Api/Invariant.antt =====
-- backend/migrations/001_initial_schema.sql: the constraints of the schema over any requests.
mod Address
pub mod Made
mod Handlers
pub mod Routes
use shard_leak.Common.{List, [], ◌∷◌}
use shard_leak.Backend.Store.{Store}
use shard_leak.Backend.Store.Consistent.{Consistent, Change-Consistent}
use shard_leak.Backend.Api.{Library, Exchange, serve, run}
use shard_leak.Backend.Api.Changes.{serve-Change}

-- The routes keep the tables within the constraints of the schema. Whatever requests are served, and
-- however their statements end, if before them no two users have one id or email, no two keys one id
-- or hash, no two configurations one id, or one owner and identifier, every key and configuration
-- belongs to a user, and the numbers of the configurations are above 0 and fit their columns, then all
-- of this holds after them.
pub run-Consistent :
    (lib : Library) (es : List Exchange) (s : Store)
    → Consistent s.tables
    → Consistent (run lib es s).tables
unfolding run
run-Consistent lib [] s c = c
run-Consistent lib (e ∷ es) s c =
    run-Consistent lib es (serve lib e s).0 (Change-Consistent (serve-Change lib e s) c)
