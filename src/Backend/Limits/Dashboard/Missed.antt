-- ===== src/Backend/Limits/Dashboard/Missed.antt =====
-- A deletion on the limits page for which the server has nothing.
use shard_leak.Common.{none, List, [], ◌∷◌, keep_if, ◌≡◌, ◌≢◌, refl, inr, arith}
use shard_leak.Common.Texts.{Text, codes}
use shard_leak.Client.Api.{read_response}
use shard_leak.Client.Limits
use shard_leak.Client.Limits.{LimitsPage, delete_start, delete_done}
use shard_leak.Client.Uri.{encode_component}
use shard_leak.Backend.RateLimit.{up}
use shard_leak.Backend.Store.{Store, LimitRow, first_of, config_at, exec}
use shard_leak.Backend.Store.Limits.{other_config, delete_limit_config}
use shard_leak.Backend.Limits.{delete_handler, deleted_answer}
use shard_leak.Backend.Limits.Dashboard.{deletes, act}
use shard_leak.Backend.Limits.Dashboard.Found.{stored}
use shard_leak.Backend.Limits.Dashboard.Agreement.{for_user-named}
use shard_leak.Backend.Api.{Library, Exchange, session}

keep_if-missing :
    (v id : Text) (configs : List LimitRow)
    → first_of (config_at v id) configs ≡ none
    → keep_if (other_config v id) configs ≡ configs
unfolding first_of
keep_if-missing v id [] h = refl
keep_if-missing v id (c ∷ configs) h = ground (arith, keep_if-missing v id configs)

module _ (lib : Library) (segment : Text → Text) where
  missed :
      (v id other : Text) (p : LimitsPage) (s : Store)
      → other ≢ []
      → stored v s.tables other ≡ none
      → (let (kept, answer) = delete_handler up other v s in
          let after = delete_done id (read_response answer) p in
          (kept ≡ s)
          × (after.configs ≡ p.configs)
          × (after.alerts ≡ codes "configuration not found" ∷ p.alerts))
  unfolding delete_handler delete_limit_config exec deleted_answer read_response delete_done
  missed v id [] p s asked nothing = absurd (asked refl)
  missed v id (c ∷ other) p s asked nothing =
      rw (nothing, keep_if-missing v (c ∷ other) s.configs nothing) (refl, refl, refl)

  -- A deletion of what the server does not have changes nothing. If the user's session asks to delete
  -- an identifier, and the server has no configuration of the user for the identifier that the router
  -- takes out of the path, then the tables stay as they are, the list of the page keeps its rows, that
  -- of the identifier too, and the page says `configuration not found`. The statement is one that the
  -- database runs, and the identifier out of the path is not empty.
  pub delete_missed :
      (e : Exchange) (v id other : Text) (p : LimitsPage) (s : Store)
      → v ≢ []
      → session lib e ≡ inr v
      → e.link ≡ up
      → segment (encode_component id) ≡ other
      → other ≢ []
      → stored v s.tables other ≡ none
      → (let (after, kept) = act lib segment (deletes id e) (p, s) in
          (kept ≡ s)
          × (after.configs ≡ p.configs)
          × (after.alerts ≡ codes "configuration not found" ∷ p.alerts))
  unfolding act Limits.step delete_start
  delete_missed e v id other p s named mine link arrives asked nothing =
      rw (mine, arrives, for_user-named v (delete_handler e.link other) s named, link)
        (missed v id other (delete_start id p).0 s asked nothing)
