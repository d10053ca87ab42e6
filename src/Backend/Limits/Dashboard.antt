-- ===== src/Backend/Limits/Dashboard.antt =====
-- The limits page of the dashboard (frontend/app/dashboard/limits/page.tsx) with the backend behind it.
--
-- The page's calls are answered one after the other, before anything else happens to the page. What
-- the router takes out of the path for a segment is an argument.
pub mod Found
pub mod Agreement
pub mod Shown
pub mod Missed
use shard_leak.Common.{
  Bool, true, false, Option, none, some, List, [], ◌∷◌, ◌≡◌, ◌≢◌, All, ◌⊎◌, inr,
}
use shard_leak.Common.Texts.{Text}
use shard_leak.Client.Api.{LimitConfig, Fetched, rejected, success, failure, Call, read_response}
use shard_leak.Client.Limits
use shard_leak.Client.Limits.{
  LimitsPage, create_start, delete_start, load_done, create_done, delete_done,
}
use shard_leak.Client.Uri.{encode_component}
use shard_leak.Backend.RateLimit.{cut}
use shard_leak.Backend.Auth.Page.{sent}
use shard_leak.Backend.Store.{Store}
use shard_leak.Backend.Store.Limits.{create_limit_config}
use shard_leak.Backend.Handlers.{for_user}
use shard_leak.Backend.Limits.{create_handler, list_handler, delete_handler}
use shard_leak.Backend.Api.{Library, Exchange, session, run}
use shard_leak.Backend.Api.Changes.{actor}

-- What happens: the user types, loads the page, submits the form or deletes a configuration, each call
-- with what the server draws for it; or others make requests.
pub data Action : Type 0 where
  types : Limits.Event → Action
  loads submits : Exchange → Action
  deletes : Text → Exchange → Action
  others : List Exchange → Action

-- The events that make no call and are no answer.
abbrev pub is_typing : Limits.Event → Bool
is_typing (Limits.type_identifier v) = true
is_typing (Limits.pick_algorithm a) = true
is_typing (Limits.type_limit n) = true
is_typing (Limits.type_window n) = true
is_typing Limits.toggle_create = true
is_typing Limits.open_create = true
is_typing _ = false

-- The list under `configs`, which is there.
abbrev pub as_listed : Fetched (List LimitConfig) → Fetched (Option (List LimitConfig))
as_listed (rejected message) = rejected message
as_listed (success code none) = success code none
as_listed (success code (some configs)) = success code (some (some configs))
as_listed (failure code body) = failure code body

module _ (lib : Library) (segment : Text → Text) where
  -- A submission that made a call, or made none.
  unfoldable pub submitted : Exchange → LimitsPage × Option Call → Store → LimitsPage × Store
  unfolding for_user create_handler create_limit_config
  submitted e (p, none) s = (p, s)
  submitted e (p, some call) s =
      let (after, answer) =
        for_user (session lib e)
          (λ user_id.
            create_handler lib.quote lib.shown (create_limit_config e.link e.new_id e.now user_id)
              (sent lib.decodes call.body))
          s in
      (Limits.step (Limits.created (read_response answer)) p, after)

  unfoldable pub act : Action → LimitsPage × Store → LimitsPage × Store
  unfolding submitted for_user list_handler delete_handler
  act (types event) (p, s) = (Limits.step event p, s)
  act (loads e) (p, s) =
      let (after, answer) =
        for_user (session lib e) (list_handler lib.shown lib.latest_configs e.link) s in
      (Limits.step (Limits.loaded (read_response (as_listed answer))) p, after)
  act (submits e) (p, s) = submitted e (create_start p) s
  act (deletes id e) (p, s) =
      let (after, answer) =
        for_user (session lib e) (delete_handler e.link (segment (encode_component id))) s in
      (
        Limits.step (Limits.deleted id (read_response answer))
            (Limits.step (Limits.click_delete id) p),
        after,
      )
  act (others es) (p, s) = (p, run lib es s)

  unfoldable pub act_all : List Action → LimitsPage × Store → LimitsPage × Store
  unfolding act
  act_all [] w = w
  act_all (a ∷ as') w = act_all as' (act a w)

  -- The actions are those of one user's page: its calls are made in the session of the user, whose
  -- statements may fail but are not cut off after their effect, a deletion's identifier comes out of
  -- the path as it is, and the other requests are not of that user.
  abbrev pub Sound : Text → Action → Type 0
  Sound v (types event) = is_typing event ≡ true
  Sound v (loads e) = session lib e ≡ inr v
  Sound v (submits e) = (session lib e ≡ inr v) × (e.link ≢ cut)
  Sound v (deletes id e) =
      (session lib e ≡ inr v) × (e.link ≢ cut) × (segment (encode_component id) ≡ id)
  Sound v (others es) = All (λ e. actor (session lib e) ≢ some v) es
