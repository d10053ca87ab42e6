-- ===== src/Backend/Limits/Dashboard/Shown.antt =====
-- The limits page of the dashboard over any actions of its user and requests of others.
use mathlib.Core.List.{Permᴰ}
use shard_leak.Common.{
  Option, none, some, List, [], ◌∷◌, All, ◌≡◌, ◌≢◌, refl, sym, ap, ◌∙◌, inr, true,
}
use shard_leak.Common.Texts.{Text}
use shard_leak.Client.Api.{Call}
use shard_leak.Client.Limits
use shard_leak.Client.Limits.{LimitsPage, create_start, delete_start}
use shard_leak.Client.Limits.Replay.{row_of, configs-create_start}
use shard_leak.Client.Uri.{encode_component}
use shard_leak.Backend.RateLimit.{up}
use shard_leak.Backend.Auth.Page.{sent}
use shard_leak.Backend.Store.{Store, LimitRow, first_of}
use shard_leak.Backend.Store.Consistent.{Consistent, Change-Consistent}
use shard_leak.Backend.Limits.{list_handler, delete_handler}
use shard_leak.Backend.Limits.Dashboard.{
  Action, types, loads, submits, deletes, others, is_typing, submitted, act, act_all, Sound,
}
use shard_leak.Backend.Limits.Dashboard.Found.{shown_row, stored}
use shard_leak.Backend.Limits.Dashboard.Agreement.{
  Agrees, for_user-named, loaded-Agrees, load-Agrees, delete-Agrees, submit-Agrees,
}
use shard_leak.Backend.Api.{
  Library, Exchange, session, route, list_limits, create_limit, delete_limit, run,
}
use shard_leak.Backend.Api.Changes.{route-Change}
use shard_leak.Backend.Api.Invariant.{run-Consistent}
use shard_leak.Backend.Api.Isolation.{first_of-config, run-others}

module _ (lib : Library) (segment : Text → Text) where
  submitted-Consistent :
      (e : Exchange) (w : LimitsPage × Option Call) (s : Store)
      → Consistent s.tables
      → Consistent (submitted lib segment e w s).1.tables
  unfolding submitted route
  submitted-Consistent e (p, none) s c = c
  submitted-Consistent e (p, some call) s c =
      Change-Consistent (route-Change lib e (create_limit (sent lib.decodes call.body)) s) c

  act-Consistent :
      (a : Action) (p : LimitsPage) (s : Store)
      → Consistent s.tables
      → Consistent (act lib segment a (p, s)).1.tables
  unfolding act route
  act-Consistent (types event) p s c = c
  act-Consistent (loads e) p s c = Change-Consistent (route-Change lib e list_limits s) c
  act-Consistent (submits e) p s c = submitted-Consistent e (create_start p) s c
  act-Consistent (deletes id e) p s c =
      Change-Consistent (route-Change lib e (delete_limit (segment (encode_component id))) s) c
  act-Consistent (others es) p s c = run-Consistent lib es s c

  module _ (v : Text) (named : v ≢ [])
      (order : (rows : List LimitRow) → Permᴰ rows (lib.latest_configs rows)) where
    types-Agrees :
        (event : Limits.Event) (p : LimitsPage) (s : Store)
        → is_typing event ≡ true
        → Agrees lib v (p, s)
        → Agrees lib v (Limits.step event p, s)
    unfolding Limits.step
    types-Agrees (Limits.type_identifier t) p s h a = a
    types-Agrees (Limits.pick_algorithm t) p s h a = a
    types-Agrees (Limits.type_limit n) p s h a = a
    types-Agrees (Limits.type_window n) p s h a = a
    types-Agrees Limits.toggle_create p s h a = a
    types-Agrees Limits.open_create p s h a = a
    types-Agrees (Limits.loaded r) p s h a = cc
    types-Agrees Limits.submit p s h a = cc
    types-Agrees (Limits.created r) p s h a = cc
    types-Agrees (Limits.click_delete id) p s h a = cc
    types-Agrees (Limits.deleted id r) p s h a = cc

    submitted-Agrees :
        (e : Exchange) (p : LimitsPage) (s : Store) (o : Option Call)
        → Sound lib segment v (submits e)
        → (create_start p).1 ≡ o
        → Agrees lib v (p, s)
        → Agrees lib v (submitted lib segment e ((create_start p).0, o) s)
    unfolding submitted Limits.step
    submitted-Agrees e p s none sound h a = λ id. rw (configs-create_start p) (a id)
    submitted-Agrees e p s (some call) (mine, whole) h a =
        rw (mine, for_user-named v _ s named) (submit-Agrees lib v e p s whole h a)

    act-Agrees :
        (x : Action) (p : LimitsPage) (s : Store)
        → Sound lib segment v x
        → Consistent s.tables
        → Agrees lib v (p, s)
        → Agrees lib v (act lib segment x (p, s))
    unfolding act Limits.step delete_start
    act-Agrees (types event) p s sound c a = types-Agrees event p s sound a
    act-Agrees (loads e) p s sound c a =
        rw (sound, for_user-named v (list_handler lib.shown lib.latest_configs e.link) s named)
          (load-Agrees lib v e.link p s order c a)
    act-Agrees (submits e) p s sound c a = submitted-Agrees e p s (create_start p).1 sound refl a
    act-Agrees (deletes id e) p s (mine, whole, arrives) c a =
        rw (mine, arrives, for_user-named v (delete_handler e.link id) s named)
          (delete-Agrees lib v e.link id (delete_start id p).0 s whole a)
    act-Agrees (others es) p s sound c a = λ id.
        a id
        ∙ ap (shown_row lib.shown) (
            first_of-config v id s.configs
            ∙ ap (first_of _) (sym (run-others v lib es s sound).1)
            ∙ sym (first_of-config v id (run lib es s).configs))

    first_load :
        (e : Exchange) (p : LimitsPage) (s : Store)
        → Consistent s.tables
        → session lib e ≡ inr v
        → e.link ≡ up
        → Agrees lib v (act lib segment (loads e) (p, s))
    unfolding act Limits.step
    first_load e p s c mine link =
        rw (mine, for_user-named v (list_handler lib.shown lib.latest_configs e.link) s named, link)
          (loaded-Agrees lib v p s order c)

    act_all-Agrees :
        (xs : List Action) (w : LimitsPage × Store)
        → All (Sound lib segment v) xs
        → Consistent w.1.tables
        → Agrees lib v w
        → Agrees lib v (act_all lib segment xs w)
    unfolding act_all
    act_all-Agrees [] w sound c a = a
    act_all-Agrees (x ∷ xs) (p, s) sound c a =
        act_all-Agrees xs (act lib segment x (p, s)) sound.1 (act-Consistent x p s c)
          (act-Agrees x p s sound.0 c a)

    -- The limits page shows what the server has. Once the page has loaded its list, then whatever its
    -- user types, reloads, submits and deletes, and whatever requests other users make in between, the
    -- list has for every identifier the configuration that the server has of the user for it, and none
    -- if the server has none. The calls of the page are made in the session of the user and answered
    -- one at a time; their statements may fail, but a creation or a deletion is not cut off after its
    -- effect; and the identifier of a deletion comes out of the path as it is. The server's tables are
    -- within the constraints of the schema at the start, and it lists the rows of a user, in any order.
    pub row_of-stored :
        (e : Exchange) (xs : List Action) (p : LimitsPage) (s : Store) (id : Text)
        → Consistent s.tables
        → session lib e ≡ inr v
        → e.link ≡ up
        → All (Sound lib segment v) xs
        → (let (after, kept) = act_all lib segment (loads e ∷ xs) (p, s) in
            row_of after.configs id ≡ shown_row lib.shown (stored v kept.tables id))
    unfolding act_all
    row_of-stored e xs p s id c mine link sound =
        act_all-Agrees xs (act lib segment (loads e) (p, s)) sound (act-Consistent (loads e) p s c)
          (first_load e p s c mine link) id
