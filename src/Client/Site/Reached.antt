-- ===== src/Client/Site/Reached.antt =====
-- frontend/app: where the links of the pages and the router take a visitor.
use mathlib.Core.Path.{subst}
use shard_leak.Common.{
  ℕ, suc, zero, Bool, true, false, some, List, [], ◌∷◌, ◌≡◌, refl, Bool-cases, inl, inr, arith,
  ◌&&◌,
}
use shard_leak.Common.Texts.{Text, text_eq, text_eq_iff}
use shard_leak.Client.Nav.{nav}
use shard_leak.Client.Api.{ok, throw}
use shard_leak.Client.Session.{
  App, auth_mount, login_done, signup_done, layout_mount, layout_done, logout,
}
use shard_leak.Client.Site.{
  nth, routes, is_among, links_at, sections_at, resolves, navbar_links, hero_links, cta_links,
  login_links, signup_links, sidebar_links, overview_links, checks_links, landing_sections, Tab,
  Handler, mounted_form, mounted_layout, logged_out, logged_in, signed_up, told, handle,
  destination, Step, handled, routed, clicked, Visit, opened, then_step,
}

abbrev pub all : {A : Type 0} → (A → Bool) → List A → Bool
all f [] = true
all f (x ∷ xs) = f x && all f xs

all-nth :
    {A : Type 0} (f : A → Bool) (xs : List A) (n : ℕ) (x : A)
    → all f xs ≡ true
    → nth xs n ≡ some x
    → f x ≡ true
all-nth f [] n x h e = cc
all-nth f (y ∷ ys) zero x h e = ground arith
all-nth f (y ∷ ys) (suc n) x h e = all-nth f ys n x (ground arith) e

all-is_among :
    (f : Text → Bool) (ts : List Text) (t : Text)
    → all f ts ≡ true
    → is_among t ts ≡ true
    → f t ≡ true
all-is_among f [] t h e = cc
all-is_among f (u ∷ us) t h e = elim (Bool-cases (text_eq t u)) [
  | inl same ↦ rw ((text_eq_iff t u).0 same) (ground arith)
  | inr other ↦ all-is_among f us t (ground arith) (ground arith)
]

abbrev pub all_resolve : Bool → Text → Bool
all_resolve no_limits path = all (λ l. resolves path l.target) (links_at no_limits path)

routes-all_resolve : (no_limits : Bool) → all (all_resolve no_limits) routes ≡ true
unfolding links_at sections_at landing_sections navbar_links hero_links cta_links login_links
    signup_links sidebar_links overview_links checks_links nav routes text_eq
routes-all_resolve true = refl
routes-all_resolve false = refl

abbrev sent_to_routes : App → Bool
sent_to_routes a = all (λ m. is_among (destination m) routes) a.moves

handle-sent_to_routes :
    (h : Handler) (a : App) → sent_to_routes a ≡ true → sent_to_routes (handle h a) ≡ true
unfolding handle auth_mount layout_mount logout login_done signup_done layout_done routes text_eq
handle-sent_to_routes mounted_form a h = ground (arith, h)
handle-sent_to_routes mounted_layout a h = ground (arith, h)
handle-sent_to_routes logged_out a h = ground (arith, h)
handle-sent_to_routes (logged_in f (ok token)) a h = ground (arith, h)
handle-sent_to_routes (logged_in f (throw e)) a h = h
handle-sent_to_routes (signed_up f (ok token)) a h = ground (arith, h)
handle-sent_to_routes (signed_up f (throw e)) a h = h
handle-sent_to_routes (told l (ok user)) a h = h
handle-sent_to_routes (told l (throw e)) a h = ground (arith, h)

abbrev OnSite : Tab → Type 0
OnSite t = (is_among t.path routes ≡ true) × (sent_to_routes t.app ≡ true)

step-OnSite : {t u : Tab} → Step t u → OnSite t → OnSite u
step-OnSite {t} (handled h) s = (s.0, handle-sent_to_routes h t.app s.1)
step-OnSite {t} (routed n m e) s =
    (all-nth (λ m. is_among (destination m) routes) t.app.moves n m s.1 e, s.1)
step-OnSite {t} (clicked no_limits n l href e k) s =
    let r =
      all-nth (λ l. resolves t.path l.target) (links_at no_limits t.path) n l
        (all-is_among (all_resolve no_limits) routes t.path (routes-all_resolve no_limits) s.0) e in
    (subst (λ x. resolves t.path x ≡ true) k r, s.1)

Visit-OnSite : {t : Tab} → Visit t → OnSite t
Visit-OnSite (opened path b h) = (h, refl)
Visit-OnSite (then_step v s) = step-OnSite s (Visit-OnSite v)

-- On every visit, the path is that of a page of the site, and each link of that page leads to a page
-- of the site or to a section of the page itself.
pub Visit-resolve :
    {t : Tab}
    → Visit t
    → (no_limits : Bool) → (is_among t.path routes ≡ true) × (all_resolve no_limits t.path ≡ true)
Visit-resolve {t} v no_limits =
    let h = (Visit-OnSite v).0 in
    (h, all-is_among (all_resolve no_limits) routes t.path (routes-all_resolve no_limits) h)
