-- ===== src/Client/Site.antt =====
-- frontend/app and frontend/components: the links between the pages, and to the sections of the landing
-- page. Styles are left out.
pub mod Reached
use shard_leak.Common.{
  ℕ, suc, zero, Bool, true, false, Option, none, some, List, [], ◌∷◌, ◌++◌, map, ◌||◌,
  if◌then◌else◌, ◌≡◌,
}
use shard_leak.Common.Texts.{Text, codes, text_eq}
use shard_leak.Client.Nav.{NavItem, nav}
use shard_leak.Client.Api.{Browser, Result, User}
use shard_leak.Client.Session.{
  Move, push, replace, App, AuthForm, Layout, auth_mount, login_done, signup_done, layout_mount,
  layout_done, logout,
}

abbrev pub nth {ℓ} : {A : Type ℓ} → List A → ℕ → Option A
nth [] n = none
nth (x ∷ xs) zero = some x
nth (x ∷ xs) (suc n) = nth xs n

pub data Target : Type 0 where
  page section : Text → Target

pub record SiteLink : Type 0 where
  pub target : Target
  pub label : Text

abbrev pub to_page : Text → Text → SiteLink
to_page href label = record { target = page href; label = label }

-- A link to `#` and the id.
abbrev pub to_section : Text → Text → SiteLink
to_section id label = record { target = section id; label = label }

-- The directories of frontend/app that have a page.
unfoldable pub routes : List Text
routes =
    codes "/"
    ∷ codes "/login"
    ∷ codes "/signup"
    ∷ codes "/dashboard"
    ∷ codes "/dashboard/playground"
    ∷ codes "/dashboard/limits"
    ∷ codes "/dashboard/api-keys"
    ∷ []

abbrev pub is_among : Text → List Text → Bool
is_among t [] = false
is_among t (u ∷ us) = text_eq t u || is_among t us

unfoldable pub navbar_links : List SiteLink
navbar_links =
    to_page (codes "/") (codes "SHARDLEAK")
    ∷ to_section (codes "problem") (codes "PROBLEM")
    ∷ to_section (codes "how-it-works") (codes "HOW IT WORKS")
    ∷ to_section (codes "algorithms") (codes "ALGORITHMS")
    ∷ to_section (codes "architecture") (codes "ARCHITECTURE")
    ∷ to_page (codes "/login") (codes "Sign In")
    ∷ to_page (codes "/signup") (codes "Get Started")
    ∷ []

unfoldable pub hero_links : List SiteLink
hero_links =
    to_page (codes "/signup") (codes "Get Started →")
    ∷ to_section (codes "architecture") (codes "View Architecture")
    ∷ []

unfoldable pub cta_links : List SiteLink
cta_links =
    to_page (codes "/signup") (codes "Create Account →")
    ∷ to_page (codes "/login") (codes "Sign In")
    ∷ []

-- The ids of the sections, in the order of the page; `Hero` and `CTASection` have none.
unfoldable pub landing_sections : List Text
landing_sections =
    codes "problem" ∷ codes "how-it-works" ∷ codes "algorithms" ∷ codes "architecture" ∷ []

unfoldable pub login_links : List SiteLink
login_links =
    to_page (codes "/") (codes "SHARDLEAK") ∷ to_page (codes "/signup") (codes "Sign up") ∷ []

unfoldable pub signup_links : List SiteLink
signup_links =
    to_page (codes "/") (codes "SHARDLEAK") ∷ to_page (codes "/login") (codes "Sign in") ∷ []

-- The links of the dashboard's layout, which are on each page below it.
unfoldable pub sidebar_links : List SiteLink
unfolding nav
sidebar_links =
    to_page (codes "/") (codes "SHARDLEAK")
    ∷ map (λ (item : NavItem). to_page item.href item.label) nav

-- The link to create a first configuration is there if there is none.
unfoldable pub overview_links : Bool → List SiteLink
overview_links no_limits =
    to_page (codes "/dashboard/limits") (codes "Manage →")
      ∷ (if no_limits
          then to_page (codes "/dashboard/limits") (codes "+ Create your first configuration") ∷ []
          else [])
    ++ (to_page (codes "/dashboard/playground") (codes "Playground →")
        ∷ to_page (codes "/dashboard/playground") (codes "Open Playground →")
        ∷ [])

unfoldable pub checks_links : List SiteLink
checks_links = to_page (codes "/dashboard/api-keys") (codes "API Keys") ∷ []

-- The links of the page at a path. Whether the overview has no limit to show is given.
unfoldable pub links_at : Bool → Text → List SiteLink
unfolding navbar_links hero_links cta_links login_links signup_links sidebar_links overview_links
    checks_links
links_at no_limits path =
    if text_eq path (codes "/")
    then navbar_links ++ hero_links ++ cta_links
    else if text_eq path (codes "/login")
    then login_links
    else if text_eq path (codes "/signup")
    then signup_links
    else if text_eq path (codes "/dashboard")
    then sidebar_links ++ overview_links no_limits
    else if text_eq path (codes "/dashboard/playground")
    then sidebar_links ++ checks_links
    else if text_eq path (codes "/dashboard/limits")
    then sidebar_links
    else if text_eq path (codes "/dashboard/api-keys")
    then sidebar_links
    else []

-- The sections of the page at a path that a link can name.
unfoldable pub sections_at : Text → List Text
unfolding landing_sections
sections_at path = if text_eq path (codes "/") then landing_sections else []

-- What a link of the page at a path needs: that its page is there, or its section on the page itself.
abbrev pub resolves : Text → Target → Bool
resolves path (page href) = is_among href routes
resolves path (section id) = is_among id (sections_at path)

-- A tab of the browser: the path of the page that it shows, and what the pages share.
pub record Tab : Type 0 where
  pub path : Text
  pub app : App

-- The ends of the handlers that the pages share; what a handler gets is any.
pub data Handler : Type 0 where
  mounted_form mounted_layout logged_out : Handler
  logged_in signed_up : AuthForm → Result Text → Handler
  told : Layout → Result User → Handler

unfoldable pub handle : Handler → App → App
handle mounted_form a = auth_mount a
handle mounted_layout a = (layout_mount a).0
handle logged_out a = logout a
handle (logged_in f r) a = (login_done r (f, a)).1
handle (signed_up f r) a = (signup_done r (f, a)).1
handle (told l r) a = (layout_done r (l, a)).1

abbrev pub destination : Move → Text
destination (push href) = href
destination (replace href) = href

-- The router shows a path that it was sent to; a click on a link to a page shows that page.
pub data Step (t : Tab) : Tab → Type 0 where
  handled : (h : Handler) → Step t (record t { app = handle h t.app })
  routed :
      (n : ℕ) (m : Move) → nth t.app.moves n ≡ some m → Step t (record t { path = destination m })
  clicked :
      (no_limits : Bool) (n : ℕ) (l : SiteLink) (href : Text)
      → nth (links_at no_limits t.path) n ≡ some l
      → l.target ≡ page href
      → Step t (record t { path = href })

-- A tab that was opened at a page of the site, from any storage.
pub data Visit : Tab → Type 0 where
  opened :
      (path : Text) (b : Browser)
      → is_among path routes ≡ true
      → Visit (record { path = path; app = record { browser = b; moves = [] } })
  then_step : {t u : Tab} → Visit t → Step t u → Visit u
