-- ===== src/Demo/Nav.antt =====
-- frontend-demo/app/dashboard/layout.tsx: the links of the sidebar and of the bar on small screens.
use shard_leak.Common.{
  ◌≡◌, Bool, ◌||◌, List, [], ◌∷◌, if◌then◌else◌, map, ◌++◌, refl, Bool-cases, inl, inr,
}
use shard_leak.Common.Texts.{Text, codes, text_eq, text_eq_iff}

pub record NavItem : Type 0 where
  pub href : Text
  pub label : Text
  pub icon : Text

unfoldable pub nav : List NavItem
nav =
    record { href = codes "/dashboard"; label = codes "OVERVIEW"; icon = codes "⊟" }
    ∷ record { href = codes "/dashboard/playground"; label = codes "PLAYGROUND"; icon = codes "▶" }
    ∷ []

-- A link that is shown: where it goes, its icon if it has one, and whether it is marked.
pub record NavLink : Type 0 where
  pub to : Text
  pub text : Text
  pub active : Bool

unfoldable pub sidebar : Text → List NavLink
unfolding nav
sidebar pathname =
    map
      (λ (item : NavItem). record {
        to = item.href;
        text = item.icon ++ item.label;
        active = text_eq pathname item.href;
      })
      nav

unfoldable pub mobile_bar : Text → List NavLink
unfolding nav
mobile_bar pathname =
    map
      (λ (item : NavItem). record {
        to = item.href;
        text = item.label;
        active = text_eq pathname item.href;
      })
      nav

-- The links that are marked.
unfoldable pub marked_hrefs : List NavLink → List Text
marked_hrefs [] = []
marked_hrefs (l ∷ ls) = if l.active then l.to ∷ marked_hrefs ls else marked_hrefs ls

-- On each of its two pages the dashboard marks the link to that page and no other, and on any other
-- path it marks none, in the sidebar and in the bar alike.
pub marked_hrefs-sidebar :
    (pathname : Text)
    → (marked_hrefs (sidebar pathname) ≡ (
        if text_eq pathname (codes "/dashboard") || text_eq pathname (codes "/dashboard/playground")
        then pathname ∷ []
        else []))
      × (marked_hrefs (mobile_bar pathname) ≡ marked_hrefs (sidebar pathname))
unfolding marked_hrefs sidebar mobile_bar text_eq
marked_hrefs-sidebar pathname = elim (Bool-cases (text_eq pathname (codes "/dashboard"))) [
  | inl h ↦ rw ((text_eq_iff pathname (codes "/dashboard")).0 h) (refl, refl)
  | inr a ↦ elim (Bool-cases (text_eq pathname (codes "/dashboard/playground"))) [
    | inl h ↦ rw ((text_eq_iff pathname (codes "/dashboard/playground")).0 h) (refl, refl)
    | inr b ↦ rw (a, b) (refl, refl)
  ]
]
