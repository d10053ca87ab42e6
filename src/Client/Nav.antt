-- ===== src/Client/Nav.antt =====
-- frontend/app/dashboard/layout.tsx: the links of the sidebar, and which one is marked.
use shard_leak.Common.{
  Option, ℕ, ◌+◌, ◌≤◌, Bool, true, List, [], ◌∷◌, if◌then◌else◌, map, ◌++◌, ◌≡◌, refl, arith,
  Bool-cases, inl, inr,
}
use mathlib.Core.Option
use shard_leak.Client.Session.{Layout}
use shard_leak.Client.Api.{User}
use shard_leak.Common.Texts.{Text, codes, text_eq, starts_with}

pub record NavItem : Type 0 where
  pub href : Text
  pub label : Text
  pub icon : Text

unfoldable pub nav : List NavItem
nav =
    record { href = codes "/dashboard"; label = codes "Overview"; icon = codes "◈" }
    ∷ record { href = codes "/dashboard/playground"; label = codes "Playground"; icon = codes "▶" }
    ∷ record { href = codes "/dashboard/limits"; label = codes "Rate Limits"; icon = codes "⊟" }
    ∷ record { href = codes "/dashboard/api-keys"; label = codes "API Keys"; icon = codes "⌘" }
    ∷ []

unfoldable pub is_active : Text → Text → Bool
is_active pathname href =
    if text_eq href (codes "/dashboard")
    then text_eq pathname (codes "/dashboard")
    else starts_with href pathname

unfoldable pub marks : Text → List Bool
unfolding nav
marks pathname = map (λ (item : NavItem). is_active pathname item.href) nav

-- What the layout shows around a page: nothing but a line while it loads; then the links, each with
-- whether it is marked, and the email of the user if there is one.
pub data Shell : Type 0 where
  waiting : Text → Shell
  around : List (NavItem × Bool) → Option Text → Shell

unfoldable pub layout_view : Text → Layout → Shell
unfolding nav
layout_view pathname l =
    if l.ready
    then around (map (λ (item : NavItem). (item, is_active pathname item.href)) nav)
        (Option.map (λ (u : User). u.email) l.user)
    else waiting (codes "LOADING...")

-- How many items are marked.
unfoldable pub marked : List Bool → ℕ
marked [] = 0
marked (b ∷ bs) = (if b then 1 else 0) + marked bs

starts_with-split : (p s : Text) → starts_with p s ≡ true → (t : Text) × (s ≡ p ++ t)
unfolding starts_with
starts_with-split [] s h = (s, refl)
starts_with-split (c ∷ p) [] h = cc
starts_with-split (c ∷ p) (d ∷ s) h =
    let same : c ≡ d = ground arith in
    let rest : starts_with p s ≡ true = ground arith in
    let (t, e) = starts_with-split p s rest in (t, rw (same, e) refl)

-- On any path at most one link of the sidebar is marked.
pub marked-marks : (pathname : Text) → marked (marks pathname) ≤ 1
unfolding marks is_active marked starts_with text_eq
marked-marks pathname = elim (Bool-cases (starts_with (codes "/dashboard/playground") pathname)) [
  | inl h ↦
      let (t, e) = starts_with-split (codes "/dashboard/playground") pathname h in
      rw e (omega arith)
  | inr a ↦ elim (Bool-cases (starts_with (codes "/dashboard/limits") pathname)) [
    | inl h ↦
        let (t, e) = starts_with-split (codes "/dashboard/limits") pathname h in rw e (omega arith)
    | inr b ↦ elim (Bool-cases (starts_with (codes "/dashboard/api-keys") pathname)) [
      | inl h ↦
          let (t, e) = starts_with-split (codes "/dashboard/api-keys") pathname h in
          rw e (omega arith)
      | inr d ↦ rw (a, b, d) (ground arith)
    ]
  ]
]
