-- ===== src/Backend/Limits/Dashboard/Found.antt =====
-- The configuration that the server has of a user for an identifier, and the list that it gives.
use mathlib.Core.List.{Permᴰ}
use mathlib.Core.List.Permᴰ.{nil, cons, swap, trans}
use shard_leak.Common.{
  ℕ, Bool, false, Option, none, some, List, [], ◌∷◌, map, keep_if, is_some, if◌then◌else◌, ◌≡◌,
  refl, sym, ap, subst, ◌∙◌, arith, Bool-cases, inl, inr,
}
use shard_leak.Common.Texts.{Text, text_eq, text_eq_iff}
use shard_leak.Client.Api.{LimitConfig}
use shard_leak.Client.Limits.Replay.{row_of}
use shard_leak.Backend.Store.{LimitRow, Tables, first_of, some_row, config_of, config_at}
use shard_leak.Backend.Store.Limits.{other_config}
use shard_leak.Backend.Store.Consistent.{Apart, same_config}
use shard_leak.Backend.Limits.{config_response}
use shard_leak.Backend.Api.Isolation.{configs_of, first_of-config}

abbrev pub shown_row : (ℕ → Text) → Option LimitRow → Option LimitConfig
shown_row shown none = none
shown_row shown (some c) = some (config_response shown c)

-- The row of a list for an identifier.
abbrev pub find : Text → List LimitRow → Option LimitRow
find id = first_of (λ c. text_eq c.identifier id)

-- What the server has of a user for an identifier.
abbrev pub stored : Text → Tables → Text → Option LimitRow
stored v t id = first_of (config_at v id) t.configs

abbrev pub same_identifier : LimitRow → LimitRow → Bool
same_identifier x y = text_eq y.identifier x.identifier

row_of-find :
    (shown : ℕ → Text) (id : Text) (rows : List LimitRow)
    → row_of (map (config_response shown) rows) id ≡ shown_row shown (find id rows)
unfolding row_of first_of config_response
row_of-find shown id [] = refl
row_of-find shown id (c ∷ rows) = ground (arith, row_of-find shown id rows)

-- What `find-perm` says of two lists.
abbrev Alike : List LimitRow → List LimitRow → Type 0
Alike xs ys = Apart same_identifier ys × ((id : Text) → find id xs ≡ find id ys)

swap_find :
    (a b : LimitRow) (l : List LimitRow)
    → Apart same_identifier (a ∷ b ∷ l)
    → Apart same_identifier (b ∷ a ∷ l) × ((id : Text) → find id (a ∷ b ∷ l) ≡ find id (b ∷ a ∷ l))
unfolding first_of
swap_find a b l apart =
    let distinct : text_eq b.identifier a.identifier ≡ false = ground (arith, apart.0) in
    let clear : some_row (same_identifier a) l ≡ false = ground (arith, apart.0) in
    let distinct' : text_eq a.identifier b.identifier ≡ false = ground (
      arith,
      distinct,
      text_eq_iff a.identifier b.identifier,
      text_eq_iff b.identifier a.identifier,
    ) in
    (
      (rw distinct' apart.1.0, (clear, apart.1.1)),
      λ id. ground (
        arith,
        distinct,
        text_eq_iff a.identifier id,
        text_eq_iff b.identifier id,
        text_eq_iff b.identifier a.identifier,
      ),
    )

-- The order of rows with different identifiers makes no difference.
find-perm :
    {xs ys : List LimitRow}
    → Permᴰ xs ys
    → Apart same_identifier xs
    → Apart same_identifier ys × ((id : Text) → find id xs ≡ find id ys)
unfolding first_of
find-perm nil apart = (tt, λ id. refl)
find-perm (cons {a = a} e p) apart =
    let (rest, found) = find-perm p apart.1 in
    ((rw (← e, ← found a.identifier) apart.0, rest), λ id. rw (e, found id) refl)
find-perm (swap {a = a} {b = b} {b' = b'} {l = l} e e') apart =
    subst (λ x. Alike (a ∷ b ∷ l) (x ∷ b' ∷ l)) e'
      (subst (λ y. Alike (a ∷ b ∷ l) (b ∷ y ∷ l)) e (swap_find a b l apart))
find-perm (trans p q) apart =
    let (middle, found) = find-perm p apart in
    let (last, found') = find-perm q middle in (last, λ id. found id ∙ found' id)

Apart-configs :
    (v : Text) (configs : List LimitRow)
    → Apart same_config configs
    → Apart same_identifier (keep_if (config_of v) configs)
unfolding first_of
Apart-configs v [] apart = tt
Apart-configs v (c ∷ configs) apart = elim (Bool-cases (config_of v c)) [
  | inl mine ↦
      let owner : c.user_id ≡ v = (text_eq_iff c.user_id v).0 mine in
      let clear : is_some (first_of (config_at v c.identifier) configs) ≡ false =
        rw owner at apart.0 in
      rw mine (rw (← first_of-config v c.identifier configs) clear, Apart-configs v configs apart.1)
  | inr other ↦ rw other (Apart-configs v configs apart.1)
]

-- The list of the server has for each identifier what the server has for it.
pub row_of-listed :
    (shown : ℕ → Text) (v : Text) (t : Tables) (rows : List LimitRow) (id : Text)
    → Apart same_config t.configs
    → Permᴰ (configs_of v t) rows
    → row_of (map (config_response shown) rows) id ≡ shown_row shown (stored v t id)
row_of-listed shown v t rows id apart p =
    row_of-find shown id rows
    ∙ ap (shown_row shown) (
        sym ((find-perm p (Apart-configs v t.configs apart)).1 id)
        ∙ sym (first_of-config v id t.configs))

pub stored-drop :
    (v id other : Text) (configs : List LimitRow)
    → first_of (config_at v other) (keep_if (other_config v id) configs)
      ≡ (if text_eq id other then none else first_of (config_at v other) configs)
unfolding first_of
stored-drop v id other [] = ground arith
stored-drop v id other (c ∷ configs) = ground (
  arith,
  text_eq_iff id other,
  text_eq_iff c.identifier id,
  text_eq_iff c.identifier other,
  stored-drop v id other configs,
)
