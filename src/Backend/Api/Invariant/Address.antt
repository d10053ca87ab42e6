-- ===== src/Backend/Api/Invariant/Address.antt =====
-- backend/internal/handlers/auth.go: what `validEmail` says of an address.
use shard_leak.Common.{
  ℕ, ◌+◌, ◌-◌, ◌≤◌, ◌<◌, length-append, ◌≡◌, ◌≢◌, inl, inr, Bool, true, false, ◌||◌, if◌then◌else◌,
  ltb, leb, ◌==◌, some, [], ◌∷◌, ◌++◌, length, ap, arith, Bool-cases, Option-cases,
}
use shard_leak.Common.Texts.{Text}
use shard_leak.Backend.Accounts.{index, valid_email}

index_split :
    (s : Text) (c n : ℕ)
    → index s c ≡ some n
    → (before after : Text) × (s ≡ before ++ (c ∷ after)) × (length before ≡ n)
unfolding index
index_split [] c n e = cc
index_split (d ∷ s) c n e = elim (Bool-cases (d == c)) [
  | inl same ↦ ([], s, ground (arith, e), ground (arith, e))
  | inr other ↦ elim (Option-cases (index s c)) [
    | inl missing ↦ absurd (ground (arith, e))
    | inr (m, found) ↦
        let (before, after, split, long) = index_split s c m found in
        (d ∷ before, after, ap (λ t. d ∷ t) split, ground (arith, e))
  ]
]

-- An address with something on both sides of its `@`.
abbrev pub IsAddress : Text → Type 0
IsAddress email =
    (before after : Text) × (email ≡ before ++ (b'@' ∷ after)) × (before ≢ []) × (after ≢ [])

pub cons-ne : (c : ℕ) (t : Text) → (c ∷ t) ≢ []
cons-ne c t e = cc e

pub ne : ¬ (false ≡ true)
ne e = cc e

short_before : (before : Text) (n : ℕ) → 1 ≤ n → length before ≡ n → before ≢ []
short_before [] n h e = absurd (omega (arith, h, e))
short_before (c ∷ before) n h e = cons-ne c before

short_after :
    (before after email : Text) (n : ℕ)
    → email ≡ before ++ (b'@' ∷ after)
    → length before ≡ n
    → n + 1 < length email
    → after ≢ []
short_after before [] email n split long h =
    absurd (omega (arith, h, long, ap length split, length-append before (b'@' ∷ [])))
short_after before (c ∷ after) email n split long h = cons-ne c after

guarded :
    (email : Text) (n : ℕ) (rest : Bool)
    → (if ltb n 1 || leb (length email - 1) n then false else rest) ≡ true
    → (1 ≤ n) × (n + 1 < length email)
guarded email n rest h = ground arith

pub valid_email-IsAddress : (email : Text) → valid_email email ≡ true → IsAddress email
unfolding valid_email
valid_email-IsAddress email valid = elim (Option-cases (index email b'@')) [
  | inl missing ↦ absurd (ne (rw (missing, valid_email) at valid))
  | inr (n, found) ↦
      let (before, after, split, long) = index_split email b'@' n found in
      let (some_before, some_after) = guarded email n _ (rw (found, valid_email) at valid) in
      (
        before,
        after,
        split,
        short_before before n some_before long,
        short_after before after email n split long some_after,
      )
]
