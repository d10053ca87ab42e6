-- ===== src/Backend/Api/Invariant/Made.antt =====
-- backend/internal/handlers: what the checks of the handlers say of the rows.
use shard_leak.Common.{
  ℕ, ◌≤◌, ◌≡◌, ◌≢◌, inl, inr, Bool, Option, none, some, List, [], ◌∷◌, ◌++◌, keep_if, All, ap, sym,
  ◌∙◌, arith, Bool-cases,
}
use shard_leak.Common.Texts.{Text, codes, text_eq, text_eq_iff}
use shard_leak.Backend.Check.{CheckRequest}
use shard_leak.Backend.Store.{Tables, UserRow, KeyRow, LimitRow}
use shard_leak.Backend.Store.Keys.{revocable, revoke}
use shard_leak.Backend.Accounts.{byte_length}
use shard_leak.Backend.Keys
use shard_leak.Backend.Limits
use shard_leak.Backend.Api.{Library}
use shard_leak.Backend.Api.Invariant.Address.{ne, IsAddress}

pub limit_validated-named :
    (body : Option CheckRequest) (req : CheckRequest)
    → Limits.limit_validated body ≡ inr req
    → req.identifier ≢ []
unfolding Limits.limit_validated
limit_validated-named none req e = absurd (cc e)
limit_validated-named (some r) req e = elim (Bool-cases (text_eq r.identifier [])) [
  | inl empty ↦ absurd (cc (rw (empty, Limits.limit_validated) at e))
  | inr named ↦
      let same : r ≡ req = grind (arith, named, e) in
      λ none_there.
        ne (sym named ∙ (text_eq_iff r.identifier []).1 (ap (λ q. q.identifier) same ∙ none_there))
]

pub All-keep_if :
    {A : Type 0} (P : A → Type 0) (keep : A → Bool) (xs : List A)
    → All P xs
    → All P (keep_if keep xs)
All-keep_if P keep [] h = tt
All-keep_if P keep (x ∷ xs) h = elim (Bool-cases (keep x)) [
  | inl kept ↦ rw kept (h.0, All-keep_if P keep xs h.1)
  | inr dropped ↦ rw dropped (All-keep_if P keep xs h.1)
]

module _ (lib : Library) where
  -- A user has an address in its normal form, and the hash of a password of eight bytes or more.
  abbrev pub UserIsMade : UserRow → Type 0
  UserIsMade u =
      IsAddress u.email
      × ((raw : Text) × (u.email ≡ lib.normal raw))
      × ((salt password : Text) × (8 ≤ byte_length password)
          × (lib.hash_password salt password ≡ some u.password_hash))

  -- A key has a name, and the hash of a generated text.
  abbrev pub KeyIsMade : KeyRow → Type 0
  KeyIsMade k =
      (k.name ≢ [])
      × ((bytes : List ℕ) × (k.key_hash ≡ lib.sha256 (codes "sk_shard_" ++ Keys.hex bytes)))

  abbrev pub ConfigIsMade : LimitRow → Type 0
  ConfigIsMade c = c.identifier ≢ []

  pub record IsMade (t : Tables) : Type 0 where
    pub users : All UserIsMade t.users
    pub api_keys : All KeyIsMade t.api_keys
    pub configs : All ConfigIsMade t.configs

  pub revoke-KeyIsMade :
      (now : ℕ) (id user_id : Text) (k : KeyRow) → KeyIsMade k → KeyIsMade (revoke now id user_id k)
  unfolding revoke
  revoke-KeyIsMade now id user_id k h = elim (Bool-cases (revocable id user_id k)) [
    | inl withdrawn ↦ rw withdrawn h
    | inr kept ↦ rw kept h
  ]
