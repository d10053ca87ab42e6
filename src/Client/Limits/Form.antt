-- ===== src/Client/Limits/Form.antt =====
-- frontend/app/dashboard/limits/page.tsx: the create form.
use shard_leak.Common.{
  ℕ, zero, suc, false, Option, none, some, [], ◌∷◌, ◌++◌, All, ◌≡◌, ◌≢◌, refl, arith,
}
use shard_leak.Common.Int.{ℤ, pos, negsuc}
use shard_leak.Common.Texts.{Text, codes}
use shard_leak.Client.Api.{Call, CheckRequest}
use shard_leak.Client.Calls
use shard_leak.Client.Uri.{trim, encode_component}
use shard_leak.Client.Uri.Encode.{IsPlain, IsScalar, encode_component-IsPlain}
use shard_leak.Client.Uri.Trim.{trim-trim}
use shard_leak.Client.Limits.{
  LimitsPage, not_positive, form_guard, create_guarded, create_start, delete_start,
}

-- A configuration that the server accepts.
pub record Acceptable (r : CheckRequest) : Type 0 where
  pub named : r.identifier ≢ []
  pub trimmed : trim r.identifier ≡ r.identifier
  pub limit : (n : ℕ) × (r.limit ≡ pos (suc n))
  pub window_seconds : (n : ℕ) × (r.window_seconds ≡ pos (suc n))

positive : (n : ℤ) → not_positive n ≡ false → (m : ℕ) × (n ≡ pos (suc m))
positive (pos zero) h = cc
positive (pos (suc n)) h = (n, refl)
positive (negsuc n) h = cc

guard_passed :
    (id : Text) (limit window_seconds : ℤ)
    → form_guard id limit window_seconds ≡ none
    → (id ≢ []) × (not_positive limit ≡ false) × (not_positive window_seconds ≡ false)
unfolding form_guard
guard_passed [] limit window_seconds h = cc
guard_passed (c ∷ id) limit window_seconds h = ((λ e. cc), ground arith, ground arith)

guarded :
    (g : Option Text) (p : LimitsPage) {c : Call}
    → form_guard (trim p.identifier) p.limit p.window_seconds ≡ g
    → (create_guarded g p).1 ≡ some c
    → (r : CheckRequest) × (c ≡ Calls.create_limit r)
      × Acceptable r
      × (r.limit ≡ p.limit)
      × (r.window_seconds ≡ p.window_seconds)
      × (r.algorithm ≡ p.algorithm)
unfolding create_guarded
guarded (some e) p g h = cc
guarded none p g h =
    let (named, some_limit, some_window) =
      guard_passed (trim p.identifier) p.limit p.window_seconds g in
    (
      record {
        identifier = trim p.identifier;
        algorithm = p.algorithm;
        limit = p.limit;
        window_seconds = p.window_seconds;
      },
      cc,
      record {
        named = named;
        trimmed = trim-trim p.identifier;
        limit = positive p.limit some_limit;
        window_seconds = positive p.window_seconds some_window;
      },
      refl,
      refl,
      refl,
    )

-- What the form sends is acceptable: a submission that makes a call sends the configuration of the
-- form, with an identifier that is neither empty nor has spaces around it, and with a limit and a
-- window above 0.
pub create_start-Acceptable :
    (p : LimitsPage) {c : Call}
    → (create_start p).1 ≡ some c
    → (r : CheckRequest) × (c ≡ Calls.create_limit r)
      × Acceptable r
      × (r.limit ≡ p.limit)
      × (r.window_seconds ≡ p.window_seconds)
      × (r.algorithm ≡ p.algorithm)
unfolding create_start
create_start-Acceptable p h =
    guarded (form_guard (trim p.identifier) p.limit p.window_seconds) p refl h

-- A deletion names its configuration by one segment of the path: behind `/api/v1/limits/` stand
-- unreserved characters and `%` only, so no `/`, `?` or `#`, whatever the identifier holds. It holds no
-- half of a surrogate pair.
pub delete_start-path :
    (id : Text) (p : LimitsPage) {c : Call}
    → All IsScalar id
    → (delete_start id p).1 ≡ some c
    → (segment : Text) × (c.path ≡ codes "/api/v1/limits/" ++ segment)
      × All IsPlain segment
      × ((delete_start id p).0.deleting ≡ some id)
unfolding delete_start Calls.delete_limit
delete_start-path id p {c} h sent =
    let path : c.path ≡ codes "/api/v1/limits/" ++ encode_component id = cc in
    (encode_component id, path, encode_component-IsPlain id h, refl)
