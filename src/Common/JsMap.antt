-- ===== src/Common/JsMap.antt =====
-- A JavaScript `Map` with string keys, as its entries in order of insertion.
use mathlib.Core.Path.{◌≡◌, refl}
use mathlib.Core.Bool.{Bool, ◌&&◌}
use mathlib.Core.Option.{Option, none, some}
use mathlib.Core.List.{List, [], ◌∷◌}
use native.Mathlib.Omega.{arith}
use shard_leak.Common.Tests.{if◌then◌else◌, is_some}
use shard_leak.Common.Texts.{Text, text_eq, text_eq_iff}

module _ {ℓ} {V : Type ℓ} where
  unfoldable pub get : Text → List (Text × V) → Option V
  get k [] = none
  get k ((j, v) ∷ m) = if text_eq j k then some v else get k m

  -- A key that is there keeps its place.
  unfoldable pub set : Text → V → List (Text × V) → List (Text × V)
  set k v [] = (k, v) ∷ []
  set k v ((j, w) ∷ m) = if text_eq j k then (j, v) ∷ m else (j, w) ∷ set k v m

  unfoldable pub delete : Text → List (Text × V) → List (Text × V)
  delete k [] = []
  delete k ((j, w) ∷ m) = if text_eq j k then delete k m else (j, w) ∷ delete k m

  -- `for (const [k] of entries) { if (test(k)) m.delete(k); }`
  unfoldable pub delete_each : (Text → Bool) → List (Text × V) → List (Text × V) → List (Text × V)
  delete_each test [] m = m
  delete_each test ((k, v) ∷ entries) m =
      delete_each test entries (if test k then delete k m else m)

  pub get-set :
      (k j : Text) (v : V) (m : List (Text × V))
      → get j (set k v m) ≡ (if text_eq k j then some v else get j m)
  unfolding get set
  get-set k j v [] = refl
  get-set k j v ((i, w) ∷ m) =
      ground (arith, text_eq_iff k j, text_eq_iff i k, text_eq_iff i j, get-set k j v m)

  pub get-delete :
      (k j : Text) (m : List (Text × V))
      → get j (delete k m) ≡ (if text_eq k j then none else get j m)
  unfolding get delete
  get-delete k j [] = ground arith
  get-delete k j ((i, w) ∷ m) =
      ground (arith, text_eq_iff k j, text_eq_iff i k, text_eq_iff i j, get-delete k j m)

  get-delete_each :
      (test : Text → Bool) (j : Text) (es m : List (Text × V))
      → get j (delete_each test es m) ≡ (if test j && is_some (get j es) then none else get j m)
  unfolding get delete_each
  get-delete_each test j [] m = ground arith
  get-delete_each test j ((k, v) ∷ es) m = ground (
    arith,
    text_eq_iff k j,
    get-delete k j m,
    get-delete_each test j es (if test k then delete k m else m),
  )

  -- The loop over a map's own entries takes out the keys that pass the test, and no others.
  pub get-delete_each_self :
      (test : Text → Bool) (j : Text) (m : List (Text × V))
      → get j (delete_each test m m) ≡ (if test j then none else get j m)
  get-delete_each_self test j m = ground (arith, get-delete_each test j m m)
