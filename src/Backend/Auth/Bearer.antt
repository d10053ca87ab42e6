-- ===== src/Backend/Auth/Bearer.antt =====
-- The header Authorization, from the client's `request` to the backend's `bearerToken`.
use shard_leak.Common.{◌≡◌, Option, none, some, [], ◌∷◌, get_or, refl}
use shard_leak.Common.Texts.{Text, starts_with}
use shard_leak.Client.Api.{Call, Browser, build_request, bearer, or_else, get_token}
use shard_leak.Backend.Auth.{bearer_token}

pub bearer_token-bearer : (t : Option Text) → bearer_token (bearer t) ≡ get_or t []
unfolding bearer_token starts_with
bearer_token-bearer none = refl
bearer_token-bearer (some []) = refl
bearer_token-bearer (some (c ∷ s)) = refl

-- The backend reads the token that the client sent: `bearerToken` of the header that `request` builds,
-- if it arrives as it was built, is the override token of the call if there is one, else the token in
-- the browser's storage, and it is empty if there is neither.
pub bearer_token-build_request :
    (base : Text) (c : Call) (b : Browser)
    → bearer_token (build_request base c b).authorization
      ≡ get_or (or_else c.override_token (get_token b)) []
unfolding build_request
bearer_token-build_request base c b = bearer_token-bearer (or_else c.override_token (get_token b))
