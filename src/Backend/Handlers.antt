-- ===== src/Backend/Handlers.antt =====
-- backend/internal/handlers: what the handlers of the dashboard's routes share.
--
-- A handler is a function of the store, to the store after it and its answer, which is given as what
-- `fetch` makes of it. A body is given as it is decoded: `none` is one that JSON refuses, or one over
-- 4096 bytes.
use shard_leak.Common.{◌⊎◌, inl, inr, [], ◌∷◌}
use shard_leak.Common.Texts.{Text, codes}
use shard_leak.Client.Api.{Fetched}
use shard_leak.Backend.Store.{Store, Outcome}
use shard_leak.Backend.Auth.Session.{error_answer}

abbrev pub Handler {ℓ} : Type ℓ → Type ℓ
Handler T = Store → Store × Fetched T

-- `writeError` with status 400, and with status 500.
abbrev pub bad_request {ℓ} : {T : Type ℓ} → Text → Fetched T
bad_request message = error_answer 400 (codes "INVALID_REQUEST") message

abbrev pub internal_error {ℓ} : {T : Type ℓ} → Text → Fetched T
internal_error message = error_answer 500 (codes "INTERNAL_ERROR") message

-- A handler that answers with what the store's method gives it.
abbrev pub answer_with {ℓ κ} :
    {A : Type ℓ} {T : Type κ} → (Outcome A → Fetched T) → Store × Outcome A → Store × Fetched T
answer_with answer (s, o) = (s, answer o)

-- A handler behind `JWTAuth`, with its own check of `GetUserID`.
unfoldable pub for_user {ℓ} : {T : Type ℓ} → Text ⊎ Text → (Text → Handler T) → Handler T
for_user (inl message) h s = (s, error_answer 401 (codes "UNAUTHORIZED") message)
for_user (inr []) h s = (s, error_answer 401 (codes "UNAUTHORIZED") (codes "not authenticated"))
for_user (inr (c ∷ id)) h s = h (c ∷ id) s
