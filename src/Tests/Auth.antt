-- ===== src/Tests/Auth.antt =====
-- backend/internal/middleware: the theorems with one key in the database.
use shard_leak.Common.{◌≡◌, true, false, Option, some, none, [], refl, get_or, if◌then◌else◌}
use shard_leak.Common.Texts.{Text, codes, text_eq}
use shard_leak.Backend.Redis.Memory.{memory}
use shard_leak.Backend.Check.{Server}
use shard_leak.Backend.Check.Tally.{no_metrics}
use shard_leak.Client.Api.{Call, Browser, build_request, or_else, get_token}
use shard_leak.Client.Api.{User}
use shard_leak.Client.Session.{App}
use shard_leak.Backend.Auth.Session.{Settled, get_me, layout_done-get_me}
use shard_leak.Client.Calls
use shard_leak.Client.Checks
use shard_leak.Client.Checks.{ChecksPage, request_of}
use shard_leak.Backend.Auth.{ApiKey, bearer_token}
use shard_leak.Backend.Auth.Bearer.{bearer_token-build_request}

abbrev with_session : Browser
with_session = record { has_window = true; stored = some (codes "session") }

bearer_token-build_request_example :
    bearer_token
      (build_request
        (codes "http://localhost:8082")
        (Calls.execute_check (codes "sk_shard_1") (request_of Checks.initial))
        with_session).authorization
    ≡ get_or (or_else (some (codes "sk_shard_1")) (get_token with_session)) []
unfolding Calls.execute_check
bearer_token-build_request_example =
    bearer_token-build_request (codes "http://localhost:8082")
      (Calls.execute_check (codes "sk_shard_1") (request_of Checks.initial)) with_session

-- The database has one key, of which the hash is the key itself.
abbrev one_key : Text → Option ApiKey
one_key hash =
    if text_eq hash (codes "sk_shard_1")
    then some (record { user_id = codes "u1"; revoked = false })
    else none

abbrev key_page : ChecksPage
key_page = record Checks.initial { api_key = codes "sk_shard_1 " }

abbrev key_call : Call
key_call = Calls.execute_check (codes "sk_shard_1") (request_of key_page)

abbrev fresh_server : Server memory
fresh_server = record { db = memory.empty; metrics = no_metrics }

-- The backend takes one token, for one user.
abbrev one_session : Text → Option Text
one_session token = if text_eq token (codes "session") then some (codes "u1") else none

abbrev one_user : Text → Option User
one_user id = some (record { id = id; email = codes "ann@example.com"; created_at = [] })

abbrev open_app : App
open_app = record { browser = with_session; moves = [] }

layout_done-get_me_example : Settled one_user (one_session (codes "session")) open_app (
    get_me one_session one_user
      (build_request (codes "http://localhost:8082") Calls.me with_session).authorization)
unfolding get_token
layout_done-get_me_example =
    layout_done-get_me one_session one_user (codes "http://localhost:8082") open_app refl (λ e. cc)
