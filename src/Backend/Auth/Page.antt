-- ===== src/Backend/Auth/Page.antt =====
-- The playground page of the dashboard against the backend: what its requests are answered.
use shard_leak.Common.{
  ℕ, ◌⊎◌, ◌≡◌, Bool, true, false, Option, none, some, is_some, if◌then◌else◌, refl, inl, inr, not,
}
use shard_leak.Common.Texts.{Text, codes, text_eq}
use shard_leak.Client.Api
use shard_leak.Client.Api.{Body, empty, credentials, key_name, config}
use shard_leak.Client.Calls
use shard_leak.Backend.Redis.{Redis}
use shard_leak.Backend.RateLimit.{Link, up, unreachable, cut, token_bucket, fixed_window, Request}
use shard_leak.Backend.Fraction.{Fraction}
use shard_leak.Backend.Check.{CheckRequest, Response, ok, error, Message, algorithm_of}
use shard_leak.Backend.Auth.{ApiKey}

abbrev pub sent_algorithm : Api.Algorithm → Text
sent_algorithm Api.token_bucket = codes "token_bucket"
sent_algorithm Api.fixed_window = codes "fixed_window"

-- A configuration as the handler decodes it. Whether it does is an argument: the JSON library refuses a
-- number that does not fit an `int`, and a text over 4096 bytes is cut off.
abbrev pub sent : (Api.CheckRequest → Bool) → Body → Option CheckRequest
sent decodes empty = none
sent decodes (credentials email password) = none
sent decodes (key_name name) = none
sent decodes (config r) =
    if decodes r
    then some (record {
      identifier = r.identifier;
      limit = r.limit;
      window_seconds = r.window_seconds;
      algorithm = sent_algorithm r.algorithm;
    })
    else none

abbrev pub status : Response → ℕ
status (ok headers body) = 200
status (error code name message) = code

abbrev pub is_live : Option ApiKey → Bool
is_live none = false
is_live (some key) = not key.revoked

abbrev pub is_up : Link → Bool
is_up up = true
is_up unreachable = false
is_up cut = false

abbrev pub has_passed : Message ⊎ Request → Bool
has_passed (inl message) = false
has_passed (inr req) = true

pub algorithm_of-sent : (a : Api.Algorithm) → is_some (algorithm_of (sent_algorithm a)) ≡ true
unfolding algorithm_of text_eq
algorithm_of-sent Api.token_bucket = refl
algorithm_of-sent Api.fixed_window = refl
