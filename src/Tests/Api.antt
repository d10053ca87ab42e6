-- ===== src/Tests/Api.antt =====
-- backend/internal: the theorems on the routes of the dashboard at small inputs.
use shard_leak.Common.{
  true, ℕ, none, some, Option, [], ◌∷◌, inl, inr, ltb, if◌then◌else◌, ◌≡◌, refl, arith,
}
use shard_leak.Common.Texts.{Text, codes, decimal, text_eq, text_eq_iff, starts_with}
use shard_leak.Client.Api.{User, success, bearer}
use shard_leak.Backend.RateLimit.{up}
use shard_leak.Backend.Auth.{bearer_token, jwt_auth, admit_session, session_user, trim_prefix}
use shard_leak.Backend.Store.{
  Store, UserRow, KeyRow, empty_store, no_rows, first_of, insert_row, exec,
}
use shard_leak.Backend.Store.Users.{create_user, judge_user}
use shard_leak.Backend.Store.Keys.{create_api_key, judge_key, revoke_api_key, revocable}
use shard_leak.Backend.Handlers.{for_user}
use shard_leak.Backend.Accounts.{
  Claims, create_token, validate_token, Credentials, index, valid_email, user_response,
  signup_answer, signup_hashed, signup_checked, signup_handler,
}
use shard_leak.Backend.Keys
use shard_leak.Backend.Api
use shard_leak.Backend.Api.{Library, Request, Exchange, Answer, session, admit, route, serve, run}
use shard_leak.Backend.Api.Signup.{IsLawful}
use shard_leak.Backend.Api.Signup.Session.{me-signup}
use shard_leak.Backend.Api.KeyLife.Created.{admit-created}
use shard_leak.Backend.Api.KeyLife.Revoked.{admit-revoked}
use shard_leak.Backend.Api.Isolation.{serve-others}
use shard_leak.Backend.Api.Invariant.Made.{IsMade}
use shard_leak.Backend.Api.Invariant.Routes.{run-IsMade}

-- A token is the time at which it was signed and the time at which it expires, before the user's id.
abbrev token_claims : ℕ → Text → Option Claims
token_claims later [] = none
token_claims later (now ∷ []) = none
token_claims later (now ∷ end' ∷ id) =
    if ltb later end'
    then some (record { subject = id; issued_at = now; expires_at = end' })
    else none

abbrev pub lib : Library
lib = record {
  normal = λ t. t;
  hash_password = λ salt password. some password;
  compare_password = text_eq;
  sign = λ c. some (c.issued_at ∷ c.expires_at ∷ c.subject);
  parse = token_claims;
  sha256 = λ t. t;
  shown = decimal;
  quote = λ t. t;
  decodes = λ c. true;
  is_uuid = λ t. true;
  latest_keys = λ rows. rows;
  latest_configs = λ rows. rows;
}

lib-IsLawful : IsLawful lib
lib-IsLawful = record {
  compares = λ {salt} {password} {hash} e. ground (arith, text_eq_iff hash password);
  signs = λ {claims} {later} {t} e from' until.
      let e' : claims.issued_at ∷ claims.expires_at ∷ claims.subject ≡ t = cc in
      rw (← e') (ground arith);
  named = λ {claims} {t} e none_there. cc;
}

-- A request of a session, or of nobody.
abbrev pub asks : Option Text → Request → Text → Exchange
asks authorization request new_id = record {
  authorization = authorization;
  request = request;
  link = up;
  now = 5;
  new_id = new_id;
  salt = [];
  random = some (18 ∷ 255 ∷ []);
}

abbrev ada : Credentials
ada = record { email = codes "a@b.c"; password = codes "password" }

abbrev joins : Exchange
joins = asks none (Api.signup (some ada)) (codes "u")

abbrev other_joins : Exchange
other_joins =
    asks none (Api.signup (some (record { email = codes "d@e.f"; password = codes "password" })))
      (codes "w")

abbrev ada_user : User
ada_user = record { id = codes "u"; email = codes "a@b.c"; created_at = decimal 5 }

abbrev logs_in : Exchange
logs_in = asks none (Api.login (some ada)) []

abbrev asks_me : Exchange
asks_me = asks (bearer (some (5 ∷ 86405 ∷ codes "u"))) Api.me []

joins-answered : (serve lib joins empty_store).1 ≡ Api.user (success 201 (some ada_user))
unfolding serve route signup_handler signup_checked signup_hashed signup_answer user_response
    valid_email index starts_with create_user judge_user insert_row first_of text_eq
joins-answered = refl

me-signup_example :
    let signed_up = run lib (other_joins ∷ []) (serve lib joins empty_store).0 in
    let (signed_in, answer) = serve lib logs_in signed_up in
    (answer ≡ Api.token (success 200 (some (5 ∷ 86405 ∷ codes "u"))))
    × ((serve lib asks_me (run lib [] signed_in)).1 ≡ Api.user (success 200 (some ada_user)))
unfolding create_token
me-signup_example =
    me-signup lib lib-IsLawful joins logs_in asks_me (other_joins ∷ []) [] empty_store ada ada
      {u = ada_user} {t = 5 ∷ 86405 ∷ codes "u"} refl joins-answered (λ e. cc) refl refl refl refl
      refl refl refl refl (omega arith) (omega arith)

abbrev pub ada_session : Option Text
ada_session = bearer (some (5 ∷ 86405 ∷ codes "u"))

abbrev pub eve_session : Option Text
eve_session = bearer (some (5 ∷ 86405 ∷ codes "w"))

abbrev makes_key : Exchange
makes_key = asks ada_session (Api.create_key (some (codes "CI"))) (codes "k")

abbrev made_key : Keys.CreatedKey
made_key = record {
  id = codes "k";
  name = codes "CI";
  key = codes "sk_shard_12ff";
  created_at = decimal 5;
}

abbrev pub ada_row : UserRow
ada_row = record {
  id = codes "u";
  email = codes "a@b.c";
  password_hash = codes "password";
  created_at = 5;
}

abbrev pub joined : Store
joined = record { tables = record no_rows { users = ada_row ∷ [] }; db_errors = 0 }

makes_key-answered : (serve lib makes_key joined).1 ≡ Api.key (success 201 (some made_key))
unfolding serve route session validate_token jwt_auth bearer_token trim_prefix starts_with
    admit_session session_user for_user Keys.create_handler Keys.create_generated Keys.plaintext_of
    Keys.hex Keys.created_answer create_api_key judge_key insert_row first_of text_eq
makes_key-answered = refl

run-IsMade_example : IsMade lib (run lib (joins ∷ makes_key ∷ other_joins ∷ []) empty_store).tables
run-IsMade_example =
    run-IsMade lib (joins ∷ makes_key ∷ other_joins ∷ []) empty_store
      (record { users = tt; api_keys = tt; configs = tt })

abbrev uses_key : Exchange
uses_key = asks (bearer (some (codes "sk_shard_12ff"))) Api.check []

admit-created_example :
    admit lib uses_key (run lib (other_joins ∷ []) (serve lib makes_key joined).0) ≡ inr (codes "u")
unfolding session validate_token jwt_auth bearer_token trim_prefix starts_with admit_session
    session_user
admit-created_example =
    admit-created lib makes_key uses_key (other_joins ∷ []) joined {made = made_key}
      makes_key-answered refl ((λ r. let never : none ≡ some (codes "k") = r.0 in cc), tt) refl refl

abbrev key_row : KeyRow
key_row = record {
  id = codes "k";
  user_id = codes "u";
  key_hash = codes "sk_shard_12ff";
  name = codes "CI";
  created_at = 5;
  revoked_at = none;
}

abbrev keyed : Store
keyed = record joined { tables = record joined.tables { api_keys = key_row ∷ [] } }

abbrev revokes_key : Exchange
revokes_key = asks ada_session (Api.revoke_key (codes "k")) []

revokes_key-answered : (serve lib revokes_key keyed).1 ≡ Api.status (success 200 (some tt))
unfolding serve route session validate_token jwt_auth bearer_token trim_prefix starts_with
    admit_session session_user for_user Keys.revoke_handler Keys.revoked_answer revoke_api_key
    revocable exec first_of text_eq
revokes_key-answered = refl

admit-revoked_example :
    admit lib uses_key (run lib (makes_key ∷ []) (serve lib revokes_key keyed).0)
    ≡ inl (codes "API key has been revoked")
unfolding session validate_token jwt_auth bearer_token trim_prefix starts_with admit_session
    session_user first_of text_eq
admit-revoked_example =
    admit-revoked lib revokes_key uses_key (makes_key ∷ []) keyed b's' (codes "k_shard_12ff")
      {k = key_row} refl refl refl revokes_key-answered refl

abbrev lists_keys : Exchange
lists_keys = asks ada_session Api.list_keys []

abbrev eve_revokes : Exchange
eve_revokes = asks eve_session (Api.revoke_key (codes "k")) []

serve-others_example :
    (serve lib lists_keys (run lib (eve_revokes ∷ []) keyed)).1 ≡ (serve lib lists_keys keyed).1
unfolding session validate_token jwt_auth bearer_token trim_prefix starts_with admit_session
    session_user
serve-others_example =
    serve-others lib lists_keys (eve_revokes ∷ []) keyed (codes "u") refl refl
      ((λ same. let never : some (codes "w") ≡ some (codes "u") = same in ground arith), tt)
