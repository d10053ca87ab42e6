-- ===== src/Client/Calls.antt =====
-- frontend/lib/api.ts, `api`: the call that each of its functions makes.
use shard_leak.Common.{none, some, ◌++◌}
use shard_leak.Common.Texts.{Text, codes}
use shard_leak.Client.Api.{
  Call, CheckRequest, post_method, get_method, delete_method, credentials, empty, key_name, config,
}
use shard_leak.Client.Uri.{encode_component}

unfoldable pub signup : Text → Text → Call
signup email password = record {
  path = codes "/api/v1/auth/signup";
  method = post_method;
  body = credentials email password;
  override_token = none;
}

unfoldable pub login : Text → Text → Call
login email password = record {
  path = codes "/api/v1/auth/login";
  method = post_method;
  body = credentials email password;
  override_token = none;
}

unfoldable pub me : Call
me = record {
  path = codes "/api/v1/auth/me";
  method = get_method;
  body = empty;
  override_token = none;
}

unfoldable pub list_keys : Call
list_keys = record {
  path = codes "/api/v1/api-keys";
  method = get_method;
  body = empty;
  override_token = none;
}

unfoldable pub create_key : Text → Call
create_key name = record {
  path = codes "/api/v1/api-keys";
  method = post_method;
  body = key_name name;
  override_token = none;
}

unfoldable pub revoke_key : Text → Call
revoke_key id = record {
  path = codes "/api/v1/api-keys/" ++ id;
  method = delete_method;
  body = empty;
  override_token = none;
}

unfoldable pub list_limits : Call
list_limits = record {
  path = codes "/api/v1/limits";
  method = get_method;
  body = empty;
  override_token = none;
}

unfoldable pub create_limit : CheckRequest → Call
create_limit req = record {
  path = codes "/api/v1/limits";
  method = post_method;
  body = config req;
  override_token = none;
}

unfoldable pub delete_limit : Text → Call
delete_limit identifier = record {
  path = codes "/api/v1/limits/" ++ encode_component identifier;
  method = delete_method;
  body = empty;
  override_token = none;
}

unfoldable pub execute_check : Text → CheckRequest → Call
execute_check api_key req = record {
  path = codes "/api/v1/check";
  method = post_method;
  body = config req;
  override_token = some api_key;
}
