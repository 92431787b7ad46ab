-- ===== src/Tests/Samples.antt =====
-- A small platform and data for the tests and the witnesses.
use dotnet_web_api_startpack.Prelude.{
  Text, lit, [], ◌∷◌, ◌++◌, true, false, Option, none, some, starts_with, text_eq, if◌then◌else◌,
}
use dotnet_web_api_startpack.Json.{
  Json, null, bool, num, str, arr, obj, Items, nil, cons, Fields, end, field,
}
use dotnet_web_api_startpack.Types.{
  post, EndpointGroup, AuthRequirement, AuthMode, EndpointDefinition, WorkbenchVariables, ApiResult,
  LocalizedCopy,
}
use dotnet_web_api_startpack.Constants.{empty_variables}
use dotnet_web_api_startpack.Platform.{Platform, Url}
use dotnet_web_api_startpack.Curl.{CurlInput}
use dotnet_web_api_startpack.Vault.{Storage}
use dotnet_web_api_startpack.Workbench.State.{Workbench, Closure, RunRequestOptions, initial}

abbrev pub quote : Text → Text
quote t = b'"' ∷ (t ++ lit "\"")

-- A printer for texts that need no escape.
abbrev mutual
  pub json_text : Json → Text
  json_text null = lit "null"
  json_text (bool true) = lit "true"
  json_text (bool false) = lit "false"
  json_text (num n) = n
  json_text (str s) = quote s
  json_text (arr vs) = b'[' ∷ items_text vs
  json_text (obj fs) = b'{' ∷ fields_text fs

  pub items_text : Items → Text
  items_text nil = lit "]"
  items_text (cons v nil) = json_text v ++ lit "]"
  items_text (cons v (cons w vs)) = json_text v ++ (b',' ∷ items_text (cons w vs))

  pub fields_text : Fields → Text
  fields_text end = lit "}"
  fields_text (field k v end) = quote k ++ (b':' ∷ (json_text v ++ lit "}"))
  fields_text (field k v (field k' v' fs)) =
      quote k ++ (b':' ∷ (json_text v ++ (b',' ∷ fields_text (field k' v' fs))))

-- The body that the tests send.
abbrev pub sample_body : Json
sample_body = obj (field (lit "name") (str (lit "it's")) end)

-- It parses that body and nothing else.
abbrev pub parse_sample : Text → Option Json
parse_sample t = if text_eq t (json_text sample_body) then some sample_body else none

abbrev pub sample_url : Url
sample_url = record {
  pathname = lit "/callback";
  search = lit "?code=c&state=s";
  search_params = (lit "code", lit "c") ∷ (lit "state", lit "s") ∷ [];
}

abbrev pub platform : Platform
platform = record {
  native_source = λ name. lit "function " ++ (name ++ lit "() { [native code] }");
  json_parse = parse_sample;
  json_stringify = json_text;
  json_indent = json_text;
  message = λ key values. key;
  parse_url = λ text base. if starts_with (lit "http") text then some sample_url else none;
}

abbrev pub variables : WorkbenchVariables
variables = record empty_variables {
  access_token = lit "token";
  api_key = lit "ak_1";
  csrf_token = lit "csrf";
}

abbrev pub sample_label : LocalizedCopy
sample_label = record { title = []; description = [] }

abbrev pub sample_endpoint : EndpointDefinition
sample_endpoint = record {
  id = lit "auth-login";
  method = post;
  path = lit "/api/items/{id}";
  copy = record { en = sample_label; de = sample_label; tr = sample_label };
  group = EndpointGroup.authentication;
  auth = AuthRequirement.public;
  body = some sample_body;
  path_params = record { name = lit "id"; value = lit "{{apiKey}}" } ∷ [];
  query = record { name = lit "page"; value = lit "1" } ∷ [];
  destructive = false;
  special = none;
}

abbrev pub curl_input : CurlInput
curl_input = record {
  api_base = lit "http://localhost";
  endpoint = sample_endpoint;
  path = lit "/a b";
  body = some sample_body;
  headers = (lit "Accept", lit "application/json") ∷ [];
}

abbrev pub storage : Storage
storage = record {
  entries =
      (lit "other", lit "kept")
      ∷ (lit "startpack.workbench.accessToken", lit "token")
      ∷ (lit "startpack.workbench.apiKey", lit "ak_1")
      ∷ (lit "startpack.workbench.authMode", lit "cookie")
      ∷ (lit "startpack.workbench.csrfToken", lit "csrf")
      ∷ [];
  blocked = false;
  limit = 1000;
}

abbrev pub page : Workbench
page = initial storage

abbrev pub closure : Closure
closure = record {
  api_base = lit "http://localhost";
  auth_mode = AuthMode.cookie;
  variables = variables;
}

abbrev pub options : RunRequestOptions
options = record {
  endpoint = sample_endpoint;
  path = none;
  body = some sample_body;
  headers = [];
  display = true;
  report_error = true;
  auth_mode = some AuthMode.bearer;
}

-- A lone surrogate in a path value, which cannot be encoded.
abbrev pub broken_closure : Closure
broken_closure = record closure { variables = record variables { api_key = 0xD800 ∷ [] } }

abbrev pub sample_result : ApiResult
sample_result = record {
  status = 200;
  status_text = lit "OK";
  ok = true;
  raw = json_text sample_body;
  json_data = sample_body;
  elapsed_ms = 5;
  headers = [];
}
