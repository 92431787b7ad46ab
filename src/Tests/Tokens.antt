-- ===== src/Tests/Tokens.antt =====
-- A login on a page of workbench-context.tsx, and the request after it.
use dotnet_web_api_startpack.Prelude.{
  lit, [], ◌∷◌, false, true, none, some, ◌≡◌, refl, lookup, text_eq, member, set_key,
}
use dotnet_web_api_startpack.Json.{obj, str, field, end}
use dotnet_web_api_startpack.Types.{ApiResult, AuthMode, AuthRequirement}
use dotnet_web_api_startpack.Fetch.{FetchRequest, success, fetch_request}
use dotnet_web_api_startpack.Headers.{build_headers, add_csrf, add_authorization, add_transport}
use dotnet_web_api_startpack.Vault.Variables.{with_variable}
use dotnet_web_api_startpack.Workbench.State.{
  Workbench, Closure, Flight, RunRequestOptions, set_variable,
}
use dotnet_web_api_startpack.Workbench.Capture.{
  get_property, capture_response_data, capture_tokens, capture_social, choose_notice,
  capture_passkey, data_notice,
}
use dotnet_web_api_startpack.Workbench.Request.{finish_request, request_input, start_request}
use dotnet_web_api_startpack.Workbench.Session.{Event, act, finish_flight}
use dotnet_web_api_startpack.Workbench.Issued.Presented.{start_request-finish}
use dotnet_web_api_startpack.Tests.Samples.{
  platform, page, closure, options, sample_endpoint, sample_result,
}

abbrev login_flight : Flight
login_flight = record {
  controller = 0;
  aborted = false;
  options = options;
  closure = record closure { auth_mode = AuthMode.bearer };
}

abbrev logging_in : Workbench
logging_in = record page {
  in_flight = login_flight ∷ [];
  abort = some 0;
  next_controller = 1;
  is_running = true;
}

abbrev pub login_result : ApiResult
login_result = record sample_result {
  json_data = obj (field (lit "accessToken") (str (lit "fresh")) end);
}

abbrev logged_in : Workbench
logged_in = act ⦃p = platform⦄ (Event.finish 0 (success login_result) []) logging_in

abbrev next_render : Closure
next_render = record {
  api_base = lit "http://localhost";
  auth_mode = AuthMode.bearer;
  variables = logged_in.variables;
}

abbrev private_options : RunRequestOptions
private_options = record options {
  endpoint = record sample_endpoint { auth = AuthRequirement.auth; body = none };
  path = some (lit "/api/me");
  body = none;
}

abbrev private_request : FetchRequest
private_request = record {
  url = lit "http://localhost/api/me";
  method = lit "POST";
  headers = (lit "Accept", lit "application/json") ∷ (lit "Authorization", lit "Bearer fresh") ∷ [];
  body = none;
  include = false;
}

start_request-finish_example :
    lookup (lit "Authorization") private_request.headers ≡ some (lit "Bearer fresh")
unfolding start_request request_input build_headers add_csrf add_authorization add_transport
    get_property fetch_request act finish_flight finish_request capture_response_data capture_social
    choose_notice capture_tokens capture_passkey data_notice set_variable with_variable member
    text_eq lookup set_key
start_request-finish_example =
    start_request-finish ⦃p = platform⦄ AuthMode.bearer (lit "fresh") login_flight 0 login_result []
      logging_in next_render private_options [] logged_in {request = private_request} refl refl refl
      refl refl refl refl refl refl refl
