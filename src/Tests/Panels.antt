-- ===== src/Tests/Panels.antt =====
-- The endpoint panel, at small inputs.
use dotnet_web_api_startpack.Prelude.{
  Text, lit, Option, [], ◌∷◌, none, some, ◌≡◌, ◌≤◌, ◌*◌, refl, true, false, length, text_eq, member,
  starts_with, set_key, split, split_from, if◌then◌else◌,
}
use dotnet_web_api_startpack.Types.{PanelTab}
use dotnet_web_api_startpack.Json.{Json}
use dotnet_web_api_startpack.Platform.{Platform, ReadsBack}
use dotnet_web_api_startpack.Template.{
  word, template_name, replace_from, resolve_template_string, materialize,
}
use dotnet_web_api_startpack.Uri.{
  encode_component, encode_points, encode_point, code_points_from, is_unreserved,
}
use dotnet_web_api_startpack.Headers.{
  build_headers, add_authorization, add_csrf, add_transport, is_unsafe, read_cookie,
}
use dotnet_web_api_startpack.Curl.Shell.{shell_words}
use dotnet_web_api_startpack.Fetch.{ApiRequestInput, fetch_request, parse_request_body}
use dotnet_web_api_startpack.Workbench.State.{RunRequestOptions}
use dotnet_web_api_startpack.Workbench.Request.{request_input}
use dotnet_web_api_startpack.Detail.{
  Detail, View, Action, copied, execute, copy_curl, request_path, format_json, read_body,
}
use dotnet_web_api_startpack.Detail.Body.{read_body-format_json}
use dotnet_web_api_startpack.Detail.Confirmation.{replay, replay-presses}
use dotnet_web_api_startpack.Detail.Copy.{request_words, shell_words-copy_curl}
use dotnet_web_api_startpack.Tests.Samples.{
  platform, closure, sample_endpoint, sample_body, json_text,
}

abbrev view : View
view = record {
  endpoint = record sample_endpoint { destructive = true };
  closure = closure;
  header_cookies = lit "a=1";
  result = none;
  is_running = false;
}

abbrev panel : Detail
panel = record {
  draft = record { path_values = []; query_values = []; body_text = json_text sample_body };
  path_override = some (lit "/api/it's");
  tab = PanelTab.request;
  acknowledged = none;
  confirming = false;
}

replay-presses_example :
    2
      * length (
          replay ⦃p = platform⦄
            ((view, Action.press_send)
              ∷ (view, Action.cancel)
              ∷ (view, Action.shortcut)
              ∷ (view, Action.press_confirm)
              ∷ [])
            panel)
    ≤ 3
replay-presses_example =
    replay-presses ⦃p = platform⦄
      ((view, Action.press_send)
        ∷ (view, Action.cancel)
        ∷ (view, Action.shortcut)
        ∷ (view, Action.press_confirm)
        ∷ [])
      panel (refl, (refl, (refl, (refl, tt))))

abbrev options : RunRequestOptions
options = record {
  endpoint = view.endpoint;
  path = some (lit "/api/it's");
  body = some sample_body;
  headers = [];
  display = true;
  report_error = true;
  auth_mode = none;
}

abbrev input : ApiRequestInput
input = record {
  api_base = closure.api_base;
  endpoint = view.endpoint;
  path = lit "/api/it's";
  body = some sample_body;
  headers =
      (lit "Accept", lit "application/json")
      ∷ (lit "Content-Type", lit "application/json")
      ∷ (lit "X-CSRF-Token", lit "csrf")
      ∷ (lit "X-Auth-Transport", lit "cookie")
      ∷ [];
  auth_mode = closure.auth_mode;
}

shell_words-copy_curl_example :
    (command : Text) × (copy_curl ⦃p = platform⦄ view panel ≡ some (panel, copied command))
    × (shell_words command ≡ some (request_words (fetch_request ⦃p = platform⦄ input)))
unfolding execute request_path request_input parse_request_body materialize resolve_template_string
    replace_from template_name word starts_with text_eq build_headers add_authorization add_csrf
    add_transport is_unsafe read_cookie member set_key split split_from encode_component
    encode_points encode_point code_points_from is_unreserved
shell_words-copy_curl_example =
    shell_words-copy_curl ⦃p = platform⦄ view panel panel options input refl refl

-- A platform whose indented text differs from the compact one.
abbrev parse_both : Text → Option Json
parse_both t =
    if text_eq t (json_text sample_body)
    then some sample_body
    else (if text_eq t (b' ' ∷ json_text sample_body) then some sample_body else none)

abbrev indenting : Platform
indenting = record platform { json_parse = parse_both; json_indent = λ v. b' ' ∷ json_text v }

sample-ReadsBack : ReadsBack indenting sample_body
unfolding text_eq
sample-ReadsBack = record { parse-stringify = refl; parse-indent = refl; parse-empty = refl }

read_body-format_json_example :
    (d' : Detail) × (format_json ⦃p = indenting⦄ panel ≡ some d')
    × (read_body ⦃p = indenting⦄ view d' ≡ read_body ⦃p = indenting⦄ view panel)
    × (request_path ⦃p = indenting⦄ view d' ≡ request_path ⦃p = indenting⦄ view panel)
unfolding text_eq
read_body-format_json_example =
    read_body-format_json ⦃p = indenting⦄ view panel sample_body refl sample-ReadsBack
