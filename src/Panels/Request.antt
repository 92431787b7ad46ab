-- ===== src/Panels/Request.antt =====
-- The request tab, playground-ui/src/features/workbench/endpoint-request-panel.tsx.
use dotnet_web_api_startpack.Prelude.{
  Text, lit, List, [], ◌∷◌, ◌++◌, map, Bool, true, not, Option, none, some, or_else, lookup, join,
  if◌then◌else◌,
}
use dotnet_web_api_startpack.Types.{EndpointDefinition, EndpointParameter, method_text}
use dotnet_web_api_startpack.Platform.{Platform}
use dotnet_web_api_startpack.Headers.{Headers, is_some, redact_header}
use dotnet_web_api_startpack.Detail.{Detail, cannot_send}
use dotnet_web_api_startpack.Panels.{Button, Field, text}

-- The two buttons of an open confirmation.
pub record Confirmation : Type 0 where
  pub confirm : Button
  pub cancel : Button

-- The warning on a destructive endpoint.
pub record Warning : Type 0 where
  pub title : Text
  pub description : Text
  pub confirmation : Option Confirmation

-- The editor of a body with the button that formats it.
pub record BodyEditor : Type 0 where
  pub label : Text
  pub value : Text
  pub format : Button

-- Parameters that an endpoint does not have are not shown.
pub record RequestPanel : Type 0 where
  pub path_fields : Option (List Field)
  pub query_fields : Option (List Field)
  pub body : Option BodyEditor
  pub method : Text
  pub path : Text
  pub headers : Text
  pub warning : Option Warning
  pub send : Button
  pub copy : Button

-- `ParameterFields`; no parameter is named like an inherited property.
abbrev pub parameter_fields : List EndpointParameter → List (Text × Text) → List Field
parameter_fields parameters values =
    map
      (λ (parameter : EndpointParameter). record {
        label = parameter.name;
        value = or_else (lookup parameter.name values) [];
      })
      parameters

abbrev pub shown_fields : List EndpointParameter → List (Text × Text) → Option (List Field)
shown_fields [] values = none
shown_fields (p ∷ ps) values = some (parameter_fields (p ∷ ps) values)

-- One line of the preview.
abbrev pub header_line : Text × Text → Text
header_line (name, value) = name ++ (lit ": " ++ redact_header name value)

module _ ⦃p : Platform⦄ where
  -- The preview of the headers.
  unfoldable pub preview : Headers → Text
  preview [] = text (lit "no_custom_headers")
  preview (h ∷ hs) = join (lit "\n") (map header_line (h ∷ hs))

  abbrev pub confirmation : (title : Text) → (confirming is_running : Bool) → Option Confirmation
  confirmation title confirming is_running =
      if confirming
      then some (record {
        confirm = record {
          label = p.message (lit "confirm_operation") ((lit "operation", title) ∷ []);
          enabled = not is_running;
        };
        cancel = record { label = text (lit "cancel"); enabled = true };
      })
      else none

  abbrev pub warning :
      EndpointDefinition → (title : Text) → (confirming is_running : Bool) → Option Warning
  warning endpoint title confirming is_running =
      if endpoint.destructive
      then some (record {
        title = text (lit "destructive_title");
        description = text (lit "destructive_description");
        confirmation = confirmation title confirming is_running;
      })
      else none

  abbrev pub body_editor : EndpointDefinition → Text → Option BodyEditor
  body_editor endpoint body_text =
      if is_some endpoint.body
      then some (record {
        label = text (lit "request_body");
        value = body_text;
        format = record { label = text (lit "format_json"); enabled = true };
      })
      else none

  abbrev pub send_button : (confirming is_running : Bool) → Button
  send_button confirming is_running = record {
    label = text (if is_running then lit "sending_request" else lit "send_request");
    enabled = not (cannot_send is_running confirming);
  }

  -- `EndpointRequestPanel`, with the title of the endpoint, its path and its headers.
  unfoldable pub request_panel :
      EndpointDefinition
      → (title path : Text) → Headers
      → Detail
      → (is_running : Bool) → RequestPanel
  request_panel endpoint title path headers d is_running = record {
    path_fields = shown_fields endpoint.path_params d.draft.path_values;
    query_fields = shown_fields endpoint.query d.draft.query_values;
    body = body_editor endpoint d.draft.body_text;
    method = method_text endpoint.method;
    path = path;
    headers = preview headers;
    warning = warning endpoint title d.confirming is_running;
    send = send_button d.confirming is_running;
    copy = record { label = text (lit "copy_curl"); enabled = true };
  }
