-- ===== src/Panels/Response.antt =====
-- The response tab, playground-ui/src/features/workbench/endpoint-response-panel.tsx, and the head and
-- tabs of endpoint-detail.tsx beside it.
use dotnet_web_api_startpack.Prelude.{
  ℕ, suc, Text, lit, List, [], ◌∷◌, ◌++◌, Bool, true, false, not, Option, none, some, ◌>>=◌,
  text_eq, if◌then◌else◌, lookup,
}
use dotnet_web_api_startpack.Types.{
  EndpointDefinition, AuthRequirement, auth, recent, ApiResult, PanelTab, AppLocale, method_text,
}
use dotnet_web_api_startpack.Platform.{Platform}
use dotnet_web_api_startpack.Template.{is_empty}
use dotnet_web_api_startpack.Catalog.{endpoint_copy}
use dotnet_web_api_startpack.Fetch.{format_response}
use dotnet_web_api_startpack.Workbench.State.{WorkbenchResponse}
use dotnet_web_api_startpack.Browser.{decimal}
use dotnet_web_api_startpack.Panels.{Button, Field, text}

-- `String(n)`; a number has at most so many digits as it is large.
abbrev pub number_text : ℕ → Text
number_text n = decimal (suc n) n

-- The response that the panel of an endpoint shows: the last one, if it is of this endpoint.
unfoldable pub result_of : EndpointDefinition → Option WorkbenchResponse → Option WorkbenchResponse
result_of endpoint none = none
result_of endpoint (some response) =
    if text_eq response.endpoint_id endpoint.id then some response else none

-- The literal that an access requirement stands for.
abbrev pub auth_text : AuthRequirement → Text
auth_text AuthRequirement.public = lit "public"
auth_text auth = lit "auth"
auth_text recent = lit "recent"
auth_text AuthRequirement.admin = lit "admin"

-- `TabButton`; the status of a response stands beside the label of its tab.
pub record TabButton : Type 0 where
  pub tab : PanelTab
  pub label : Text
  pub status : Option Text
  pub selected : Bool

pub record DetailHead : Type 0 where
  pub back : Text
  pub method : Text
  pub access : Text
  pub title : Text
  pub description : Text
  pub tabs : List TabButton

abbrev is_response : PanelTab → Bool
is_response PanelTab.response = true
is_response PanelTab.request = false

-- `headers[name] ? [[name, headers[name]]] : []`
abbrev pub named_header : List (Text × Text) → Text → List Field
named_header headers name = elim (lookup name headers) [
  | none ↦ []
  | some value ↦ if is_empty value then [] else record { label = name; value = value } ∷ []
]

-- `ResponseHeaders`
unfoldable pub response_headers : List (Text × Text) → List Field
response_headers headers =
    named_header headers (lit "content-type")
    ++ (named_header headers (lit "x-correlation-id")
        ++ (named_header headers (lit "retry-after")
            ++ named_header headers (lit "api-supported-versions")))

-- A text that is not shown is `none`.
pub record Shown : Type 0 where
  pub ok : Bool
  pub status : Text
  pub heading : Text
  pub elapsed : Text
  pub copy : Button
  pub copied : Text
  pub notice : Option Text
  pub body : Text
  pub headers : List Field

pub data ResponsePanel : Type 0 where
  empty : (heading description : Text) → ResponsePanel
  shown : Shown → ResponsePanel

-- `result.statusText || (result.ok ? "OK" : "Error")`
abbrev pub status_heading : ApiResult → Text
status_heading result =
    if is_empty result.status_text
    then (if result.ok then lit "OK" else lit "Error")
    else result.status_text

-- A notice is shown if it is there and not empty.
abbrev pub shown_notice : Option Text → Option Text
shown_notice none = none
shown_notice (some notice) = if is_empty notice then none else some notice

module _ ⦃p : Platform⦄ where
  -- The head of the panel.
  unfoldable pub detail_head :
      EndpointDefinition → AppLocale → (active : PanelTab) → Option WorkbenchResponse → DetailHead
  detail_head endpoint locale active result = record {
    back = text (lit "back_to_catalog");
    method = method_text endpoint.method;
    access = auth_text endpoint.auth;
    title = (endpoint_copy endpoint locale).title;
    description = (endpoint_copy endpoint locale).description;
    tabs =
        record {
          tab = PanelTab.request;
          label = text (lit "request");
          status = none;
          selected = not (is_response active);
        }
        ∷ record {
          tab = PanelTab.response;
          label = text (lit "response");
          status = result >>= λ r. some (lit "· " ++ number_text r.result.status);
          selected = is_response active;
        }
        ∷ [];
  }

  -- `EndpointResponsePanel`
  unfoldable pub response_panel : Option WorkbenchResponse → ResponsePanel
  response_panel none = empty (text (lit "no_response")) (text (lit "no_response_description"))
  response_panel (some response) = shown (record {
    ok = response.result.ok;
    status = number_text response.result.status;
    heading = status_heading response.result;
    elapsed = number_text response.result.elapsed_ms ++ lit " ms";
    copy = record {
      label = text (lit "copy_response");
      enabled = not (is_empty response.result.raw);
    };
    copied = response.result.raw;
    notice = shown_notice response.notice;
    body = format_response response.result (text (lit "empty_response"));
    headers = response_headers response.result.headers;
  })
