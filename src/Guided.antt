-- ===== src/Guided.antt =====
-- The guided actions of playground-ui/src/features/workbench/endpoint-guided-action.tsx: filling in a
-- one-time code, and registering or using a passkey.
pub mod Totp
pub mod Passkeys
use dotnet_web_api_startpack.Prelude.{
  ℕ, suc, Text, lit, List, [], ◌∷◌, ◌++◌, Bool, true, false, ◌&&◌, not, Option, none, some, ◌>>=◌,
  lookup, text_eq, if◌then◌else◌,
}
use dotnet_web_api_startpack.Json.{Json, null, str, arr, obj, Fields, end, field}
use dotnet_web_api_startpack.Types.{
  ApiResult, EndpointDefinition, RequestDraft, WorkbenchVariables, SpecialAction, neutral, error,
}
use dotnet_web_api_startpack.Platform.{Platform}
use dotnet_web_api_startpack.Template.{is_empty}
use dotnet_web_api_startpack.Catalog.{endpoint_by_id}
use dotnet_web_api_startpack.Fetch.{or_braces}
use dotnet_web_api_startpack.Workbench.State.{RunRequestOptions}
use dotnet_web_api_startpack.Workbench.Capture.{is_record, get_property, get_string}
use dotnet_web_api_startpack.Workbench.Session.{Event}
use dotnet_web_api_startpack.Scenarios.{Script, finished, emit, navigate, ask, is_ok, Provider}
use dotnet_web_api_startpack.Browser.{decimal}
use dotnet_web_api_startpack.Browser.Passkey.{
  Authenticator, Ceremony, obtained, denied, Credential, is_web_authn_available, create_passkey,
  get_passkey, credential_to_json,
}

-- `getRecord(value)`
abbrev pub get_record : Option Json → Option Json
get_record none = none
get_record (some value) = if is_record value then some value else none

-- `getRecord(getRecord(result?.data)?.options)`
abbrev pub options_of : Option ApiResult → Option Json
options_of none = none
options_of (some result) = get_record (some result.json_data) >>= λ data_record.
    get_record (get_property (lit "options") data_record)

-- `object[key] = value` on a property that is there, or is added at the end.
unfoldable pub set_field : Text → Json → Fields → Fields
set_field key value end = field key value end
set_field key value (field k v fs) =
    let rest = set_field key value fs in if text_eq k key then field k value fs else field k v rest

-- `body.code = code` on what JSON.parse gave; `none` is the TypeError of a null, and of a value that is
-- no object. On an array the property is set, but not written by JSON.stringify.
unfoldable pub with_code : Text → Json → Option Json
with_code code (obj fs) = some (obj (set_field (lit "code") (str code) fs))
with_code code (arr vs) = some (arr vs)
with_code code _ = none

-- What a click on the action that fills in the code does: a toast, and perhaps a new text of the body.
pub record Filled : Type 0 where
  pub toast : Event
  pub body_text : Option Text

-- The action that the panel offers for an endpoint.
pub data GuidedAction : Type 0 where
  register_passkey use_passkey : GuidedAction
  social_flow : Provider → GuidedAction
  fill_code : (description : Text) → GuidedAction

abbrev pub provider_of : RequestDraft → Provider
provider_of draft = elim (lookup (lit "provider") draft.path_values) [
  | none ↦ Provider.google
  | some name ↦ if text_eq name (lit "github") then Provider.github else Provider.google
]

-- The texts of a passkey flow and the identifier of the endpoint that completes it.
pub record Flow : Type 0 where
  pub completion : Text
  pub first_body : Json
  pub second_body : Credential → Json
  pub ready : Text
  pub ready_description : Text
  pub ceremony : Authenticator → Json → Ceremony

abbrev pub label_field : Fields
label_field = field (lit "label") (str (lit "Workbench passkey")) end

abbrev pub registration : Flow
registration = record {
  completion = lit "passkey-registration-complete";
  first_body = obj label_field;
  second_body = λ c. obj (field (lit "attestationResponse") (credential_to_json c) label_field);
  ready = lit "passkey_registered";
  ready_description = lit "passkey_registered_description";
  ceremony = create_passkey;
}

abbrev pub authentication : Flow
authentication = record {
  completion = lit "passkey-auth-complete";
  first_body = obj end;
  second_body = λ c. obj (field (lit "assertionResponse") (credential_to_json c) end);
  ready = lit "passkey_login_ready";
  ready_description = lit "passkey_login_ready_description";
  ceremony = get_passkey;
}

abbrev pub flow_request : EndpointDefinition → Json → Bool → RunRequestOptions
flow_request endpoint body display = record {
  endpoint = endpoint;
  path = none;
  body = some body;
  headers = [];
  display = display;
  report_error = true;
  auth_mode = none;
}

-- The options of the service, if the request is answered with success and has them.
abbrev pub passkey_options : Option ApiResult → Option Json
passkey_options first = if is_ok first then options_of first else none

module _ ⦃p : Platform⦄ where
  abbrev pub toast : Text → Text → Event
  toast title description = Event.toast (p.message title []) description neutral

  abbrev pub error_toast : Text → Text → Event
  error_toast title description = Event.toast (p.message title []) description error

  -- `fillTotp`
  unfoldable pub fill_totp : WorkbenchVariables → RequestDraft → Filled
  fill_totp variables draft =
      let refused : Filled = record {
        toast = error_toast (lit "invalid_json") (p.message (lit "invalid_json_description") []);
        body_text = none;
      } in
      if is_empty variables.totp_code
      then record {
        toast = error_toast (lit "totp_missing") (p.message (lit "totp_missing_description") []);
        body_text = none;
      }
      else elim (p.json_parse (or_braces draft.body_text)) [
        | none ↦ refused
        | some value ↦ elim (with_code variables.totp_code value) [
          | none ↦ refused
          | some body ↦ record {
            toast = toast (lit "totp_filled") variables.totp_code;
            body_text = some (p.json_indent body);
          }
        ]
      ]

  -- `responseReason`; a status has at most so many digits as it is large.
  unfoldable pub response_reason : Option ApiResult → Text
  response_reason none = p.message (lit "request_failed") []
  response_reason (some result) = elim (get_string (lit "detail") result.json_data) [
    | some detail ↦ detail
    | none ↦ elim (get_string (lit "title") result.json_data) [
      | some title ↦ title
      | none ↦ lit "HTTP " ++ decimal (suc result.status) result.status
    ]
  ]

  -- The answer to the second request, of `runPasskeyRegistration` and `runPasskeyAuthentication`.
  abbrev pub after_completion : Flow → Option ApiResult → Script
  after_completion flow second =
      if is_ok second
      then emit (toast flow.ready (p.message flow.ready_description [])) finished
      else finished

  abbrev pub passkey_failed : Text → Script
  passkey_failed reason = emit (error_toast (lit "passkey_failed") reason) finished

  -- What follows the ceremony; the tag of the cause of an Effect that has failed is always the same.
  abbrev pub after_ceremony : Flow → EndpointDefinition → Ceremony → Script
  after_ceremony flow complete (denied reason) = passkey_failed (lit "Fail")
  after_ceremony flow complete (obtained credential) =
      navigate complete.id
        (ask (flow_request complete (flow.second_body credential) true) (after_completion flow))

  abbrev pub after_options : Authenticator → Flow → Option ApiResult → Script
  after_options a flow first = elim (passkey_options first) [
    | none ↦ passkey_failed (response_reason first)
    | some options ↦ elim (endpoint_by_id flow.completion) [
      | none ↦ passkey_failed (response_reason first)
      | some complete ↦ after_ceremony flow complete (flow.ceremony a options)
    ]
  ]

  -- `runPasskeyRegistration` and `runPasskeyAuthentication`, which differ in their flow.
  unfoldable pub passkey_script : Authenticator → Flow → EndpointDefinition → Script
  passkey_script a flow endpoint =
      if is_web_authn_available a
      then ask (flow_request endpoint flow.first_body false) (after_options a flow)
      else emit
          (error_toast (lit "webauthn_unsupported")
            (p.message (lit "webauthn_unsupported_description") []))
          finished

  abbrev pub code_description : WorkbenchVariables → Text
  code_description variables =
      if is_empty variables.totp_code
      then p.message (lit "totp_enroll_first") []
      else p.message (lit "totp_live_code") ((lit "code", variables.totp_code) ∷ [])

  -- `EndpointGuidedAction`: which action is shown.
  unfoldable pub guided_action :
      EndpointDefinition → RequestDraft → WorkbenchVariables → Option GuidedAction
  guided_action endpoint draft variables = elim endpoint.special [
    | some SpecialAction.passkey_register ↦ some register_passkey
    | some SpecialAction.passkey_auth ↦ some use_passkey
    | some SpecialAction.social ↦ some (social_flow (provider_of draft))
    | some SpecialAction.totp ↦ some (fill_code (code_description variables))
    | none ↦
        if text_eq endpoint.id (lit "auth-login-mfa") && not (is_empty variables.totp_secret)
        then some (fill_code (code_description variables))
        else none
  ]
