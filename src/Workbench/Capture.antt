-- ===== src/Workbench/Capture.antt =====
-- `captureResponseData` of workbench-context.tsx: what a response leaves in the vault.
use dotnet_web_api_startpack.Prelude.{
  Text, lit, [], Bool, true, false, ◌&&◌, Option, none, some, or_else, ◌==◌, lookup, member,
  text_eq, if◌then◌else◌,
}
use dotnet_web_api_startpack.Json.{Json, str, arr, obj, cons, entries}
use dotnet_web_api_startpack.Types.{AuthMode, ApiResult, EndpointDefinition}
use dotnet_web_api_startpack.Constants.{session_issuing_endpoints}
use dotnet_web_api_startpack.Platform.{Platform, Url}
use dotnet_web_api_startpack.Template.{is_empty}
use dotnet_web_api_startpack.Headers.{read_cookie, is_some}
use dotnet_web_api_startpack.Vault.Variables.{
  VariableName, access_token, refresh_token, api_key, csrf_token, totp_secret, mfa_ticket,
  credential_id, social_code, social_state,
}
use dotnet_web_api_startpack.Workbench.State.{Workbench, Closure, set_variable}

-- `asRecord(value)` is not null.
abbrev pub is_record : Json → Bool
is_record (arr _) = true
is_record (obj _) = true
is_record _ = false

-- `record[key]` for a key that arrays and the prototypes do not have.
unfoldable pub get_property : Text → Json → Option Json
unfolding lookup text_eq
get_property key (obj fs) = lookup key (entries fs)
get_property key _ = none

-- `typeof record[key] === "string"`, with the string.
abbrev pub as_string : Option Json → Option Text
as_string (some (str t)) = some t
as_string _ = none

abbrev pub get_string : Text → Json → Option Text
get_string key value = as_string (get_property key value)

abbrev pub is_array : Option Json → Bool
is_array (some (arr _)) = true
is_array _ = false

-- `asRecord(result.data[0])?.credentialId`, if the data are an array.
abbrev pub first_credential : Json → Option Text
first_credential (arr (cons item _)) = get_string (lit "credentialId") item
first_credential _ = none

-- The outcome of a callback that may throw.
pub data Captured : Type 0 where
  noticed : Option Text → Captured
  thrown : Captured

abbrev pub set_if : VariableName → Option Text → Workbench → Workbench
set_if name none w = w
set_if name (some value) w = set_variable name value w

-- The first block of assignments.
unfoldable pub capture_tokens : EndpointDefinition → Json → Workbench → Workbench
capture_tokens endpoint body w =
    let w1 = set_if access_token (get_string (lit "accessToken") body) w in
    let w2 = set_if refresh_token (get_string (lit "refreshToken") body) w1 in
    let w3 = set_if api_key (get_string (lit "key") body) w2 in
    let w4 = set_if mfa_ticket (get_string (lit "mfaTicket") body) w3 in
    let w5 = set_if totp_secret (get_string (lit "secret") body) w4 in
    if text_eq endpoint.id (lit "auth-csrf")
    then set_if csrf_token (get_string (lit "token") body) w5
    else w5

-- `searchParams.get(name) || ""`
abbrev pub search_param : Text → Url → Text
search_param name url = or_else (lookup name url.search_params) []

module _ ⦃p : Platform⦄ where
  -- The social sign-in's URL; `none` is the TypeError of `new URL`.
  unfoldable pub capture_social : Closure → EndpointDefinition → Json → Workbench → Option Workbench
  capture_social closure endpoint body w =
      if text_eq endpoint.id (lit "social-authorize")
      then elim (get_string (lit "authorizationUrl") body) [
        | none ↦ some w
        | some text ↦ elim (p.parse_url text closure.api_base) [
          | none ↦ none
          | some url ↦ some (
              set_variable social_state (search_param (lit "state") url)
                (set_variable social_code (search_param (lit "code") url) w))
        ]
      ]
      else some w

  unfoldable pub capture_passkey : EndpointDefinition → Json → Workbench → Workbench
  capture_passkey endpoint body w =
      if text_eq endpoint.id (lit "passkeys-list")
      then set_if credential_id (first_credential body) w
      else w

  abbrev pub notice : Text → Captured
  notice key = noticed (some (p.message key []))

  -- The notice that follows from the data alone.
  unfoldable pub data_notice : Json → Captured
  data_notice body =
      if is_some (get_string (lit "accessToken") body)
      then notice (lit "response_notice_tokens")
      else if is_some (get_string (lit "key") body)
      then notice (lit "response_notice_key")
      else if is_some (get_string (lit "secret") body)
      then notice (lit "response_notice_totp")
      else if is_array (get_property (lit "codes") body)
      then notice (lit "response_notice_recovery")
      else noticed none

  abbrev pub is_cookie : AuthMode → Bool
  is_cookie AuthMode.cookie = true
  is_cookie _ = false

  -- The CSRF cookie of a new session.
  unfoldable pub capture_csrf : Text → Workbench → Workbench × Captured
  capture_csrf cookies w = elim (read_cookie (lit "__Host-auth.csrf") cookies) [
    | none ↦ (w, thrown)
    | some csrf ↦ (
      if is_empty csrf then w else set_variable csrf_token csrf w,
      notice (lit "response_notice_cookie"),
    )
  ]

  unfoldable pub choose_notice :
      Closure → EndpointDefinition → ApiResult → Text → Workbench → Workbench × Captured
  choose_notice closure endpoint result cookies w =
      if text_eq endpoint.id (lit "auth-login") && result.status == 202
      then (w, notice (lit "response_notice_mfa"))
      else if member endpoint.id session_issuing_endpoints
          && (result.ok && is_cookie closure.auth_mode)
      then capture_csrf cookies w
      else (w, data_notice result.json_data)

  -- `captureResponseData`; `cookies` is `document.cookie`.
  unfoldable pub capture_response_data :
      Closure → EndpointDefinition → ApiResult → Text → Workbench → Workbench × Captured
  capture_response_data closure endpoint result cookies w =
      if is_record result.json_data
      then (let after_tokens = capture_tokens endpoint result.json_data w in
          elim (capture_social closure endpoint result.json_data after_tokens) [
            | none ↦ (after_tokens, thrown)
            | some after_social ↦
                choose_notice closure endpoint result cookies
                  (capture_passkey endpoint result.json_data after_social)
          ])
      else (w, noticed none)
