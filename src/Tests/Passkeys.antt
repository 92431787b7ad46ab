-- ===== src/Tests/Passkeys.antt =====
-- The guided actions, with a small authenticator.
use dotnet_web_api_startpack.Prelude.{
  ℕ, lit, List, [], ◌∷◌, true, false, none, some, ◌≡◌, refl, arith, lookup, text_eq, if◌then◌else◌,
}
use dotnet_web_api_startpack.Json.{Json, str, arr, obj, nil, cons, field, end}
use dotnet_web_api_startpack.Types.{WorkbenchVariables, RequestDraft, ApiResult}
use dotnet_web_api_startpack.Constants.{empty_variables}
use dotnet_web_api_startpack.Platform.{Platform}
use dotnet_web_api_startpack.Workbench.Capture.{get_property}
use dotnet_web_api_startpack.Scenarios.{play}
use dotnet_web_api_startpack.Catalog.Security.{passkey_registration_options}
use dotnet_web_api_startpack.Browser.{strip_padding, index_of, bytes_of}
use dotnet_web_api_startpack.Browser.Base64.{
  bytes_to_base64_url, base64_url_to_bytes, atob, btoa, drop_pad, bits64,
}
use dotnet_web_api_startpack.Browser.Base64.RoundTrip.{base64_url_to_bytes-bytes_to_base64_url}
use dotnet_web_api_startpack.Browser.Passkey.{
  Authenticator, Credential, assertion, given, absent, buffer, decode_creation_options, bytes_json,
  create_passkey, get_passkey, decode_request_options, property_of, decode_value, decode_list,
  decode_descriptors, decode_descriptor, credential_to_json,
}
use dotnet_web_api_startpack.Browser.Passkey.RoundTrip.{
  ReadsAs, Carries, descriptors, decode_creation_options-bytes, credential_to_json-Carries,
}
use dotnet_web_api_startpack.Guided.{registration, authentication, passkey_script}
use dotnet_web_api_startpack.Guided.Passkeys.{requests, posted, attested, requests-passkey_script}
use dotnet_web_api_startpack.Tests.Samples.{platform, json_text, sample_result}

abbrev challenge : List ℕ
challenge = 1 ∷ 2 ∷ 255 ∷ []

abbrev user_id : List ℕ
user_id = 7 ∷ []

abbrev user : Json
user = obj (field (lit "name") (str (lit "u")) (field (lit "id") (bytes_json user_id) end))

abbrev excluded : Json
excluded = obj (field (lit "id") (bytes_json (9 ∷ 8 ∷ [])) end)

abbrev service_options : Json
service_options = obj (
    field (lit "challenge") (bytes_json challenge)
      (field (lit "user") user (field (lit "excludeCredentials") (arr (cons excluded nil)) end)))

decode_creation_options-bytes_example :
    decode_creation_options service_options
    ≡ some (record {
      copy = service_options;
      challenge = buffer challenge;
      user_id = buffer user_id;
      exclude_credentials = some (descriptors (cons excluded nil) ((9 ∷ 8 ∷ []) ∷ []));
    })
unfolding get_property lookup text_eq
decode_creation_options-bytes_example =
    decode_creation_options-bytes service_options user challenge user_id (cons excluded nil)
      ((9 ∷ 8 ∷ []) ∷ []) (record { written = refl; small = ground arith }) refl
      (record { written = refl; small = ground arith }) refl
      (record { written = refl; small = ground arith }, tt)

abbrev credential : Credential
credential = record {
  to_json = none;
  id = lit "AQI";
  raw_id = 1 ∷ 2 ∷ [];
  kind = lit "public-key";
  extension_results = obj end;
  attachment = some none;
  response = assertion (3 ∷ []) (4 ∷ []) (5 ∷ []) none;
}

credential_to_json-Carries_example :
    ReadsAs (lit "rawId") (credential_to_json credential) (1 ∷ 2 ∷ [])
    × (response : Json) × (get_property (lit "response") (credential_to_json credential)
        ≡ some response)
    × Carries response credential.response
credential_to_json-Carries_example =
    credential_to_json-Carries credential refl (ground arith) (ground arith)

abbrev pub authenticator : Authenticator
authenticator = record {
  has_public_key = true;
  has_credentials = true;
  create = λ options. given credential;
  get = λ options. absent;
}

abbrev options_answer : ApiResult
options_answer = record sample_result {
  json_data = obj (field (lit "options") service_options end);
}

abbrev label_body : Json
label_body = obj (field (lit "label") (str (lit "Workbench passkey")) end)

requests-passkey_script_example :
    (requests (
        play
          (passkey_script ⦃p = platform⦄ authenticator registration passkey_registration_options)
          (some options_answer ∷ none ∷ []))
      ≡ posted passkey_registration_options label_body false ∷ attested credential ∷ [])
    × (requests (
          play
            (passkey_script ⦃p = platform⦄ authenticator authentication
              passkey_registration_options)
            (some options_answer ∷ none ∷ []))
        ≡ posted passkey_registration_options (obj end) false ∷ [])
unfolding lookup text_eq get_property create_passkey get_passkey decode_creation_options
    decode_request_options property_of decode_value base64_url_to_bytes atob bytes_to_base64_url
    strip_padding btoa drop_pad bits64 index_of decode_list decode_descriptors decode_descriptor
    bytes_of
requests-passkey_script_example =
    requests-passkey_script ⦃p = platform⦄ authenticator passkey_registration_options
      (some options_answer) none

-- A platform that reads the empty object, and the object with a code.
abbrev coded : Json
coded = obj (field (lit "code") (str (lit "123456")) end)

abbrev code_platform : Platform
code_platform = record platform {
  json_parse = λ t.
      if text_eq t (lit "{}")
      then some (obj end)
      else if text_eq t (json_text coded)
      then some coded
      else none;
}

abbrev code_variables : WorkbenchVariables
code_variables = record empty_variables { totp_code = lit "123456" }

abbrev empty_draft : RequestDraft
empty_draft = record { path_values = []; query_values = []; body_text = [] }

base64_url_to_bytes-bytes_to_base64_url_example :
    base64_url_to_bytes (bytes_to_base64_url challenge) ≡ some challenge
base64_url_to_bytes-bytes_to_base64_url_example =
    base64_url_to_bytes-bytes_to_base64_url challenge (ground arith)
