-- ===== src/Browser/Passkey.antt =====
-- The WebAuthn calls of playground-ui/src/features/workbench/browser-effects.ts: decoding the options of
-- the service, asking the authenticator, and writing its credential as JSON.
pub mod RoundTrip
use dotnet_web_api_startpack.Prelude.{
  ℕ, Text, lit, List, [], ◌∷◌, Bool, ◌&&◌, not, Option, none, some, ◌>>=◌, if◌then◌else◌,
}
use dotnet_web_api_startpack.Json.{Json, null, str, arr, obj, Items, nil, cons, Fields, end, field}
use dotnet_web_api_startpack.Workbench.Capture.{get_property}
use dotnet_web_api_startpack.Browser.Base64.{bytes_to_base64_url, base64_url_to_bytes}

-- A property of the decoded options: what it was before, where `none` is undefined, or bytes.
pub data Decoded : Type 0 where
  kept : Option Json → Decoded
  buffer : List ℕ → Decoded

-- `{ ...credential, id }`
pub record Descriptor : Type 0 where
  pub credential : Json
  pub id : Decoded

-- The copy of the options, with the properties that are set on it; a list of credentials is `none`
-- where the property is no array, and stays as it was.
pub record CreationOptions : Type 0 where
  pub copy : Json
  pub challenge : Decoded
  pub user_id : Decoded
  pub exclude_credentials : Option (List Descriptor)

pub record RequestOptions : Type 0 where
  pub copy : Json
  pub challenge : Decoded
  pub allow_credentials : Option (List Descriptor)

-- `typeof value === "string" ? base64UrlToBytes(value) : value`; here and below `none` is an exception.
unfoldable pub decode_value : Option Json → Option Decoded
decode_value (some (str text)) = do bytes ← base64_url_to_bytes text; some (buffer bytes)
decode_value value = some (kept value)

-- `value.key`, of a value that may be undefined or null.
unfoldable pub property_of : Text → Option Json → Option (Option Json)
property_of key none = none
property_of key (some null) = none
property_of key (some value) = some (get_property key value)

unfoldable pub decode_descriptor : Json → Option Descriptor
decode_descriptor credential = do
  id ← property_of (lit "id") (some credential)
  bytes ← decode_value id
  some (record { credential = credential; id = bytes })

unfoldable pub decode_descriptors : Items → Option (List Descriptor)
decode_descriptors nil = some []
decode_descriptors (cons item items) = do
  first ← decode_descriptor item
  rest ← decode_descriptors items
  some (first ∷ rest)

unfoldable pub decode_list : Option Json → Option (Option (List Descriptor))
decode_list (some (arr items)) = decode_descriptors items >>= λ list. some (some list)
decode_list _ = some none

-- `decodeCreationOptions`
unfoldable pub decode_creation_options : Json → Option CreationOptions
decode_creation_options options = do
  value ← property_of (lit "challenge") (some options)
  challenge ← decode_value value
  id ← property_of (lit "id") (get_property (lit "user") options)
  user_id ← decode_value id
  list ← decode_list (get_property (lit "excludeCredentials") options)
  some (record {
    copy = options;
    challenge = challenge;
    user_id = user_id;
    exclude_credentials = list;
  })

-- `decodeRequestOptions`
unfoldable pub decode_request_options : Json → Option RequestOptions
decode_request_options options = do
  value ← property_of (lit "challenge") (some options)
  challenge ← decode_value value
  list ← decode_list (get_property (lit "allowCredentials") options)
  some (record { copy = options; challenge = challenge; allow_credentials = list })

-- `userHandle` is null where the authenticator gives none; another response has its client data only.
pub data CredentialResponse : Type 0 where
  attestation :
      (client_data attestation_object : List ℕ) (transports : Option (List Text))
      → CredentialResponse
  assertion :
      (client_data authenticator_data signature : List ℕ) (user_handle : Option (List ℕ))
      → CredentialResponse
  other : (client_data : List ℕ) → CredentialResponse

-- `to_json` is what `toJSON()` gives, where the credential has that method; an attachment is `none`
-- where it is undefined, and `some none` where it is null.
pub record Credential : Type 0 where
  pub to_json : Option Json
  pub id : Text
  pub raw_id : List ℕ
  pub kind : Text
  pub extension_results : Json
  pub attachment : Option (Option Text)
  pub response : CredentialResponse

abbrev pub bytes_json : List ℕ → Json
bytes_json bytes = str (bytes_to_base64_url bytes)

abbrev pub text_items : List Text → Items
text_items [] = nil
text_items (t ∷ ts) = cons (str t) (text_items ts)

-- `getTransports?.() ?? []`
abbrev pub transports_json : Option (List Text) → Json
transports_json none = arr nil
transports_json (some list) = arr (text_items list)

abbrev pub handle_json : Option (List ℕ) → Json
handle_json none = null
handle_json (some bytes) = bytes_json bytes

abbrev pub response_json : CredentialResponse → Fields
response_json (attestation client_data attestation_object transports) =
    field (lit "clientDataJSON") (bytes_json client_data) (
      field (lit "attestationObject") (bytes_json attestation_object)
        (field (lit "transports") (transports_json transports) end))
response_json (assertion client_data authenticator_data signature user_handle) =
    field (lit "clientDataJSON") (bytes_json client_data) (
      field (lit "authenticatorData") (bytes_json authenticator_data) (
        field (lit "signature") (bytes_json signature)
          (field (lit "userHandle") (handle_json user_handle) end)))
response_json (other client_data) = field (lit "clientDataJSON") (bytes_json client_data) end

-- A property whose value is undefined is left out, as `JSON.stringify` leaves it out.
abbrev pub with_attachment : Option (Option Text) → Fields → Fields
with_attachment none rest = rest
with_attachment (some none) rest = field (lit "authenticatorAttachment") null rest
with_attachment (some (some text)) rest = field (lit "authenticatorAttachment") (str text) rest

-- `credentialToJson`
unfoldable pub credential_to_json : Credential → Json
credential_to_json credential = elim credential.to_json [
  | some value ↦ value
  | none ↦ obj (
      field (lit "id") (str credential.id) (
        field (lit "rawId") (bytes_json credential.raw_id) (
          field (lit "type") (str credential.kind) (
            field (lit "clientExtensionResults") credential.extension_results (
              with_attachment credential.attachment
                (field (lit "response") (obj (response_json credential.response)) end))))))
]

-- What `navigator.credentials` answers: the message of an exception, null, or a credential.
pub data Answer : Type 0 where
  rejected : Text → Answer
  absent : Answer
  given : Credential → Answer

-- The browser: whether it has `PublicKeyCredential` and `navigator.credentials`, and how these answer.
pub record Authenticator : Type 0 where
  pub has_public_key : Bool
  pub has_credentials : Bool
  pub create : CreationOptions → Answer
  pub get : RequestOptions → Answer

-- How a ceremony ends; the reason of the WebAuthnError is `none` where it is the message of an
-- exception of the decoder.
pub data Ceremony : Type 0 where
  obtained : Credential → Ceremony
  denied : Option Text → Ceremony

-- `isWebAuthnAvailable`, in a page, which has a `navigator`.
abbrev pub is_web_authn_available : Authenticator → Bool
is_web_authn_available a = a.has_public_key && a.has_credentials

abbrev pub outcome : Text → Answer → Ceremony
outcome missing (rejected message) = denied (some message)
outcome missing absent = denied (some missing)
outcome missing (given credential) = obtained credential

abbrev pub if_available : Authenticator → Ceremony → Ceremony
if_available a ceremony =
    if is_web_authn_available a then ceremony else denied (some (lit "WebAuthn is unavailable"))

-- `createPasskey`
unfoldable pub create_passkey : Authenticator → Json → Ceremony
create_passkey a options = if_available a (elim (decode_creation_options options) [
  | none ↦ denied none
  | some decoded ↦ outcome (lit "The authenticator returned no credential") (a.create decoded)
])

-- `getPasskey`
unfoldable pub get_passkey : Authenticator → Json → Ceremony
get_passkey a options = if_available a (elim (decode_request_options options) [
  | none ↦ denied none
  | some decoded ↦ outcome (lit "The authenticator returned no assertion") (a.get decoded)
])
