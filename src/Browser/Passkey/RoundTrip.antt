-- ===== src/Browser/Passkey/RoundTrip.antt =====
-- The bytes that the service and the authenticator exchange arrive as they were.
use dotnet_web_api_startpack.Prelude.{
  ℕ, Text, lit, List, [], ◌∷◌, Option, none, some, ◌>>=◌, ◌≡◌, refl, arith, All, lookup, text_eq,
}
use dotnet_web_api_startpack.Json.{Json, null, arr, obj, Items, nil, cons, field, end, entries}
use dotnet_web_api_startpack.Workbench.Capture.{get_property, as_string}
use dotnet_web_api_startpack.Browser.Base32.{IsByte}
use dotnet_web_api_startpack.Browser.Base64.{bytes_to_base64_url, base64_url_to_bytes}
use dotnet_web_api_startpack.Browser.Base64.RoundTrip.{base64_url_to_bytes-bytes_to_base64_url}
use dotnet_web_api_startpack.Browser.Passkey.{
  buffer, Descriptor, decode_value, property_of, decode_descriptor, decode_descriptors, decode_list,
  decode_creation_options, bytes_json, Credential, CredentialResponse, attestation, assertion,
  other, credential_to_json, response_json, with_attachment,
}

-- The property of the object holds these bytes, as the service writes them.
pub record HasBytes (key : Text) (value : Json) (bytes : List ℕ) : Type 0 where
  pub written : get_property key value ≡ some (bytes_json bytes)
  pub small : All IsByte bytes

abbrev pub HaveIds : Items → List (List ℕ) → Type 0
HaveIds nil [] = Unit
HaveIds (cons item items) (bytes ∷ ids) = HasBytes (lit "id") item bytes × HaveIds items ids
HaveIds _ _ = ⊥

-- The credentials with their identifiers as bytes.
abbrev pub descriptors : Items → List (List ℕ) → List Descriptor
descriptors (cons item items) (bytes ∷ ids) =
    record { credential = item; id = buffer bytes } ∷ descriptors items ids
descriptors _ _ = []

decode-bytes :
    (bytes : List ℕ)
    → All IsByte bytes
    → decode_value (some (bytes_json bytes)) ≡ some (buffer bytes)
unfolding decode_value
decode-bytes bytes h = rw (base64_url_to_bytes-bytes_to_base64_url bytes h) refl

property-bytes :
    (key : Text) (value : Json) (bytes : List ℕ)
    → HasBytes key value bytes
    → property_of key (some value) ≡ some (some (bytes_json bytes))
unfolding property_of get_property
property-bytes key null bytes h = absurd (ground (arith, h.written))
property-bytes key (obj fs) bytes h = rw h.written refl
property-bytes key _ bytes h = absurd (ground (arith, h.written))

decode_descriptors-ids :
    (items : Items) (ids : List (List ℕ))
    → HaveIds items ids
    → decode_descriptors items ≡ some (descriptors items ids)
unfolding decode_descriptors decode_descriptor
decode_descriptors-ids nil [] h = refl
decode_descriptors-ids nil (_ ∷ _) h = absurd h
decode_descriptors-ids (cons item items) [] h = absurd h
decode_descriptors-ids (cons item items) (bytes ∷ ids) (h, hs) =
    rw
      (
        property-bytes (lit "id") item bytes h,
        decode-bytes bytes h.small,
        decode_descriptors-ids items ids hs,
      )
      refl

-- Options whose challenge, user identifier and excluded credentials are bytes as bytesToBase64Url writes
-- them are decoded to exactly these bytes, whatever else the options hold.
pub decode_creation_options-bytes :
    (options user : Json) (challenge user_id : List ℕ) (items : Items) (ids : List (List ℕ))
    → HasBytes (lit "challenge") options challenge
    → get_property (lit "user") options ≡ some user
    → HasBytes (lit "id") user user_id
    → get_property (lit "excludeCredentials") options ≡ some (arr items)
    → HaveIds items ids
    → decode_creation_options options
      ≡ some (record {
        copy = options;
        challenge = buffer challenge;
        user_id = buffer user_id;
        exclude_credentials = some (descriptors items ids);
      })
unfolding decode_creation_options decode_list
decode_creation_options-bytes options user challenge user_id items ids c u i x hs =
    rw
      (
        property-bytes (lit "challenge") options challenge c,
        decode-bytes challenge c.small,
        u,
        property-bytes (lit "id") user user_id i,
        decode-bytes user_id i.small,
        x,
        decode_descriptors-ids items ids hs,
      )
      refl

-- The property of the object is a text that base64UrlToBytes reads as these bytes.
abbrev pub ReadsAs : Text → Json → List ℕ → Type 0
ReadsAs key value bytes =
    (get_property key value >>= λ v. as_string (some v) >>= λ t. base64_url_to_bytes t) ≡ some bytes

abbrev pub AreBytes : CredentialResponse → Type 0
AreBytes (attestation client_data attestation_object transports) =
    All IsByte client_data × All IsByte attestation_object
AreBytes (assertion client_data authenticator_data signature none) =
    All IsByte client_data × All IsByte authenticator_data × All IsByte signature
AreBytes (assertion client_data authenticator_data signature (some handle)) =
    All IsByte client_data
    × All IsByte authenticator_data
    × All IsByte signature
    × All IsByte handle
AreBytes (other client_data) = All IsByte client_data

-- The response of the credential, as an object that holds the bytes of the authenticator.
abbrev pub Carries : Json → CredentialResponse → Type 0
Carries value (attestation client_data attestation_object transports) =
    ReadsAs (lit "clientDataJSON") value client_data
    × ReadsAs (lit "attestationObject") value attestation_object
Carries value (assertion client_data authenticator_data signature none) =
    ReadsAs (lit "clientDataJSON") value client_data
    × ReadsAs (lit "authenticatorData") value authenticator_data
    × ReadsAs (lit "signature") value signature
    × (get_property (lit "userHandle") value ≡ some null)
Carries value (assertion client_data authenticator_data signature (some handle)) =
    ReadsAs (lit "clientDataJSON") value client_data
    × ReadsAs (lit "authenticatorData") value authenticator_data
    × ReadsAs (lit "signature") value signature
    × ReadsAs (lit "userHandle") value handle
Carries value (other client_data) = ReadsAs (lit "clientDataJSON") value client_data

response-Carries : (r : CredentialResponse) → AreBytes r → Carries (obj (response_json r)) r
unfolding get_property lookup text_eq
response-Carries (attestation c a t) (hc, ha) = (read c hc, read a ha)
  where
    read :
        (bytes : List ℕ)
        → All IsByte bytes
        → base64_url_to_bytes (bytes_to_base64_url bytes) ≡ some bytes
    read = base64_url_to_bytes-bytes_to_base64_url
response-Carries (assertion c a s none) (hc, ha, hs) = (
  base64_url_to_bytes-bytes_to_base64_url c hc,
  base64_url_to_bytes-bytes_to_base64_url a ha,
  base64_url_to_bytes-bytes_to_base64_url s hs,
  refl,
)
response-Carries (assertion c a s (some u)) (hc, ha, hs, hu) = (
  base64_url_to_bytes-bytes_to_base64_url c hc,
  base64_url_to_bytes-bytes_to_base64_url a ha,
  base64_url_to_bytes-bytes_to_base64_url s hs,
  base64_url_to_bytes-bytes_to_base64_url u hu,
)
response-Carries (other c) hc = base64_url_to_bytes-bytes_to_base64_url c hc

response-found :
    (a : Option (Option Text)) (r : Json)
    → lookup (lit "response") (entries (with_attachment a (field (lit "response") r end))) ≡ some r
unfolding lookup text_eq
response-found none r = refl
response-found (some none) r = refl
response-found (some (some text)) r = refl

-- If a credential has no toJSON method, then what credentialToJson writes has a response from which
-- every part that the authenticator gave, for a registration or for a sign-in, is read as the same
-- bytes; a missing user handle is null.
pub credential_to_json-Carries :
    (credential : Credential)
    → credential.to_json ≡ none
    → All IsByte credential.raw_id
    → AreBytes credential.response
    → ReadsAs (lit "rawId") (credential_to_json credential) credential.raw_id
      × (response : Json) × (get_property (lit "response") (credential_to_json credential)
          ≡ some response)
      × Carries response credential.response
unfolding credential_to_json get_property lookup text_eq
credential_to_json-Carries credential e raw h =
    rw (e, credential_to_json)
      (
        base64_url_to_bytes-bytes_to_base64_url credential.raw_id raw,
        obj (response_json credential.response),
        response-found credential.attachment _,
        response-Carries credential.response h,
      )
