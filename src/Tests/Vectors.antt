-- ===== src/Tests/Vectors.antt =====
-- The cases of domain.test.ts, catalog.test.ts and browser-effects.test.ts under
-- playground-ui/src/features/workbench, on the model.
use dotnet_web_api_startpack.Prelude.{
  ℕ, Text, lit, List, [], ◌∷◌, Option, some, none, ◌≡◌, ◌>>=◌, refl, length, filter, lookup, member,
  set_key, text_eq, starts_with, split, split_from, if◌then◌else◌,
}
use dotnet_web_api_startpack.Json.{obj, str, field, end}
use dotnet_web_api_startpack.Types.{EndpointDefinition, WorkbenchVariables, AuthMode, bearer}
use dotnet_web_api_startpack.Constants.{empty_variables}
use dotnet_web_api_startpack.Catalog.{endpoints}
use dotnet_web_api_startpack.Catalog.Authentication.{auth_login_mfa}
use dotnet_web_api_startpack.Catalog.Account.{users_update}
use dotnet_web_api_startpack.Template.{
  materialize, resolve_template_string, replace_from, template_name, word, is_word, replacement,
}
use dotnet_web_api_startpack.Uri.{
  encode_component, encode_points, code_points_from, encode_point, is_unreserved,
}
use dotnet_web_api_startpack.Headers.{
  build_headers, add_authorization, add_csrf, add_transport, is_unsafe, read_cookie,
}
use dotnet_web_api_startpack.Browser.{
  decode_base32, strip_padding, bits_of, bytes_of, index_of, fill_bytes, decimal, last_byte,
  compute_totp,
}
use dotnet_web_api_startpack.Tests.Samples.{platform}

-- 43 operations and two probes.
catalog-size : length endpoints ≡ 45
unfolding endpoints
catalog-size = refl

probes-size :
    length
      (filter (λ (item : EndpointDefinition). starts_with (lit "/health/") item.path) endpoints)
    ≡ 2
unfolding endpoints starts_with
probes-size = refl

abbrev mfa_variables : WorkbenchVariables
mfa_variables = record empty_variables { mfa_ticket = lit "ticket-1"; totp_code = lit "123456" }

mfa-body :
    (auth_login_mfa.body >>= λ body. some (materialize ⦃p = platform⦄ mfa_variables body))
    ≡ some (
        obj (
          field
            (lit "mfaTicket")
            (str (lit "ticket-1"))
            (field (lit "code") (str (lit "123456")) end)))
unfolding materialize resolve_template_string replace_from template_name word is_word replacement
    lookup text_eq starts_with
mfa-body = refl

abbrev test_variables : WorkbenchVariables
test_variables = record empty_variables {
  access_token = lit "access-token";
  api_key = lit "api-key";
  csrf_token = lit "csrf-from-vault";
}

-- A header of the update of a user, in a mode.
abbrev header_of : Text → AuthMode → Option Text
header_of name mode =
    build_headers users_update mode test_variables [] >>= λ headers. lookup name headers

transport-headers :
    (header_of (lit "Authorization") bearer ≡ some (lit "Bearer access-token"))
    × (header_of (lit "Authorization") AuthMode.api_key ≡ some (lit "ApiKey api-key"))
    × (header_of (lit "X-CSRF-Token") AuthMode.cookie ≡ some (lit "csrf-from-vault"))
unfolding build_headers add_authorization add_csrf add_transport is_unsafe read_cookie lookup
    set_key text_eq member encode_component encode_points code_points_from encode_point
    is_unreserved split split_from starts_with
transport-headers = (refl, refl, refl)

-- The vector of RFC 6238 at 59 seconds: the HMAC with SHA-1 of the counter 1, and the code.
abbrev vector_digest : List ℕ
vector_digest =
    117 ∷ 164 ∷ 138 ∷ 25 ∷ 212 ∷ 203 ∷ 225 ∷ 0 ∷ 100 ∷ 78 ∷ 138 ∷ 193 ∷ 57 ∷ 126 ∷ 234 ∷ 116 ∷ 122
    ∷ 45 ∷ 51 ∷ 171 ∷ []

abbrev vector_sign : List ℕ → List ℕ → Option (List ℕ)
vector_sign key message =
    if text_eq key (lit "12345678901234567890")
    then (if text_eq message (0 ∷ 0 ∷ 0 ∷ 0 ∷ 0 ∷ 0 ∷ 0 ∷ 1 ∷ []) then some vector_digest else none)
    else none

rfc_6238 :
    compute_totp (λ t. t) vector_sign (lit "GEZDGNBVGY3TQOJQGEZDGNBVGY3TQOJQ") 59000
    ≡ some (lit "287082")
unfolding compute_totp decode_base32 strip_padding bits_of bytes_of index_of text_eq fill_bytes
    decimal last_byte
rfc_6238 = refl
