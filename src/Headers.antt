-- ===== src/Headers.antt =====
-- `buildHeaders`, `redactHeader`, `readCookie` and `isUnsafe` of
-- playground-ui/src/features/workbench/domain.ts.
pub mod Cookies
pub mod Transport
pub mod Redaction
use dotnet_web_api_startpack.Prelude.{
  ℕ, ◌+◌, ◌-◌, Text, lit, List, [], ◌∷◌, ◌++◌, map, Bool, true, false, ◌&&◌, ◌||◌, not, Option,
  none, some, ◌>>=◌, or_else, ltb, length, take, drop, find?, member, set_key, starts_with, split,
  text_eq, if◌then◌else◌,
}
use dotnet_web_api_startpack.Types.{
  WorkbenchVariables, EndpointDefinition, AuthMode, bearer, cookie, api_key, AuthRequirement,
  method_text,
}
use dotnet_web_api_startpack.Constants.{session_issuing_endpoints}
use dotnet_web_api_startpack.Template.{is_empty}
use dotnet_web_api_startpack.Uri.{is_between, encode_component, decode_component}

-- `isUnsafe`
unfoldable pub is_unsafe : Text → Bool
unfolding member text_eq
is_unsafe method = not (member method (lit "GET" ∷ lit "HEAD" ∷ lit "OPTIONS" ∷ lit "TRACE" ∷ []))

-- What `readCookie` does with the pair that it found; `none` is the URIError of `decodeURIComponent`.
abbrev pub cookie_result : Text → Option Text → Option Text
cookie_result prefix none = some []
cookie_result prefix (some pair) =
    if is_empty pair then some [] else decode_component (drop (length prefix) pair)

-- `readCookie`; `none` is the URIError of a name or a value.
unfoldable pub read_cookie : Text → Text → Option Text
read_cookie name cookie_value = do
  encoded ← encode_component name
  let prefix = encoded ++ lit "="
  cookie_result prefix (find? (starts_with prefix) (split (lit "; ") cookie_value))

abbrev pub Headers : Type 0
Headers = List (Text × Text)

abbrev pub is_public : AuthRequirement → Bool
is_public AuthRequirement.public = true
is_public _ = false

abbrev pub is_some {ℓ} : {A : Type ℓ} → Option A → Bool
is_some none = false
is_some (some _) = true

-- The `||` of two texts.
abbrev pub text_or : Text → Text → Text
text_or [] t = t
text_or (c ∷ s) t = c ∷ s

-- The three blocks of `buildHeaders` that follow the first two headers.
unfoldable pub add_authorization :
    EndpointDefinition → AuthMode → WorkbenchVariables → Headers → Headers
add_authorization endpoint bearer variables headers =
    if is_public endpoint.auth || is_empty variables.access_token
    then headers
    else set_key (lit "Authorization") (lit "Bearer " ++ variables.access_token) headers
add_authorization endpoint api_key variables headers =
    if is_public endpoint.auth || is_empty variables.api_key
    then headers
    else set_key (lit "Authorization") (lit "ApiKey " ++ variables.api_key) headers
add_authorization endpoint cookie variables headers = headers

abbrev pub with_csrf : Text → Headers → Headers
with_csrf csrf headers =
    if is_empty csrf then headers else set_key (lit "X-CSRF-Token") csrf headers

unfoldable pub add_csrf :
    EndpointDefinition → AuthMode → WorkbenchVariables → Text → Headers → Option Headers
add_csrf endpoint cookie variables cookie_value headers =
    if is_unsafe (method_text endpoint.method)
    then (read_cookie (lit "__Host-auth.csrf") cookie_value >>= λ stored.
        some (with_csrf (text_or stored variables.csrf_token) headers))
    else some headers
add_csrf endpoint _ variables cookie_value headers = some headers

unfoldable pub add_transport : EndpointDefinition → AuthMode → Headers → Headers
add_transport endpoint cookie headers =
    if member endpoint.id session_issuing_endpoints
    then set_key (lit "X-Auth-Transport") (lit "cookie") headers
    else headers
add_transport endpoint _ headers = headers

abbrev pub first_headers : EndpointDefinition → Headers
first_headers endpoint =
    let headers : Headers = (lit "Accept", lit "application/json") ∷ [] in
    if is_some endpoint.body
    then set_key (lit "Content-Type") (lit "application/json") headers
    else headers

-- `buildHeaders`
unfoldable pub build_headers :
    EndpointDefinition → AuthMode → WorkbenchVariables → Text → Option Headers
build_headers endpoint auth_mode variables cookie_value = do
  let authorized = add_authorization endpoint auth_mode variables (first_headers endpoint)
  headers ← add_csrf endpoint auth_mode variables cookie_value authorized
  some (add_transport endpoint auth_mode headers)

-- `toLowerCase` as far as the comparison with an ASCII word needs it: no other character becomes one
-- of the word's letters.
abbrev pub to_lower : ℕ → ℕ
to_lower c = if is_between b'A' b'Z' c then c + 32 else c

abbrev pub second : List Text → Text
second [] = []
second (x ∷ []) = []
second (x ∷ (y ∷ rest)) = y

abbrev pub first : List Text → Text
first [] = []
first (x ∷ rest) = x

-- `redactHeader`
unfoldable pub redact_header : Text → Text → Text
redact_header name value =
    if not (text_eq (map to_lower name) (lit "authorization"))
    then value
    else let scheme = first (split (lit " ") value) in
      let token = second (split (lit " ") value) in
      if ltb (length token) 20
      then scheme ++ lit " ••••••••"
      else scheme ++ (lit " " ++ (take 12 token ++ (lit "…" ++ drop (length token - 5) token)))
