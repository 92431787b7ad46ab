-- ===== src/Panels/Ready.antt =====
-- What the mark of the vault promises of the requests.
use dotnet_web_api_startpack.Prelude.{Text, lit, [], true, false, some, ◌≡◌, arith, lookup}
use dotnet_web_api_startpack.Types.{
  WorkbenchVariables, EndpointDefinition, AuthMode, bearer, cookie, api_key, method_text,
}
use dotnet_web_api_startpack.Headers.{
  Headers, is_public, is_some, is_unsafe, read_cookie, build_headers,
}
use dotnet_web_api_startpack.Headers.Transport.{build_headers-IsExpected}
use dotnet_web_api_startpack.Panels.Identity.{is_ready}

-- The header that carries what the vault holds for a mode.
abbrev pub vault_header : AuthMode → Text
vault_header cookie = lit "X-CSRF-Token"
vault_header _ = lit "Authorization"

-- The vault is marked as ready exactly when a request that changes something on an endpoint that is not
-- public gets a credential from it: its authorization, or in cookie mode its CSRF token, where the
-- browser has no cookie with one.
pub build_headers-is_ready :
    (endpoint : EndpointDefinition) (mode : AuthMode) (v : WorkbenchVariables) (cookies : Text)
    → is_public endpoint.auth ≡ false
    → is_unsafe (method_text endpoint.method) ≡ true
    → read_cookie (lit "__Host-auth.csrf") cookies ≡ some []
    → (headers : Headers) × (build_headers endpoint mode v cookies ≡ some headers)
      × (is_some (lookup (vault_header mode) headers) ≡ is_ready mode v)
unfolding is_ready
build_headers-is_ready endpoint bearer v cookies closed unsafe none_stored =
    let (headers, built, expected) =
      build_headers-IsExpected endpoint bearer v cookies [] none_stored in
    (headers, built, ground (arith, expected.authorization))
build_headers-is_ready endpoint api_key v cookies closed unsafe none_stored =
    let (headers, built, expected) =
      build_headers-IsExpected endpoint api_key v cookies [] none_stored in
    (headers, built, ground (arith, expected.authorization))
build_headers-is_ready endpoint cookie v cookies closed unsafe none_stored =
    let (headers, built, expected) =
      build_headers-IsExpected endpoint cookie v cookies [] none_stored in
    (headers, built, ground (arith, expected.csrf))
