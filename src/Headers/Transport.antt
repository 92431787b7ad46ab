-- ===== src/Headers/Transport.antt =====
-- Which credential `buildHeaders` sends in which mode.
use dotnet_web_api_startpack.Prelude.{
  Text, lit, List, [], ◌∷◌, ◌++◌, Bool, true, false, ◌&&◌, not, Option, none, some, ◌≡◌, refl, ap,
  ◌∙◌, arith, lookup, lookup-set_key, text_eq_iff, Bool-cases, inl, inr, ◌||◌, set_key, member,
  text_eq, if◌then◌else◌,
}
use dotnet_web_api_startpack.Types.{
  WorkbenchVariables, EndpointDefinition, AuthMode, bearer, cookie, api_key, method_text,
}
use dotnet_web_api_startpack.Constants.{session_issuing_endpoints}
use dotnet_web_api_startpack.Template.{is_empty}
use dotnet_web_api_startpack.Headers.{
  Headers, is_public, is_some, text_or, is_unsafe, read_cookie, first_headers, add_authorization,
  with_csrf, add_csrf, add_transport, build_headers,
}

abbrev pub when : Bool → Text → Option Text
when true t = some t
when false t = none

-- The credential of a mode, where the variables hold it.
abbrev pub held : AuthMode → WorkbenchVariables → Option Text
held bearer v = when (not (is_empty v.access_token)) (lit "Bearer " ++ v.access_token)
held api_key v = when (not (is_empty v.api_key)) (lit "ApiKey " ++ v.api_key)
held cookie v = none

abbrev pub is_cookie : AuthMode → Bool
is_cookie cookie = true
is_cookie _ = false

-- The CSRF token: the cookie's, or else the vault's.
abbrev pub csrf_of : WorkbenchVariables → Text → Option Text
csrf_of v stored = let csrf = text_or stored v.csrf_token in when (not (is_empty csrf)) csrf

-- The headers that there may be.
abbrev pub header_names : List Text
header_names =
    lit "Accept"
    ∷ lit "Content-Type"
    ∷ lit "Authorization"
    ∷ lit "X-CSRF-Token"
    ∷ lit "X-Auth-Transport"
    ∷ []

-- What the headers must be, header by header, and that there is no other one.
pub record IsExpected (endpoint : EndpointDefinition) (mode : AuthMode) (v : WorkbenchVariables)
    (stored : Text) (headers : Headers) : Type 0 where
  pub accept : lookup (lit "Accept") headers ≡ some (lit "application/json")
  pub content_type :
      lookup (lit "Content-Type") headers ≡ when (is_some endpoint.body) (lit "application/json")
  pub authorization :
      lookup (lit "Authorization") headers ≡ (if is_public endpoint.auth then none else held mode v)
  pub csrf : lookup (lit "X-CSRF-Token") headers ≡ (
      if is_cookie mode && is_unsafe (method_text endpoint.method) then csrf_of v stored else none)
  pub transport :
      lookup (lit "X-Auth-Transport") headers
      ≡ when (is_cookie mode && member endpoint.id session_issuing_endpoints) (lit "cookie")
  pub others : (name : Text) → member name header_names ≡ false → lookup name headers ≡ none

-- A list that has no header of another name.
abbrev HasOnly : Headers → Type 0
HasOnly headers = (name : Text) → member name header_names ≡ false → lookup name headers ≡ none

set_key-HasOnly :
    (k t : Text) (headers : Headers)
    → member k header_names ≡ true
    → HasOnly headers
    → HasOnly (set_key k t headers)
set_key-HasOnly k t headers known only name h = elim (Bool-cases (text_eq k name)) [
  | inl same ↦
      let there = ap (λ (n : Text). member n header_names) ((text_eq_iff k name).0 same) in
      absurd (ground (arith, there))
  | inr other ↦ lookup-set_key k name t headers ∙ rw (other) (only name h)
]

first_headers-HasOnly : (endpoint : EndpointDefinition) → HasOnly (first_headers endpoint)
unfolding member lookup text_eq set_key
first_headers-HasOnly endpoint = elim (Bool-cases (is_some endpoint.body)) [
  | inl e ↦ rw e (
      set_key-HasOnly (lit "Content-Type") (lit "application/json") accept_headers refl accept_only)
  | inr e ↦ rw e accept_only
]
  where
    accept_headers : Headers
    accept_headers = (lit "Accept", lit "application/json") ∷ []

    accept_only : HasOnly accept_headers
    accept_only = set_key-HasOnly (lit "Accept") _ [] refl (λ name h. refl)

add_authorization-HasOnly :
    (endpoint : EndpointDefinition) (mode : AuthMode) (v : WorkbenchVariables) (headers : Headers)
    → HasOnly headers
    → HasOnly (add_authorization endpoint mode v headers)
unfolding add_authorization member text_eq
add_authorization-HasOnly endpoint bearer v headers only =
    elim (Bool-cases (is_public endpoint.auth || is_empty v.access_token)) [
      | inl e ↦ rw e only
      | inr e ↦ rw e (set_key-HasOnly (lit "Authorization") _ headers refl only)
    ]
add_authorization-HasOnly endpoint api_key v headers only =
    elim (Bool-cases (is_public endpoint.auth || is_empty v.api_key)) [
      | inl e ↦ rw e only
      | inr e ↦ rw e (set_key-HasOnly (lit "Authorization") _ headers refl only)
    ]
add_authorization-HasOnly endpoint cookie v headers only = only

with_csrf-HasOnly :
    (csrf : Text) (headers : Headers) → HasOnly headers → HasOnly (with_csrf csrf headers)
unfolding member text_eq
with_csrf-HasOnly [] headers only = only
with_csrf-HasOnly (c ∷ csrf) headers only =
    set_key-HasOnly (lit "X-CSRF-Token") (c ∷ csrf) headers refl only

transport-known : member (lit "X-Auth-Transport") header_names ≡ true
unfolding member text_eq
transport-known = refl

add_transport-HasOnly :
    (endpoint : EndpointDefinition) (headers : Headers)
    → HasOnly headers
    → HasOnly (add_transport endpoint cookie headers)
unfolding add_transport text_eq
add_transport-HasOnly endpoint headers only =
    elim (Bool-cases (member endpoint.id session_issuing_endpoints)) [
      | inl e ↦ rw e (set_key-HasOnly (lit "X-Auth-Transport") _ headers transport-known only)
      | inr e ↦ rw e only
    ]

middle-HasOnly :
    (endpoint : EndpointDefinition) (csrf : Text)
    → HasOnly (
        if is_unsafe (method_text endpoint.method)
        then with_csrf csrf (first_headers endpoint)
        else first_headers endpoint)
middle-HasOnly endpoint csrf = elim (Bool-cases (is_unsafe (method_text endpoint.method))) [
  | inl e ↦ rw e (with_csrf-HasOnly csrf _ (first_headers-HasOnly endpoint))
  | inr e ↦ rw e (first_headers-HasOnly endpoint)
]

-- If the CSRF cookie can be read, the headers are built and are exactly the expected ones: the type
-- that is accepted, and that of a body if there is one; the credential of the mode on every endpoint
-- that is not public, never in cookie mode; the CSRF token in cookie mode on unsafe methods only; the
-- transport header in cookie mode on the endpoints that issue a session only; and no other header.
pub build_headers-IsExpected :
    (endpoint : EndpointDefinition) (mode : AuthMode) (v : WorkbenchVariables)
    (cookies stored : Text)
    → read_cookie (lit "__Host-auth.csrf") cookies ≡ some stored
    → (headers : Headers) × (build_headers endpoint mode v cookies ≡ some headers)
      × IsExpected endpoint mode v stored headers
unfolding build_headers add_authorization add_csrf add_transport lookup set_key text_eq
build_headers-IsExpected endpoint bearer v cookies stored h = (
  add_authorization endpoint bearer v (first_headers endpoint),
  refl,
  record {
    accept = ground arith;
    content_type = ground arith;
    authorization = ground arith;
    csrf = ground arith;
    transport = ground arith;
    others = add_authorization-HasOnly endpoint bearer v _ (first_headers-HasOnly endpoint);
  },
)
build_headers-IsExpected endpoint api_key v cookies stored h = (
  add_authorization endpoint api_key v (first_headers endpoint),
  refl,
  record {
    accept = ground arith;
    content_type = ground arith;
    authorization = ground arith;
    csrf = ground arith;
    transport = ground arith;
    others = add_authorization-HasOnly endpoint api_key v _ (first_headers-HasOnly endpoint);
  },
)
build_headers-IsExpected endpoint cookie v cookies stored h =
    let middle =
      if is_unsafe (method_text endpoint.method)
      then with_csrf (text_or stored v.csrf_token) (first_headers endpoint)
      else first_headers endpoint in
    (
      add_transport endpoint cookie middle,
      ground arith,
      record {
        accept = ground arith;
        content_type = ground arith;
        authorization = ground arith;
        csrf = ground arith;
        transport = ground arith;
        others =
            add_transport-HasOnly endpoint middle
              (middle-HasOnly endpoint (text_or stored v.csrf_token));
      },
    )
