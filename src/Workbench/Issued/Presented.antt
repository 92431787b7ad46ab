-- ===== src/Workbench/Issued/Presented.antt =====
-- The credential that a later request of workbench-context.tsx presents.
use dotnet_web_api_startpack.Prelude.{
  ℕ, Text, lit, [], ◌++◌, true, false, Option, none, some, or_else, ◌≡◌, refl, ap, ◌∙◌, arith,
  Option-cases, inl, inr, find?, lookup, set_key, text_eq,
}
use dotnet_web_api_startpack.Json.{Json}
use dotnet_web_api_startpack.Types.{
  WorkbenchVariables, ApiResult, EndpointDefinition, AuthMode, bearer,
}
use dotnet_web_api_startpack.Platform.{Platform}
use dotnet_web_api_startpack.Template.{is_empty}
use dotnet_web_api_startpack.Headers.{
  Headers, is_public, add_authorization, add_csrf, add_transport, build_headers,
}
use dotnet_web_api_startpack.Headers.Transport.{held}
use dotnet_web_api_startpack.Fetch.{success, FetchRequest, fetch_request}
use dotnet_web_api_startpack.Vault.Variables.{variable}
use dotnet_web_api_startpack.Workbench.State.{Workbench, Closure, Flight, RunRequestOptions}
use dotnet_web_api_startpack.Workbench.Capture.{is_record, get_string}
use dotnet_web_api_startpack.Workbench.Request.{request_input, start_request}
use dotnet_web_api_startpack.Workbench.Session.{Event, act, is_controller}
-- The value of a variable in a state.
use dotnet_web_api_startpack.Workbench.Issued.{value-finish}

-- The credential of a mode that a response issues, and the scheme by which it is presented.
abbrev pub issued : AuthMode → Json → Option Text
issued bearer body = get_string (lit "accessToken") body
issued AuthMode.api_key body = get_string (lit "key") body
issued AuthMode.cookie body = none

abbrev pub scheme : AuthMode → Text
scheme bearer = lit "Bearer "
scheme AuthMode.api_key = lit "ApiKey "
scheme AuthMode.cookie = []

build_headers-held :
    (endpoint : EndpointDefinition) (mode : AuthMode) (v : WorkbenchVariables) (cookies : Text)
    (credential : Text) {headers : Headers}
    → is_public endpoint.auth ≡ false
    → held mode v ≡ some credential
    → build_headers endpoint mode v cookies ≡ some headers
    → lookup (lit "Authorization") headers ≡ some credential
unfolding build_headers add_authorization add_csrf add_transport lookup set_key text_eq
build_headers-held endpoint bearer v cookies credential closed h e = ground arith
build_headers-held endpoint AuthMode.api_key v cookies credential closed h e = ground arith
build_headers-held endpoint AuthMode.cookie v cookies credential closed h e = absurd (ground arith)

module _ ⦃p : Platform⦄ where
  start_request-held :
      (closure : Closure) (options : RunRequestOptions) (mode : AuthMode)
      (cookies credential : Text) (w : Workbench) {request : FetchRequest}
      → or_else options.auth_mode closure.auth_mode ≡ mode
      → options.headers ≡ []
      → is_public options.endpoint.auth ≡ false
      → held mode closure.variables ≡ some credential
      → (start_request closure options cookies w).1 ≡ some request
      → lookup (lit "Authorization") request.headers ≡ some credential
  unfolding start_request request_input fetch_request
  start_request-held closure options mode cookies credential w m bare closed h e =
      elim (Option-cases (build_headers options.endpoint mode closure.variables cookies)) [
        | inl none_built ↦ absurd (ground arith)
        | inr (headers, built) ↦
            let there =
              build_headers-held options.endpoint mode closure.variables cookies credential
                {headers = headers} closed h built in
            ground arith
      ]

  held-finish :
      (mode : AuthMode) (token : Text) (flight : Flight) (k : ℕ) (result : ApiResult)
      (cookies : Text) (w : Workbench)
      → find? (is_controller k) w.in_flight ≡ some flight
      → flight.aborted ≡ false
      → is_record result.json_data ≡ true
      → issued mode result.json_data ≡ some token
      → is_empty token ≡ false
      → held mode (act (Event.finish k (success result) cookies) w).variables
        ≡ some (scheme mode ++ token)
  unfolding variable
  held-finish bearer token flight k result cookies w found live is_data gives full =
      let now = (value-finish flight k result cookies w found live is_data).0 in
      rw (now, gives, full) refl
  held-finish AuthMode.api_key token flight k result cookies w found live is_data gives full =
      let now = (value-finish flight k result cookies w found live is_data).1 in
      rw (now, gives, full) refl
  held-finish AuthMode.cookie token flight k result cookies w found live is_data gives full =
      absurd (ground arith)

  -- An access token or an API key that a request's response issues, where the request has not been
  -- aborted, is the credential of every later request to an endpoint that is not public, if it is made
  -- in that mode, without headers of its own, by the render that has the variables after the response.
  pub start_request-finish :
      (mode : AuthMode) (token : Text) (flight : Flight) (k : ℕ) (result : ApiResult)
      (cookies : Text) (w : Workbench) (closure : Closure) (options : RunRequestOptions)
      (cookies' : Text) (w' : Workbench) {request : FetchRequest}
      → find? (is_controller k) w.in_flight ≡ some flight
      → flight.aborted ≡ false
      → is_record result.json_data ≡ true
      → issued mode result.json_data ≡ some token
      → is_empty token ≡ false
      → closure.variables ≡ (act (Event.finish k (success result) cookies) w).variables
      → or_else options.auth_mode closure.auth_mode ≡ mode
      → options.headers ≡ []
      → is_public options.endpoint.auth ≡ false
      → (start_request closure options cookies' w').1 ≡ some request
      → lookup (lit "Authorization") request.headers ≡ some (scheme mode ++ token)
  start_request-finish mode token flight k result cookies w closure options cookies' w' found live
        is_data gives full after chosen bare closed sent =
      start_request-held closure options mode cookies' (scheme mode ++ token) w' chosen bare closed
        (ap (held mode) after
          ∙ held-finish mode token flight k result cookies w found live is_data gives full)
        sent
