-- ===== src/Workbench/Issued.antt =====
-- The way of a token through the provider of workbench-context.tsx: from the response that issues it, by
-- `captureResponseData`, into the headers of the requests after it.
pub mod Presented
use dotnet_web_api_startpack.Prelude.{
  ℕ, Text, lit, [], ◌++◌, true, false, Option, none, some, or_else, ◌≡◌, refl, sym, ap, ◌∙◌, ◌<◌,
  arith, Bool-cases, Option-cases, some-injective, inl, inr, ◌==◌, find?, lookup, set_key, text_eq,
  if◌then◌else◌,
}
use dotnet_web_api_startpack.Json.{Json}
use dotnet_web_api_startpack.Types.{
  WorkbenchVariables, ApiResult, EndpointDefinition, AuthMode, bearer,
}
use dotnet_web_api_startpack.Platform.{Platform}
use dotnet_web_api_startpack.Template.{is_empty}
use dotnet_web_api_startpack.Headers.{
  Headers, is_public, read_cookie, add_authorization, add_csrf, add_transport, build_headers,
}
use dotnet_web_api_startpack.Headers.Transport.{held}
use dotnet_web_api_startpack.Fetch.{success, FetchRequest, fetch_request}
use dotnet_web_api_startpack.Vault.Variables.{
  VariableName, variable, access_token, refresh_token, api_key, csrf_token, totp_secret, mfa_ticket,
  credential_id, social_code, social_state,
}
use dotnet_web_api_startpack.Vault.Places.{place, variable-with_variable}
use dotnet_web_api_startpack.Workbench.State.{
  Workbench, Closure, Flight, RunRequestOptions, set_variable,
}
use dotnet_web_api_startpack.Workbench.Capture.{
  is_record, get_string, set_if, capture_tokens, capture_social, capture_passkey, first_credential,
  capture_csrf, choose_notice, capture_response_data, search_param, Captured, noticed, thrown,
}
use dotnet_web_api_startpack.Workbench.Request.{
  finish_request, release, land, settle, request_input, start_request,
}
use dotnet_web_api_startpack.Workbench.Session.{Event, act, finish_flight, is_controller}

-- The value of a variable in a state.
abbrev pub value_in : VariableName → Workbench → Text
value_in n w = variable n w.variables

value-set_variable :
    (n m : VariableName) (t : Text) (w : Workbench)
    → value_in m (set_variable n t w) ≡ (if place n == place m then t else value_in m w)
unfolding set_variable
value-set_variable n m t w = variable-with_variable n m t w.variables

value-set_if :
    (n m : VariableName) (o : Option Text) (w : Workbench)
    → value_in m (set_if n o w)
      ≡ (if place n == place m then or_else o (value_in m w) else value_in m w)
value-set_if n m none w = ground arith
value-set_if n m (some t) w = ground (arith, value-set_variable n m t w)

-- The first block of assignments leaves the token and the key of the response.
value-capture_tokens :
    (endpoint : EndpointDefinition) (body : Json) (w : Workbench)
    → (value_in access_token (capture_tokens endpoint body w)
        ≡ or_else (get_string (lit "accessToken") body) (value_in access_token w))
      × (value_in api_key (capture_tokens endpoint body w)
          ≡ or_else (get_string (lit "key") body) (value_in api_key w))
unfolding capture_tokens place
value-capture_tokens endpoint body w =
    let w1 = set_if access_token (get_string (lit "accessToken") body) w in
    let w2 = set_if refresh_token (get_string (lit "refreshToken") body) w1 in
    let w3 = set_if api_key (get_string (lit "key") body) w2 in
    let w4 = set_if mfa_ticket (get_string (lit "mfaTicket") body) w3 in
    let w5 = set_if totp_secret (get_string (lit "secret") body) w4 in
    let csrf = value-set_if csrf_token access_token (get_string (lit "token") body) w5 in
    let csrf' = value-set_if csrf_token api_key (get_string (lit "token") body) w5 in
    (
      ground (
        arith,
        csrf,
        value-set_if totp_secret access_token (get_string (lit "secret") body) w4,
        value-set_if mfa_ticket access_token (get_string (lit "mfaTicket") body) w3,
        value-set_if api_key access_token (get_string (lit "key") body) w2,
        value-set_if refresh_token access_token (get_string (lit "refreshToken") body) w1,
        value-set_if access_token access_token (get_string (lit "accessToken") body) w,
      ),
      ground (
        arith,
        csrf',
        value-set_if totp_secret api_key (get_string (lit "secret") body) w4,
        value-set_if mfa_ticket api_key (get_string (lit "mfaTicket") body) w3,
        value-set_if api_key api_key (get_string (lit "key") body) w2,
        value-set_if refresh_token api_key (get_string (lit "refreshToken") body) w1,
        value-set_if access_token api_key (get_string (lit "accessToken") body) w,
      ),
    )

-- A variable of a credential: the access token, the refresh token or the key.
abbrev pub IsCredential : VariableName → Type 0
IsCredential m = place m < 3

module _ ⦃p : Platform⦄ where
  value-capture_passkey :
      (m : VariableName) (endpoint : EndpointDefinition) (body : Json) (w : Workbench)
      → IsCredential m
      → value_in m (capture_passkey endpoint body w) ≡ value_in m w
  unfolding capture_passkey place
  value-capture_passkey m endpoint body w c =
      ground (arith, value-set_if credential_id m (first_credential body) w)

  value-capture_social :
      (m : VariableName) (closure : Closure) (endpoint : EndpointDefinition) (body : Json)
      (w : Workbench) {w' : Workbench}
      → IsCredential m
      → capture_social closure endpoint body w ≡ some w'
      → value_in m w' ≡ value_in m w
  unfolding capture_social place
  value-capture_social m closure endpoint body w c h =
      elim (Bool-cases (text_eq endpoint.id (lit "social-authorize"))) [
        | inr other ↦ ap (value_in m) (sym (some-injective _ _ (rw (other, capture_social) at h)))
        | inl social ↦ elim (Option-cases (get_string (lit "authorizationUrl") body)) [
          | inl e ↦ ground arith
          | inr (text, e) ↦ elim (Option-cases (p.parse_url text closure.api_base)) [
            | inl e' ↦ absurd (ground arith)
            | inr (url, e') ↦
                let after_code = set_variable social_code (search_param (lit "code") url) w in
                ground (
                  arith,
                  value-set_variable social_state m (search_param (lit "state") url) after_code,
                  value-set_variable social_code m (search_param (lit "code") url) w,
                )
          ]
        ]
      ]

  value-choose_notice :
      (m : VariableName) (closure : Closure) (endpoint : EndpointDefinition) (result : ApiResult)
      (cookies : Text) (w : Workbench)
      → IsCredential m
      → value_in m (choose_notice closure endpoint result cookies w).0 ≡ value_in m w
  unfolding choose_notice capture_csrf place
  value-choose_notice m closure endpoint result cookies w c =
      elim (Option-cases (read_cookie (lit "__Host-auth.csrf") cookies)) [
        | inl e ↦ ground (arith)
        | inr (csrf, e) ↦ ground (arith, value-set_variable csrf_token m csrf w)
      ]

  -- What the capture leaves in a credential is what its first assignments leave.
  value-capture :
      (m : VariableName) (closure : Closure) (endpoint : EndpointDefinition) (result : ApiResult)
      (cookies : Text) (w : Workbench)
      → IsCredential m
      → is_record result.json_data ≡ true
      → value_in m (capture_response_data closure endpoint result cookies w).0
        ≡ value_in m (capture_tokens endpoint result.json_data w)
  unfolding capture_response_data
  value-capture m closure endpoint result cookies w c is_data =
      let body = result.json_data in
      let after_tokens = capture_tokens endpoint body w in
      elim (Option-cases (capture_social closure endpoint body after_tokens)) [
        | inl e ↦ rw (is_data, capture_response_data, e) refl
        | inr (after_social, e) ↦
            rw (is_data, capture_response_data, e)
              (value-choose_notice m closure endpoint result cookies
                  (capture_passkey endpoint body after_social) c
                ∙ value-capture_passkey m endpoint body after_social c
                ∙ value-capture_social m closure endpoint body after_tokens c e)
      ]

  value-settle :
      (m : VariableName) (flight : Flight) (result : ApiResult) (captured : Workbench × Captured)
      → value_in m (settle flight result captured) ≡ value_in m captured.0
  value-settle m flight result (w, noticed notice) = ground arith
  value-settle m flight result (w, thrown) = refl

  value-release :
      (m : VariableName) (k : ℕ) (w : Workbench) → value_in m (release k (land k w)) ≡ value_in m w
  value-release m k w = ground arith

  -- The end of a request that is answered with an object or array leaves its tokens in the variables.
  pub value-finish :
      (flight : Flight) (k : ℕ) (result : ApiResult) (cookies : Text) (w : Workbench)
      → find? (is_controller k) w.in_flight ≡ some flight
      → flight.aborted ≡ false
      → is_record result.json_data ≡ true
      → (value_in access_token (act (Event.finish k (success result) cookies) w)
          ≡ or_else (get_string (lit "accessToken") result.json_data) (value_in access_token w))
        × (value_in api_key (act (Event.finish k (success result) cookies) w)
            ≡ or_else (get_string (lit "key") result.json_data) (value_in api_key w))
  unfolding act finish_flight finish_request place
  value-finish flight k result cookies w found live is_data =
      let w1 = release flight.controller (land flight.controller w) in
      let captured =
        capture_response_data flight.closure flight.options.endpoint result cookies w1 in
      let tokens = value-capture_tokens flight.options.endpoint result.json_data w1 in
      let before = value-release access_token flight.controller w in
      let before' = value-release api_key flight.controller w in
      let capture =
        value-capture access_token flight.closure flight.options.endpoint result cookies w1 in
      let capture' =
        value-capture api_key flight.closure flight.options.endpoint result cookies w1 in
      rw (found, finish_flight, live)
        (
          value-settle access_token flight result captured
              ∙ capture (ground arith) is_data
              ∙ tokens.0
              ∙ ap (or_else (get_string (lit "accessToken") result.json_data)) before,
          value-settle api_key flight result captured
              ∙ capture' (ground arith) is_data
              ∙ tokens.1
              ∙ ap (or_else (get_string (lit "key") result.json_data)) before',
        )
