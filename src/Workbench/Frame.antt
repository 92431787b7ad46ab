-- ===== src/Workbench/Frame.antt =====
-- What `captureResponseData` and `setVariable` leave alone: all but the variables and the storage.
use dotnet_web_api_startpack.Prelude.{
  Text, lit, Bool, true, false, ◌&&◌, Option, none, some, ◌≡◌, refl, ◌∙◌, arith, Bool-cases,
  Option-cases, inl, inr, ◌==◌, member, text_eq, if◌then◌else◌,
}
use dotnet_web_api_startpack.Json.{Json}
use dotnet_web_api_startpack.Types.{ApiResult, EndpointDefinition}
use dotnet_web_api_startpack.Constants.{session_issuing_endpoints}
use dotnet_web_api_startpack.Platform.{Platform}
use dotnet_web_api_startpack.Template.{is_empty}
use dotnet_web_api_startpack.Headers.{read_cookie}
use dotnet_web_api_startpack.Vault.Variables.{
  VariableName, access_token, refresh_token, api_key, csrf_token, totp_secret, mfa_ticket,
  credential_id,
}
use dotnet_web_api_startpack.Workbench.State.{Workbench, Closure, set_variable}
use dotnet_web_api_startpack.Workbench.Capture.{
  is_record, get_string, set_if, capture_tokens, capture_social, capture_passkey, first_credential,
  is_cookie, capture_csrf, choose_notice, capture_response_data,
}

pub record Frame (w w' : Workbench) : Type 0 where
  pub api_base : w'.api_base ≡ w.api_base
  pub auth_mode : w'.auth_mode ≡ w.auth_mode
  pub response : w'.response ≡ w.response
  pub is_running : w'.is_running ≡ w.is_running
  pub services : w'.services ≡ w.services
  pub toasts : w'.toasts ≡ w.toasts
  pub abort : w'.abort ≡ w.abort
  pub toast_id : w'.toast_id ≡ w.toast_id
  pub timers : w'.timers ≡ w.timers
  pub in_flight : w'.in_flight ≡ w.in_flight
  pub next_controller : w'.next_controller ≡ w.next_controller

pub Frame-refl : (w : Workbench) → Frame w w
Frame-refl w = record {
  api_base = refl;
  auth_mode = refl;
  response = refl;
  is_running = refl;
  services = refl;
  toasts = refl;
  abort = refl;
  toast_id = refl;
  timers = refl;
  in_flight = refl;
  next_controller = refl;
}

pub Frame-trans : {u v w : Workbench} → Frame u v → Frame v w → Frame u w
Frame-trans f g = record {
  api_base = g.api_base ∙ f.api_base;
  auth_mode = g.auth_mode ∙ f.auth_mode;
  response = g.response ∙ f.response;
  is_running = g.is_running ∙ f.is_running;
  services = g.services ∙ f.services;
  toasts = g.toasts ∙ f.toasts;
  abort = g.abort ∙ f.abort;
  toast_id = g.toast_id ∙ f.toast_id;
  timers = g.timers ∙ f.timers;
  in_flight = g.in_flight ∙ f.in_flight;
  next_controller = g.next_controller ∙ f.next_controller;
}

pub Frame-set_variable :
    (name : VariableName) (t : Text) (w : Workbench) → Frame w (set_variable name t w)
unfolding set_variable
Frame-set_variable name t w = record {
  api_base = refl;
  auth_mode = refl;
  response = refl;
  is_running = refl;
  services = refl;
  toasts = refl;
  abort = refl;
  toast_id = refl;
  timers = refl;
  in_flight = refl;
  next_controller = refl;
}

Frame-set_if : (name : VariableName) (o : Option Text) (w : Workbench) → Frame w (set_if name o w)
Frame-set_if name none w = Frame-refl w
Frame-set_if name (some t) w = Frame-set_variable name t w

Frame-if : (b : Bool) {w u v : Workbench} → Frame w u → Frame w v → Frame w (if b then u else v)
Frame-if true f g = f
Frame-if false f g = g

Frame-then_set_if :
    (name : VariableName) (o : Option Text) {w u : Workbench}
    → Frame w u
    → Frame w (set_if name o u)
Frame-then_set_if name o {u = u} f = Frame-trans f (Frame-set_if name o u)

Frame-capture_tokens :
    (endpoint : EndpointDefinition) (body : Json) (w : Workbench)
    → Frame w (capture_tokens endpoint body w)
unfolding capture_tokens
Frame-capture_tokens endpoint body w =
    let f1 = Frame-set_if access_token (get_string (lit "accessToken") body) w in
    let f2 = Frame-then_set_if refresh_token (get_string (lit "refreshToken") body) f1 in
    let f3 = Frame-then_set_if api_key (get_string (lit "key") body) f2 in
    let f4 = Frame-then_set_if mfa_ticket (get_string (lit "mfaTicket") body) f3 in
    let f5 = Frame-then_set_if totp_secret (get_string (lit "secret") body) f4 in
    Frame-if (text_eq endpoint.id (lit "auth-csrf"))
      (Frame-then_set_if csrf_token (get_string (lit "token") body) f5) f5

module _ ⦃p : Platform⦄ where
  Frame-capture_social :
      (closure : Closure) (endpoint : EndpointDefinition) (body : Json) (w : Workbench)
      {w' : Workbench}
      → capture_social closure endpoint body w ≡ some w'
      → Frame w w'
  unfolding capture_social set_variable
  Frame-capture_social closure endpoint body w h = ground arith

  Frame-capture_passkey :
      (endpoint : EndpointDefinition) (body : Json) (w : Workbench)
      → Frame w (capture_passkey endpoint body w)
  unfolding capture_passkey
  Frame-capture_passkey endpoint body w =
      Frame-if (text_eq endpoint.id (lit "passkeys-list"))
        (Frame-set_if credential_id (first_credential body) w) (Frame-refl w)

  Frame-capture_csrf : (cookies : Text) (w : Workbench) → Frame w (capture_csrf cookies w).0
  unfolding capture_csrf
  Frame-capture_csrf cookies w =
      elim (Option-cases (read_cookie (lit "__Host-auth.csrf") cookies)) [
        | inl e ↦ rw (e, capture_csrf) (Frame-refl w)
        | inr (csrf, e) ↦
            rw (e, capture_csrf)
              (Frame-if (is_empty csrf) (Frame-refl w) (Frame-set_variable csrf_token csrf w))
      ]

  Frame-choose_notice :
      (closure : Closure) (endpoint : EndpointDefinition) (result : ApiResult) (cookies : Text)
      (w : Workbench)
      → Frame w (choose_notice closure endpoint result cookies w).0
  unfolding choose_notice
  Frame-choose_notice closure endpoint result cookies w =
      elim (Bool-cases (text_eq endpoint.id (lit "auth-login") && result.status == 202)) [
        | inl e ↦ rw e (Frame-refl w)
        | inr e ↦
            elim (Bool-cases (
              member endpoint.id session_issuing_endpoints
              && (result.ok && is_cookie closure.auth_mode))) [
                | inl e' ↦ rw (e, e') (Frame-capture_csrf cookies w)
                | inr e' ↦ rw (e, e') (Frame-refl w)
              ]
      ]

  -- Capturing a response changes the variables and the storage only, also where it throws.
  pub Frame-capture_response_data :
      (closure : Closure) (endpoint : EndpointDefinition) (result : ApiResult) (cookies : Text)
      (w : Workbench)
      → Frame w (capture_response_data closure endpoint result cookies w).0
  unfolding capture_response_data
  Frame-capture_response_data closure endpoint result cookies w =
      let body = result.json_data in
      let after = capture_tokens endpoint body w in
      let tokens = Frame-capture_tokens endpoint body w in
      elim (Bool-cases (is_record body)) [
        | inr e ↦ rw e (Frame-refl w)
        | inl e ↦ elim (Option-cases (capture_social closure endpoint body after)) [
          | inl none_such ↦ rw (e, none_such) tokens
          | inr (social, e') ↦
              rw (e, e')
                (Frame-trans tokens (
                  Frame-trans (Frame-capture_social closure endpoint body after e') (
                    Frame-trans (Frame-capture_passkey endpoint body social) (
                      Frame-choose_notice closure endpoint result cookies
                        (capture_passkey endpoint body social)))))
        ]
      ]
