-- ===== src/Workbench/Durable/Responses.antt =====
-- The responses of workbench-context.tsx: what `captureResponseData` and `runRequest` leave in the storage,
-- where it has room.
pub mod Requests
use dotnet_web_api_startpack.Prelude.{
  ℕ, Text, lit, ◌&&◌, Option, none, some, ◌≡◌, refl, ap, arith, ◌⊎◌, Bool-cases, Option-cases, inl,
  inr, ◌==◌, member, text_eq,
}
use dotnet_web_api_startpack.Json.{Json}
use dotnet_web_api_startpack.Types.{ApiResult, EndpointDefinition}
use dotnet_web_api_startpack.Constants.{session_issuing_endpoints}
use dotnet_web_api_startpack.Platform.{Platform}
use dotnet_web_api_startpack.Template.{is_empty}
use dotnet_web_api_startpack.Headers.{read_cookie}
use dotnet_web_api_startpack.Fetch.{Exit, success, failure, interrupted}
use dotnet_web_api_startpack.Vault.Variables.{
  VariableName, access_token, refresh_token, api_key, csrf_token, totp_secret, mfa_ticket,
  credential_id, social_code, social_state,
}
use dotnet_web_api_startpack.Workbench.State.{Workbench, Closure, Flight, set_variable, push_toast}
use dotnet_web_api_startpack.Workbench.Capture.{
  is_record, get_string, set_if, capture_tokens, capture_social, capture_passkey, first_credential,
  is_cookie, capture_csrf, choose_notice, capture_response_data, search_param, Captured, noticed,
  thrown, notice, data_notice,
}
use dotnet_web_api_startpack.Workbench.Request.{finish_request, release, land, settle, report}
use dotnet_web_api_startpack.Workbench.Durable.{
  lim, IsDurable, same-IsDurable, compose-IsDurable, agree-Lasts, set_variable-IsDurable,
  aside-Lasts,
}

set_if-IsDurable : (m : VariableName) (o : Option Text) → IsDurable (set_if m o)
set_if-IsDurable m none = same-IsDurable
set_if-IsDurable m (some t) = set_variable-IsDurable m t

pub agree-IsDurable :
    (f g : Workbench → Workbench) → ((w : Workbench) → f w ≡ g w) → IsDurable g → IsDurable f
agree-IsDurable f g same d w good = agree-Lasts f g w (λ n. same (lim n w)) (d w good)

capture_tokens-IsDurable :
    (endpoint : EndpointDefinition) (body : Json) → IsDurable (capture_tokens endpoint body)
unfolding capture_tokens
capture_tokens-IsDurable endpoint body =
    let five =
      compose-IsDurable _ _ (set_if-IsDurable access_token (get_string (lit "accessToken") body)) (
        compose-IsDurable _ _
          (set_if-IsDurable refresh_token (get_string (lit "refreshToken") body))
          (compose-IsDurable _ _ (set_if-IsDurable api_key (get_string (lit "key") body)) (
            compose-IsDurable _ _ (set_if-IsDurable mfa_ticket (get_string (lit "mfaTicket") body))
              (set_if-IsDurable totp_secret (get_string (lit "secret") body))))) in
    elim (Bool-cases (text_eq endpoint.id (lit "auth-csrf"))) [
      | inl csrf ↦
          agree-IsDurable _ _ (λ w. rw (csrf, capture_tokens) refl)
            (compose-IsDurable _ _ five
              (set_if-IsDurable csrf_token (get_string (lit "token") body)))
      | inr other ↦ agree-IsDurable _ _ (λ w. rw (other, capture_tokens) refl) five
    ]

-- A step with an outcome that does not depend on the page.
pub record Steady {A : Type 0} (f : Workbench → Workbench × A) : Type 0 where
  pub step : Workbench → Workbench
  pub outcome : A
  pub durable : IsDurable step
  pub agrees : (w : Workbench) → f w ≡ (step w, outcome)

module _ ⦃p : Platform⦄ where
  capture_passkey-IsDurable :
      (endpoint : EndpointDefinition) (body : Json) → IsDurable (capture_passkey endpoint body)
  unfolding capture_passkey
  capture_passkey-IsDurable endpoint body =
      elim (Bool-cases (text_eq endpoint.id (lit "passkeys-list"))) [
        | inl passkeys ↦
            agree-IsDurable _ _ (λ w. rw (passkeys, capture_passkey) refl)
              (set_if-IsDurable credential_id (first_credential body))
        | inr other ↦ agree-IsDurable _ _ (λ w. rw (other, capture_passkey) refl) same-IsDurable
      ]

  -- The part on the social sign-in throws on every page or on none.
  capture_social-Steady :
      (closure : Closure) (endpoint : EndpointDefinition) (body : Json)
      → ((w : Workbench) → capture_social closure endpoint body w ≡ none)
        ⊎ ((g : Workbench → Workbench) × (IsDurable g
              × ((w : Workbench) → capture_social closure endpoint body w ≡ some (g w))))
  unfolding capture_social
  capture_social-Steady closure endpoint body =
      elim (Bool-cases (text_eq endpoint.id (lit "social-authorize"))) [
        | inr other ↦ inr ((λ w. w), (same-IsDurable, (λ w. rw (other, capture_social) refl)))
        | inl social ↦ elim (Option-cases (get_string (lit "authorizationUrl") body)) [
          | inl e ↦ inr ((λ w. w), (same-IsDurable, (λ w. rw (social, e, capture_social) refl)))
          | inr (text, e) ↦ elim (Option-cases (p.parse_url text closure.api_base)) [
            | inl e' ↦ inl (λ w. rw (social, e, e', capture_social) refl)
            | inr (url, e') ↦ inr (
              (λ w.
                  set_variable social_state (search_param (lit "state") url)
                    (set_variable social_code (search_param (lit "code") url) w)),
              (
                compose-IsDurable _ _
                    (set_variable-IsDurable social_code (search_param (lit "code") url))
                    (set_variable-IsDurable social_state (search_param (lit "state") url)),
                (λ w. rw (social, e, e', capture_social) refl),
              ),
            )
          ]
        ]
      ]

  capture_csrf-Steady : (cookies : Text) → Steady (capture_csrf cookies)
  unfolding capture_csrf
  capture_csrf-Steady cookies = elim (Option-cases (read_cookie (lit "__Host-auth.csrf") cookies)) [
    | inl e ↦ record {
      step = λ w. w;
      outcome = thrown;
      durable = same-IsDurable;
      agrees = λ w. rw (e, capture_csrf) refl;
    }
    | inr (csrf, e) ↦ elim (Bool-cases (is_empty csrf)) [
      | inl empty ↦ record {
        step = λ w. w;
        outcome = notice (lit "response_notice_cookie");
        durable = same-IsDurable;
        agrees = λ w. rw (e, capture_csrf, empty) refl;
      }
      | inr full ↦ record {
        step = set_variable csrf_token csrf;
        outcome = notice (lit "response_notice_cookie");
        durable = set_variable-IsDurable csrf_token csrf;
        agrees = λ w. rw (e, capture_csrf, full) refl;
      }
    ]
  ]

  choose_notice-Steady :
      (closure : Closure) (endpoint : EndpointDefinition) (result : ApiResult) (cookies : Text)
      → Steady (choose_notice closure endpoint result cookies)
  unfolding choose_notice
  choose_notice-Steady closure endpoint result cookies =
      elim (Bool-cases (text_eq endpoint.id (lit "auth-login") && result.status == 202)) [
        | inl mfa ↦ record {
          step = λ w. w;
          outcome = notice (lit "response_notice_mfa");
          durable = same-IsDurable;
          agrees = λ w. rw (mfa, choose_notice) refl;
        }
        | inr other ↦
            elim (Bool-cases (
              member endpoint.id session_issuing_endpoints
              && (result.ok && is_cookie closure.auth_mode))) [
                | inl session ↦
                    let csrf = capture_csrf-Steady cookies in
                    record {
                      step = csrf.step;
                      outcome = csrf.outcome;
                      durable = csrf.durable;
                      agrees = λ w. rw (other, session, choose_notice) (csrf.agrees w);
                    }
                | inr none_issued ↦ record {
                  step = λ w. w;
                  outcome = data_notice result.json_data;
                  durable = same-IsDurable;
                  agrees = λ w. rw (other, none_issued, choose_notice) refl;
                }
              ]
      ]

  pub capture_response_data-Steady :
      (closure : Closure) (endpoint : EndpointDefinition) (result : ApiResult) (cookies : Text)
      → Steady (capture_response_data closure endpoint result cookies)
  unfolding capture_response_data
  capture_response_data-Steady closure endpoint result cookies =
      let body = result.json_data in
      elim (Bool-cases (is_record body)) [
        | inr plain ↦ record {
          step = λ w. w;
          outcome = noticed none;
          durable = same-IsDurable;
          agrees = λ w. rw (plain, capture_response_data) refl;
        }
        | inl is_data ↦ elim (capture_social-Steady closure endpoint body) [
          | inl throws ↦ record {
            step = capture_tokens endpoint body;
            outcome = thrown;
            durable = capture_tokens-IsDurable endpoint body;
            agrees = λ w.
                rw (is_data, capture_response_data, throws (capture_tokens endpoint body w)) refl;
          }
          | inr (g, (durable, gives)) ↦
              let chosen = choose_notice-Steady closure endpoint result cookies in
              record {
                step = λ w.
                    chosen.step
                      (capture_passkey endpoint body (g (capture_tokens endpoint body w)));
                outcome = chosen.outcome;
                durable = compose-IsDurable _ _ (capture_tokens-IsDurable endpoint body) (
                    compose-IsDurable _ _ durable (
                      compose-IsDurable _ _ (capture_passkey-IsDurable endpoint body)
                        chosen.durable));
                agrees = λ w.
                    rw (is_data, capture_response_data, gives (capture_tokens endpoint body w))
                      (chosen.agrees
                        (capture_passkey endpoint body (g (capture_tokens endpoint body w))));
              }
        ]
      ]
