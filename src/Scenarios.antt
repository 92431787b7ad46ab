-- ===== src/Scenarios.antt =====
-- The scenarios of playground-ui/src/features/workbench/workbench-screen.tsx: what the buttons of the
-- identity panel set off, as scripts that call the provider and wait for its requests.
pub mod Modes
pub mod Outcomes
pub mod Performance
pub mod Rest
pub mod Bounded
use dotnet_web_api_startpack.Prelude.{
  Text, lit, List, [], ◌∷◌, ◌++◌, Bool, true, false, ◌&&◌, not, Option, none, some, ◌==◌,
  if◌then◌else◌,
}
use dotnet_web_api_startpack.Json.{Json, str, obj, field, end}
use dotnet_web_api_startpack.Types.{
  AuthMode, bearer, cookie, ApiResult, Tone, neutral, error, EndpointDefinition,
}
use dotnet_web_api_startpack.Constants.{DemoAccount, demo}
use dotnet_web_api_startpack.Platform.{Platform, Url}
use dotnet_web_api_startpack.Catalog.{endpoint_by_id}
use dotnet_web_api_startpack.Vault.Variables.{VariableName}
use dotnet_web_api_startpack.Workbench.State.{RunRequestOptions}
use dotnet_web_api_startpack.Workbench.Capture.{get_string, search_param}
use dotnet_web_api_startpack.Workbench.Session.{Event}

-- An asynchronous function of the screen: it ends, fails with an exception, calls the provider,
-- navigates to an endpoint, or waits for a request, whose answer is `none` where the source has null.
pub data Script : Type 0 where
  finished failed : Script
  emit : Event → Script → Script
  navigate : Text → Script → Script
  ask : RunRequestOptions → (Option ApiResult → Script) → Script

pub data AccountName : Type 0 where
  admin user : AccountName

-- The two buttons of the social sign-in.
pub data Provider : Type 0 where
  google github : Provider

pub data Scenario : Type 0 where
  demo_login : AccountName → Scenario
  prepare_sessions use_demo_api_key : Scenario
  run_social : Provider → Scenario

abbrev pub demo_account : AccountName → DemoAccount
demo_account admin = demo.admin
demo_account user = demo.user

abbrev pub provider_text : Provider → Text
provider_text google = lit "google"
provider_text github = lit "github"

abbrev pub login_body : DemoAccount → Json
login_body account =
    obj
      (field (lit "email") (str account.email) (field (lit "password") (str account.password) end))

-- The options of a request that is neither displayed nor reported, and of one that is both.
abbrev pub quiet : EndpointDefinition → Option Text → Option Json → AuthMode → RunRequestOptions
quiet endpoint path body mode = record {
  endpoint = endpoint;
  path = path;
  body = body;
  headers = [];
  display = false;
  report_error = false;
  auth_mode = some mode;
}

abbrev pub shown : EndpointDefinition → Option Text → Option Json → AuthMode → RunRequestOptions
shown endpoint path body mode = record {
  endpoint = endpoint;
  path = path;
  body = body;
  headers = [];
  display = true;
  report_error = true;
  auth_mode = some mode;
}

abbrev pub is_ok : Option ApiResult → Bool
is_ok none = false
is_ok (some result) = result.ok

-- `ensureCsrf`
unfoldable pub ensure_csrf : Script
ensure_csrf = elim (endpoint_by_id (lit "auth-csrf")) [
  | none ↦ finished
  | some csrf ↦ ask (quiet csrf none none cookie) (λ answer. finished)
]

abbrev pub ensure_csrf_in : AuthMode → Script
ensure_csrf_in cookie = ensure_csrf
ensure_csrf_in _ = finished

-- A key is no mode for a login.
abbrev pub login_mode : AuthMode → AuthMode
login_mode AuthMode.api_key = bearer
login_mode mode = mode

module _ ⦃p : Platform⦄ where
  abbrev say : Text → Text → Tone → Script → Script
  say title description tone rest = emit (Event.toast title description tone) rest

  abbrev account_label : AccountName → Text
  account_label admin = lit "Admin"
  account_label user = demo.user.email

  abbrev pub after_login : AccountName → AuthMode → Option ApiResult → Script
  after_login name mode none = finished
  after_login name mode (some result) =
      if result.ok && not (result.status == 202)
      then say (p.message (lit "login_ready") ((lit "account", account_label name) ∷ []))
          (demo_account name).email neutral (ensure_csrf_in mode)
      else if result.status == 202
      then say (p.message (lit "mfa_required") []) (p.message (lit "mfa_required_description") [])
          neutral finished
      else finished

  -- `demoLogin`; the argument is the mode of the render.
  unfoldable pub demo_login_script : AuthMode → AccountName → Script
  demo_login_script page_mode name = elim (endpoint_by_id (lit "auth-login")) [
    | none ↦ finished
    | some login ↦
        let mode = login_mode page_mode in
        emit (Event.mode mode) (
          navigate login.id (
            ask (shown login none (some (login_body (demo_account name))) mode)
              (after_login name mode)))
  ]

  abbrev scenario_failed : Script
  scenario_failed =
      say (p.message (lit "scenario_failed") []) (p.message (lit "scenario_failed_description") [])
        error finished

  -- `prepareSessions`
  unfoldable pub prepare_sessions_script : Script
  prepare_sessions_script = elim (endpoint_by_id (lit "auth-login")) [
    | none ↦ finished
    | some login ↦
        let options = quiet login none (some (login_body demo.user)) bearer in
        emit (Event.mode bearer) (
          ask options (λ first.
            if is_ok first
            then ask options (λ second.
              if is_ok second
              then say (p.message (lit "scenario_ready") [])
                  (p.message (lit "scenario_ready_description") []) neutral
                  (navigate (lit "sessions-list") finished)
              else scenario_failed)
            else scenario_failed))
  ]

  -- `useDemoApiKey`
  unfoldable pub use_demo_api_key_script : Script
  use_demo_api_key_script = emit (Event.variable VariableName.api_key demo.api_key) (
      emit (Event.mode AuthMode.api_key) (
        say (p.message (lit "demo_key_ready") []) (p.message (lit "demo_key_ready_description") [])
          neutral finished))

  abbrev pub authorization_url : Option ApiResult → Option Text
  authorization_url none = none
  authorization_url (some result) =
      if result.ok then get_string (lit "authorizationUrl") result.json_data else none

  abbrev social_start : Provider → Text
  social_start provider = lit "/api/v1/auth/social/" ++ (provider_text provider ++ lit "/authorize")

  abbrev pub after_callback : Provider → Option ApiResult → Script
  after_callback provider second =
      if is_ok second
      then say (p.message (lit "oauth_ready") ((lit "provider", provider_text provider) ∷ []))
          (p.message (lit "oauth_ready_description") []) neutral finished
      else finished

  -- The part of `runSocial` that follows the URL of the authorization; `origin` is that of the page.
  abbrev pub follow : Text → EndpointDefinition → Provider → Text → Script
  follow origin callback provider text = elim (p.parse_url text origin) [
    | none ↦ failed
    | some url ↦ emit (Event.variable VariableName.social_code (search_param (lit "code") url)) (
        emit (Event.variable VariableName.social_state (search_param (lit "state") url)) (
          navigate callback.id (
            ask (shown callback (some (url.pathname ++ url.search)) none bearer)
              (after_callback provider))))
  ]

  abbrev pub after_authorize : Text → EndpointDefinition → Provider → Option ApiResult → Script
  after_authorize origin callback provider first = elim (authorization_url first) [
    | none ↦
        say (p.message (lit "oauth_failed") []) (p.message (lit "oauth_failed_description") [])
          error finished
    | some text ↦ follow origin callback provider text
  ]

  -- `runSocial`
  unfoldable pub run_social_script : Text → Provider → Script
  run_social_script origin provider = elim (endpoint_by_id (lit "social-authorize")) [
    | none ↦ finished
    | some authorize ↦ elim (endpoint_by_id (lit "social-callback")) [
      | none ↦ finished
      | some callback ↦ emit (Event.mode bearer) (
          say (p.message (lit "oauth_started") [])
            (p.message (lit "oauth_started_description")
              ((lit "provider", provider_text provider) ∷ []))
            neutral
            (ask (quiet authorize (some (social_start provider)) none bearer)
              (after_authorize origin callback provider)))
    ]
  ]

  unfoldable pub script : Text → AuthMode → Scenario → Script
  script origin page_mode (demo_login name) = demo_login_script page_mode name
  script origin page_mode prepare_sessions = prepare_sessions_script
  script origin page_mode use_demo_api_key = use_demo_api_key_script
  script origin page_mode (run_social provider) = run_social_script origin provider

-- What a script does, given the answers to its requests in order; it waits where they end.
pub data Deed : Type 0 where
  did : Event → Deed
  went : Text → Deed
  asked : RunRequestOptions → Deed

unfoldable pub play : Script → List (Option ApiResult) → List Deed
play finished answers = []
play failed answers = []
play (emit event rest) answers = did event ∷ play rest answers
play (navigate id rest) answers = went id ∷ play rest answers
play (ask options rest) [] = asked options ∷ []
play (ask options rest) (answer ∷ answers) = asked options ∷ play (rest answer) answers
