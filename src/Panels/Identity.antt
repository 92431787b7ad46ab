-- ===== src/Panels/Identity.antt =====
-- The vault, the scenarios, the fixtures and the services of
-- playground-ui/src/features/workbench/identity-panel.tsx.
use dotnet_web_api_startpack.Prelude.{
  suc, Text, lit, List, [], ◌∷◌, ◌++◌, Bool, not, none, some, if◌then◌else◌,
}
use dotnet_web_api_startpack.Types.{
  WorkbenchVariables, AuthMode, bearer, cookie, api_key, ServiceStatus, checking, healthy,
  unhealthy,
}
use dotnet_web_api_startpack.Constants.{demo}
use dotnet_web_api_startpack.Platform.{Platform}
use dotnet_web_api_startpack.Template.{is_empty}
use dotnet_web_api_startpack.Vault.Variables.{VariableName}
use dotnet_web_api_startpack.Workbench.State.{Services}
use dotnet_web_api_startpack.Workbench.Session.{Event}
use dotnet_web_api_startpack.Search.{trim}
use dotnet_web_api_startpack.Scenarios.{
  Scenario, demo_login, prepare_sessions, use_demo_api_key, run_social, AccountName, Provider,
}
use dotnet_web_api_startpack.Browser.{decimal}
use dotnet_web_api_startpack.Panels.{Field, endpoint_page, address, Link, text}

-- A field of the vault, with the variable that it edits.
pub record VaultField : Type 0 where
  pub name : VariableName
  pub label : Text
  pub value : Text
  pub can_copy : Bool

-- What the panel does at an action of the user: a call of the provider, a text for the clipboard, a
-- scenario, or nothing.
pub data Effect : Type 0 where
  call : Event → Effect
  copy : Text → Effect
  start : Scenario → Effect
  nothing : Effect

pub data Action : Type 0 where
  choose_mode : AuthMode → Action
  edit : VariableName → Text → Action
  copy_value : Text → Action
  clear_vault : Action
  scenario : Scenario → Action

-- `ready`
unfoldable pub is_ready : AuthMode → WorkbenchVariables → Bool
is_ready cookie variables = not (is_empty variables.csrf_token)
is_ready api_key variables = not (is_empty variables.api_key)
is_ready bearer variables = not (is_empty variables.access_token)

-- The handlers of the panel.
unfoldable pub handle : Action → Effect
handle (choose_mode mode) = call (Event.mode mode)
handle (edit name value) = call (Event.variable name (trim value))
handle (copy_value value) = if is_empty value then nothing else copy value
handle clear_vault = call Event.clear
handle (scenario s) = start s

module _ ⦃p : Platform⦄ where
  abbrev ready_heading : AuthMode → Text
  ready_heading cookie = text (lit "vault_ready_cookie")
  ready_heading api_key = text (lit "vault_ready_api_key")
  ready_heading bearer = text (lit "vault_ready_bearer")

  abbrev pub vault_heading : AuthMode → WorkbenchVariables → Text
  vault_heading mode variables =
      if is_ready mode variables then ready_heading mode else text (lit "vault_idle")

  abbrev ready_note : AuthMode → Text
  ready_note cookie = text (lit "vault_ready_cookie_note")
  ready_note _ = text (lit "vault_ready_tab_note")

  abbrev idle_note : AuthMode → Text
  idle_note cookie = text (lit "vault_idle_cookie_note")
  idle_note _ = text (lit "vault_idle_note")

  abbrev pub vault_note : AuthMode → WorkbenchVariables → Text
  vault_note mode variables = if is_ready mode variables then ready_note mode else idle_note mode

  -- The items of the selection of the transport.
  abbrev pub mode_items : List (AuthMode × Text)
  mode_items =
      (bearer, text (lit "bearer"))
      ∷ (cookie, text (lit "cookie"))
      ∷ (api_key, text (lit "api_key"))
      ∷ []

  -- `VaultField`
  abbrev pub vault_field : VariableName → Text → Text → VaultField
  vault_field name label value = record {
    name = name;
    label = label;
    value = value;
    can_copy = not (is_empty value);
  }

  abbrev pub vault_fields : WorkbenchVariables → List VaultField
  vault_fields v =
      vault_field VariableName.access_token (text (lit "access_token")) v.access_token
      ∷ vault_field VariableName.refresh_token (text (lit "refresh_token")) v.refresh_token
      ∷ vault_field VariableName.api_key (text (lit "api_key")) v.api_key
      ∷ vault_field VariableName.csrf_token (text (lit "csrf_token")) v.csrf_token
      ∷ []

  -- The buttons of the scenarios.
  abbrev pub scenario_buttons : List (Text × Scenario)
  scenario_buttons =
      (text (lit "login_admin"), demo_login AccountName.admin)
      ∷ (text (lit "login_user"), demo_login AccountName.user)
      ∷ (text (lit "prepare_sessions"), prepare_sessions)
      ∷ (text (lit "use_demo_api_key"), use_demo_api_key)
      ∷ (lit "Google", run_social Provider.google)
      ∷ (lit "GitHub", run_social Provider.github)
      ∷ []

  -- The fixtures, each of which has a button that copies it.
  abbrev pub fixtures : List Field
  fixtures =
      record { label = text (lit "admin_user_id"); value = demo.admin.id }
      ∷ record { label = text (lit "regular_user_id"); value = demo.user.id }
      ∷ record { label = text (lit "admin_role_id"); value = demo.admin_role_id }
      ∷ record { label = text (lit "session_id"); value = demo.session_id }
      ∷ record { label = text (lit "api_key_id"); value = demo.api_key_id }
      ∷ []

  -- `serviceLabel`
  unfoldable pub service_label : ServiceStatus → Text
  service_label status = elim status.state [
    | checking ↦ text (lit "checking")
    | unhealthy ↦ text (lit "unreachable")
    | healthy ↦ elim status.operation_count [
      | none ↦ text (lit "healthy")
      | some count ↦
          p.message (lit "operations_ready") ((lit "count", decimal (suc count) count) ∷ [])
    ]
  ]

  abbrev service_text : Text → ServiceStatus → Text
  service_text key status = text key ++ (lit " · " ++ service_label status)

  -- The links of the services.
  abbrev pub service_links : Text → Services → List Link
  service_links api_base services =
      record {
        label = service_text (lit "liveness") services.live;
        target = endpoint_page (lit "health-live");
      }
      ∷ record {
        label = service_text (lit "readiness") services.ready;
        target = endpoint_page (lit "health-ready");
      }
      ∷ record {
        label = service_text (lit "openapi_coverage") services.openapi;
        target = address (api_base ++ lit "/openapi/v1.json");
      }
      ∷ []
