-- ===== src/Workbench/State.antt =====
-- The state of `WorkbenchProvider`, and the callbacks that change it at once.
use dotnet_web_api_startpack.Prelude.{
  ℕ, suc, Text, lit, List, [], ◌∷◌, ◌++◌, Bool, true, false, not, Option, none, some, or_else, ◌==◌,
  filter, if◌then◌else◌,
}
use dotnet_web_api_startpack.Json.{Json}
use dotnet_web_api_startpack.Types.{
  WorkbenchVariables, EndpointDefinition, AuthMode, bearer, ApiResult, ToastMessage, Tone, neutral,
  error, ServiceStatus, checking,
}
use dotnet_web_api_startpack.Constants.{StorageName, empty_variables}
use dotnet_web_api_startpack.Platform.{Platform}
use dotnet_web_api_startpack.Vault.{Storage, write_vault_value, clear_vault_storage}
use dotnet_web_api_startpack.Vault.Variables.{VariableName, with_variable, storage_name}

-- `WorkbenchResponse`
pub record WorkbenchResponse : Type 0 where
  pub result : ApiResult
  pub endpoint_id : Text
  pub notice : Option Text

-- `RunRequestOptions`; `display` and `report_error` are false only where the source says `false`.
pub record RunRequestOptions : Type 0 where
  pub endpoint : EndpointDefinition
  pub path : Option Text
  pub body : Option Json
  pub headers : List (Text × Text)
  pub display : Bool
  pub report_error : Bool
  pub auth_mode : Option AuthMode

-- What a callback has captured from the render that made it.
pub record Closure : Type 0 where
  pub api_base : Text
  pub auth_mode : AuthMode
  pub variables : WorkbenchVariables

-- A request that `runRequest` waits for; `controller` names its AbortController.
pub record Flight : Type 0 where
  pub controller : ℕ
  pub aborted : Bool
  pub options : RunRequestOptions
  pub closure : Closure

pub record Services : Type 0 where
  pub live : ServiceStatus
  pub ready : ServiceStatus
  pub openapi : ServiceStatus

-- `abort` is `abortRef.current`, `toast_id` is `toastId.current`, `timers` are the toasts whose timeout
-- has not fired, `next_controller` is a name that no controller has yet.
pub record Workbench : Type 0 where
  pub api_base : Text
  pub auth_mode : AuthMode
  pub variables : WorkbenchVariables
  pub response : Option WorkbenchResponse
  pub is_running : Bool
  pub services : Services
  pub toasts : List ToastMessage
  pub abort : Option ℕ
  pub toast_id : ℕ
  pub timers : List ℕ
  pub in_flight : List Flight
  pub next_controller : ℕ
  pub storage : Storage

abbrev pub initial_status : ServiceStatus
initial_status = record { state = checking; operation_count = none }

-- `INITIAL_SERVICES`
abbrev pub initial_services : Services
initial_services = record {
  live = initial_status;
  ready = initial_status;
  openapi = initial_status;
}

abbrev pub initial : Storage → Workbench
initial storage = record {
  api_base = [];
  auth_mode = bearer;
  variables = empty_variables;
  response = none;
  is_running = false;
  services = initial_services;
  toasts = [];
  abort = none;
  toast_id = 0;
  timers = [];
  in_flight = [];
  next_controller = 0;
  storage = storage;
}

-- `dismissToast`
unfoldable pub dismiss_toast : ℕ → Workbench → Workbench
dismiss_toast id w = record w {
  toasts = filter (λ (toast : ToastMessage). not (toast.id == id)) w.toasts;
}

abbrev pub is_neutral : Tone → Bool
is_neutral neutral = true
is_neutral error = false

-- `pushToast`
unfoldable pub push_toast : (title description : Text) → Tone → Workbench → Workbench
push_toast title description tone w =
    let id = suc w.toast_id in
    let toast : ToastMessage = record {
      id = id;
      title = title;
      description = description;
      tone = tone;
    } in
    record w {
      toast_id = id;
      toasts = w.toasts ++ (toast ∷ []);
      timers = if is_neutral tone then id ∷ w.timers else w.timers;
    }

-- The timeout of a toast fires.
unfoldable pub fire_timer : ℕ → Workbench → Workbench
unfolding dismiss_toast
fire_timer id w =
    dismiss_toast id (record w { timers = filter (λ (t : ℕ). not (t == id)) w.timers })

-- A write to the storage whose failure is ignored.
abbrev pub try_write : StorageName → Text → Storage → Storage
try_write name value storage = or_else (write_vault_value name value storage) storage

abbrev pub persist : Option StorageName → Text → Storage → Storage
persist none value storage = storage
persist (some name) value storage = try_write name value storage

-- `setVariable`
unfoldable pub set_variable : VariableName → Text → Workbench → Workbench
set_variable name value w = record w {
  variables = with_variable name value w.variables;
  storage = persist (storage_name name) value w.storage;
}

-- The literal that a mode stands for.
abbrev pub mode_text : AuthMode → Text
mode_text bearer = lit "bearer"
mode_text AuthMode.cookie = lit "cookie"
mode_text AuthMode.api_key = lit "apiKey"

-- `setAuthMode`
unfoldable pub set_auth_mode : AuthMode → Workbench → Workbench
set_auth_mode mode w = record w {
  auth_mode = mode;
  storage = try_write StorageName.auth_mode (mode_text mode) w.storage;
}

-- `clearVault`
unfoldable pub clear_vault : ⦃p : Platform⦄ → Workbench → Workbench
clear_vault ⦃p⦄ w =
    push_toast (p.message (lit "vault_cleared") []) (p.message (lit "vault_cleared_description") [])
      neutral
      (record w {
        variables = empty_variables;
        storage = or_else (clear_vault_storage w.storage) w.storage;
      })
