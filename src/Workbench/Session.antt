-- ===== src/Workbench/Session.antt =====
-- The events of a page, and what each does to the state of `WorkbenchProvider`: the callbacks that the
-- components call, the ends of requests and probes, timeouts, and the effects of mounting.
use dotnet_web_api_startpack.Prelude.{
  ℕ, Text, List, [], ◌∷◌, Bool, none, some, ◌==◌, find?, reverse, if◌then◌else◌,
}
use dotnet_web_api_startpack.Types.{AuthMode, ApiResult, Tone, ServiceStatus, healthy, unhealthy}
use dotnet_web_api_startpack.Platform.{Platform}
use dotnet_web_api_startpack.Template.{is_empty}
use dotnet_web_api_startpack.Fetch.{Exit, success, interrupted, ProbeResult}
use dotnet_web_api_startpack.Vault.{StoredVault, merge_stored}
use dotnet_web_api_startpack.Vault.Variables.{VariableName, totp_code}
use dotnet_web_api_startpack.Workbench.State.{
  Workbench, RunRequestOptions, Closure, Flight, Services, initial_services, dismiss_toast,
  push_toast, fire_timer, set_variable, set_auth_mode, clear_vault,
}
use dotnet_web_api_startpack.Workbench.Request.{start_request, finish_request}

pub data ServiceName : Type 0 where
  live ready openapi : ServiceName

-- A request ends in the way that the network gives; one that was aborted ends interrupted.
pub data Event : Type 0 where
  toast : (title description : Text) → Tone → Event
  dismiss timer : ℕ → Event
  variable : VariableName → Text → Event
  mode : AuthMode → Event
  clear clear_response : Event
  api_base : Text → Event
  start : Closure → RunRequestOptions → (cookies : Text) → Event
  finish : (controller : ℕ) → Exit ApiResult → (cookies : Text) → Event
  check_services : Event
  probed : ServiceName → Exit ProbeResult → Event
  restored : StoredVault → Event
  totp : Text → Event

-- `value.replace(/\/+$/, "")`: the slashes at the end are dropped; on the reversed text.
abbrev pub drop_slashes : Text → Text
drop_slashes [] = []
drop_slashes (c ∷ s) = let rest = drop_slashes s in if c == b'/' then rest else c ∷ s

unfoldable pub trim_slashes : Text → Text
trim_slashes value = reverse (drop_slashes (reverse value))

-- The status that a probe's end gives.
abbrev pub probe_status : Exit ProbeResult → ServiceStatus
probe_status (success result) = record { state = healthy; operation_count = result.operation_count }
probe_status _ = record { state = unhealthy; operation_count = none }

abbrev pub set_service : ServiceName → ServiceStatus → Services → Services
set_service live status services = record services { live = status }
set_service ready status services = record services { ready = status }
set_service openapi status services = record services { openapi = status }

abbrev pub is_controller : ℕ → Flight → Bool
is_controller k flight = flight.controller == k

-- How the flight ends, given what the network says.
abbrev pub flight_exit : Flight → Exit ApiResult → Exit ApiResult
flight_exit flight exit = if flight.aborted then interrupted else exit

module _ ⦃p : Platform⦄ where
  unfoldable pub finish_flight : ℕ → Exit ApiResult → Text → Workbench → Workbench
  finish_flight controller exit cookies w = elim (find? (is_controller controller) w.in_flight) [
    | none ↦ w
    | some flight ↦ finish_request flight (flight_exit flight exit) cookies w
  ]

  unfoldable pub act : Event → Workbench → Workbench
  act (toast title description tone) w = push_toast title description tone w
  act (dismiss id) w = dismiss_toast id w
  act (timer id) w = fire_timer id w
  act (variable name value) w = set_variable name value w
  act (mode m) w = set_auth_mode m w
  act clear w = clear_vault w
  act clear_response w = record w { response = none }
  act (api_base value) w = record w { api_base = trim_slashes value }
  act (start closure options cookies) w = (start_request closure options cookies w).0
  act (finish controller exit cookies) w = finish_flight controller exit cookies w
  act check_services w = if is_empty w.api_base then w else record w { services = initial_services }
  act (probed name exit) w = record w { services = set_service name (probe_status exit) w.services }
  act (restored vault) w = record w {
    auth_mode = vault.mode;
    variables = merge_stored vault w.variables;
  }
  act (totp code) w = set_variable totp_code code w

  abbrev pub run : List Event → Workbench → Workbench
  run [] w = w
  run (e ∷ es) w = run es (act e w)
