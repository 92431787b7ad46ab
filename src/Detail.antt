-- ===== src/Detail.antt =====
-- The state of the endpoint panel, playground-ui/src/features/workbench/endpoint-detail.tsx, and its
-- handlers, with the guards of the buttons in endpoint-request-panel.tsx beside it.
pub mod Confirmation
pub mod Copy
pub mod Body
pub mod Tabs
use dotnet_web_api_startpack.Prelude.{
  ℕ, Text, lit, List, [], ◌∷◌, Bool, true, false, ◌&&◌, ◌||◌, not, Option, none, some, ◌>>=◌, ◌==◌,
  set_key, if◌then◌else◌,
}
use dotnet_web_api_startpack.Types.{EndpointDefinition, RequestDraft, PanelTab}
use dotnet_web_api_startpack.Platform.{Platform}
use dotnet_web_api_startpack.Template.{create_draft}
use dotnet_web_api_startpack.Address.{build_path}
use dotnet_web_api_startpack.Headers.{Headers, is_some, build_headers}
use dotnet_web_api_startpack.Curl.{create_curl}
use dotnet_web_api_startpack.Fetch.{ParsedBody, parsed, invalid_json, parse_request_body}
use dotnet_web_api_startpack.Workbench.State.{RunRequestOptions, Closure}

-- The states of the component; a response is known by a number, which stands for the object.
pub record Detail : Type 0 where
  pub draft : RequestDraft
  pub path_override : Option Text
  pub tab : PanelTab
  pub acknowledged : Option ℕ
  pub confirming : Bool

-- What a render has from outside: `result` is the response of this endpoint, `header_cookies` the
-- cookies when the memo of the headers was last computed.
pub record View : Type 0 where
  pub endpoint : EndpointDefinition
  pub closure : Closure
  pub header_cookies : Text
  pub result : Option ℕ
  pub is_running : Bool

-- What a handler does besides changing the state: nothing, the toast on invalid JSON, a request, or a
-- text for the clipboard.
pub data Outcome : Type 0 where
  idle refused : Outcome
  sent : RunRequestOptions → Outcome
  copied : Text → Outcome

pub data Action : Type 0 where
  path_value query_value : (name value : Text) → Action
  override body_text : Text → Action
  tab : PanelTab → Action
  press_send shortcut press_confirm cancel format copy_command : Action

abbrev pub is_result : ℕ → Option ℕ → Bool
is_result r none = false
is_result r (some k) = k == r

-- `activeTab`
unfoldable pub active_tab : Option ℕ → Detail → PanelTab
active_tab none d = d.tab
active_tab (some r) d = if is_result r d.acknowledged then d.tab else PanelTab.response

-- `chooseTab`
unfoldable pub choose_tab : Option ℕ → PanelTab → Detail → Detail
choose_tab result choice d = record d { tab = choice; acknowledged = result }

-- `setPathValue` and `setQueryValue`
unfoldable pub set_path_value : Text → Text → Detail → Detail
set_path_value name value d = record d {
  path_override = none;
  draft = record d.draft { path_values = set_key name value d.draft.path_values };
}

unfoldable pub set_query_value : Text → Text → Detail → Detail
set_query_value name value d = record d {
  path_override = none;
  draft = record d.draft { query_values = set_key name value d.draft.query_values };
}

-- Whether the button that sends is disabled.
abbrev pub cannot_send : (is_running confirming : Bool) → Bool
cannot_send is_running confirming = is_running || confirming

module _ ⦃p : Platform⦄ where
  abbrev pub initial_detail : View → Detail
  initial_detail view = record {
    draft = create_draft view.closure.variables view.endpoint;
    path_override = none;
    tab = PanelTab.request;
    acknowledged = none;
    confirming = false;
  }

  -- `requestPath` and `requestHeaders`; `none` is an exception of the render.
  unfoldable pub request_path : View → Detail → Option Text
  request_path view d = elim d.path_override [
    | some path ↦ some path
    | none ↦ build_path view.closure.variables view.endpoint d.draft
  ]

  abbrev pub request_headers : View → Option Headers
  request_headers view =
      build_headers view.endpoint view.closure.auth_mode view.closure.variables view.header_cookies

  -- `readBody`
  abbrev pub read_body : View → Detail → ParsedBody
  read_body view d = parse_request_body view.endpoint d.draft.body_text view.closure.variables

  -- `execute`
  unfoldable pub execute : View → Detail → Option (Detail × Outcome)
  execute view d = do
    path ← request_path view d
    elim (read_body view d) [
      | invalid_json ↦ some (record d { confirming = false }, refused)
      | parsed body ↦ some (
        record d { confirming = false },
        sent (record {
          endpoint = view.endpoint;
          path = some path;
          body = body;
          headers = [];
          display = true;
          report_error = true;
          auth_mode = none;
        }),
      )
    ]

  -- `attemptSend`
  unfoldable pub attempt_send : View → Detail → Option (Detail × Outcome)
  attempt_send view d =
      if view.endpoint.destructive && not d.confirming
      then some (record d { confirming = true }, idle)
      else execute view d

  -- `formatJson`. The updater that it hands to `setDraft` is run by the next render, so a SyntaxError
  -- there is an exception of the render, as `none` says, and not one of the `try` block.
  unfoldable pub format_json : Detail → Option Detail
  format_json d = do
    value ← p.json_parse d.draft.body_text
    some (record d { draft = record d.draft { body_text = p.json_indent value } })

  -- `copyCurl`
  unfoldable pub copy_curl : View → Detail → Option (Detail × Outcome)
  copy_curl view d = do
    path ← request_path view d
    headers ← request_headers view
    elim (read_body view d) [
      | invalid_json ↦ some (d, refused)
      | parsed body ↦ some (
        d,
        copied (
            create_curl (record {
              api_base = view.closure.api_base;
              endpoint = view.endpoint;
              path = path;
              body = body;
              headers = headers;
            })),
      )
    ]

  -- One action of the user. The button that sends is disabled while a request runs or a confirmation
  -- is open, the shortcut is not; the button that confirms is there while a confirmation is open, the
  -- one that formats where the endpoint has a body.
  unfoldable pub step : View → Action → Detail → Option (Detail × Outcome)
  step view (path_value name value) d = some (set_path_value name value d, idle)
  step view (query_value name value) d = some (set_query_value name value d, idle)
  step view (override path) d = some (record d { path_override = some path }, idle)
  step view (body_text text) d =
      some (record d { draft = record d.draft { body_text = text } }, idle)
  step view (tab choice) d = some (choose_tab view.result choice d, idle)
  step view press_send d =
      if cannot_send view.is_running d.confirming then some (d, idle) else attempt_send view d
  step view shortcut d = attempt_send view d
  step view press_confirm d =
      if view.endpoint.destructive && (d.confirming && not view.is_running)
      then execute view d
      else some (d, idle)
  step view cancel d = some (record d { confirming = false }, idle)
  step view format d =
      if is_some view.endpoint.body
      then (format_json d >>= λ d'. some (d', idle))
      else some (d, idle)
  step view copy_command d = copy_curl view d
