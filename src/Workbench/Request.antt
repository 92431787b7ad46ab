-- ===== src/Workbench/Request.antt =====
-- `runRequest` of workbench-context.tsx, in two parts: what it does until it waits for the network, and
-- what it does when the request has ended.
use dotnet_web_api_startpack.Prelude.{
  ℕ, suc, Text, lit, List, [], ◌∷◌, map, true, false, not, Option, none, some, ◌>>=◌, or_else, ◌==◌,
  filter, set_key, if◌then◌else◌,
}
use dotnet_web_api_startpack.Types.{ApiResult, error}
use dotnet_web_api_startpack.Platform.{Platform}
use dotnet_web_api_startpack.Address.{build_path_from_definition}
use dotnet_web_api_startpack.Headers.{build_headers}
use dotnet_web_api_startpack.Fetch.{
  ApiRequestInput, FetchRequest, fetch_request, Exit, success, failure, interrupted,
}
use dotnet_web_api_startpack.Workbench.State.{
  Workbench, RunRequestOptions, Closure, Flight, push_toast,
}
use dotnet_web_api_startpack.Workbench.Capture.{Captured, noticed, thrown, capture_response_data}

-- `abortRef.current?.abort()`
abbrev pub abort_flight : Option ℕ → Flight → Flight
abort_flight none flight = flight
abort_flight (some k) flight = record flight {
  aborted = if flight.controller == k then true else flight.aborted;
}

-- `{ ...headers, ...options.headers }`
abbrev pub merge_headers : List (Text × Text) → List (Text × Text) → List (Text × Text)
merge_headers headers [] = headers
merge_headers headers ((name, value) ∷ rest) = merge_headers (set_key name value headers) rest

-- The state in which the request is built: the one before is aborted, a new controller is current.
abbrev pub begin_request : Workbench → Workbench
begin_request w = record w {
  in_flight = map (abort_flight w.abort) w.in_flight;
  abort = some w.next_controller;
  next_controller = suc w.next_controller;
  is_running = true;
}

abbrev pub add_flight : Closure → RunRequestOptions → ℕ → Workbench → Workbench
add_flight closure options controller w = record w {
  in_flight =
      record { controller = controller; aborted = false; options = options; closure = closure }
      ∷ w.in_flight;
}

-- The controller is cleared if it is still the current one.
abbrev pub release : ℕ → Workbench → Workbench
release controller w = elim w.abort [
  | none ↦ w
  | some k ↦ if k == controller then record w { abort = none; is_running = false } else w
]

abbrev pub land : ℕ → Workbench → Workbench
land controller w = record w {
  in_flight = filter (λ (f : Flight). not (f.controller == controller)) w.in_flight;
}

abbrev pub show : Flight → ApiResult → Option Text → Workbench → Workbench
show flight result notice w =
    if flight.options.display
    then record w {
      response =
          some
            (record { result = result; endpoint_id = flight.options.endpoint.id; notice = notice });
    }
    else w

abbrev pub settle : Flight → ApiResult → Workbench × Captured → Workbench
settle flight result (w, noticed notice) = show flight result notice w
settle flight result (w, thrown) = w

module _ ⦃p : Platform⦄ where
  -- The argument of `requestEndpoint`; `none` is an exception of the functions that build it.
  unfoldable pub request_input : Closure → RunRequestOptions → Text → Option ApiRequestInput
  request_input closure options cookies =
      let mode = or_else options.auth_mode closure.auth_mode in
      let path : Option Text = elim options.path [
        | some path ↦ some path
        | none ↦ build_path_from_definition closure.variables options.endpoint
      ] in
      do
        target ← path
        headers ← build_headers options.endpoint mode closure.variables cookies
        some (record {
          api_base = closure.api_base;
          endpoint = options.endpoint;
          path = target;
          body = options.body;
          headers = merge_headers headers options.headers;
          auth_mode = mode;
        })

  -- `runRequest` up to its `await`; `none` is the exception with which its promise is rejected.
  unfoldable pub start_request :
      Closure → RunRequestOptions → Text → Workbench → Workbench × Option FetchRequest
  start_request closure options cookies w = elim (request_input closure options cookies) [
    | none ↦ (begin_request w, none)
    | some input ↦
        (add_flight closure options w.next_controller (begin_request w), some (fetch_request input))
  ]

  abbrev pub report : Flight → Text → Workbench → Workbench
  report flight reason w =
      if flight.options.report_error
      then push_toast (p.message (lit "request_failed") [])
          (p.message (lit "request_failed_description") ((lit "reason", reason) ∷ [])) error w
      else w

  -- `runRequest` from its `await` on.
  unfoldable pub finish_request : Flight → Exit ApiResult → Text → Workbench → Workbench
  finish_request flight exit cookies w =
      let released = release flight.controller (land flight.controller w) in
      elim exit [
        | interrupted ↦ released
        | failure reason ↦ report flight reason released
        | success result ↦
            settle flight result
              (capture_response_data flight.closure flight.options.endpoint result cookies released)
      ]
