-- ===== src/Scenarios/Performance.antt =====
-- A script of workbench-screen.tsx at work on the state of the provider: its calls act on the page, its
-- requests are those of `runRequest`, and other events happen while it waits.
use dotnet_web_api_startpack.Prelude.{Text, List, [], ◌∷◌, Option, none, some, find?}
use dotnet_web_api_startpack.Types.{ApiResult}
use dotnet_web_api_startpack.Platform.{Platform}
use dotnet_web_api_startpack.Fetch.{Exit, success, failure, interrupted}
use dotnet_web_api_startpack.Workbench.State.{Workbench, Closure, Flight}
use dotnet_web_api_startpack.Workbench.Capture.{Captured, noticed, thrown, capture_response_data}
use dotnet_web_api_startpack.Workbench.Request.{start_request, release, land}
use dotnet_web_api_startpack.Workbench.Session.{
  Event, act, run, finish_flight, flight_exit, is_controller,
}
use dotnet_web_api_startpack.Scenarios.{Script}

-- How a request goes that a script waits for: the cookies before and after it, what happens on the page
-- meanwhile, and its end.
pub record Reply : Type 0 where
  pub before : Text
  pub meanwhile : List Event
  pub exit : Exit ApiResult
  pub after : Text

-- How far a script has come: to its end, to an exception, or to a request without a reply.
pub data Finish : Type 0 where
  done threw waiting : Finish

-- The page, the endpoints to which the script has navigated.
pub record Performance : Type 0 where
  pub workbench : Workbench
  pub visits : List Text
  pub finish : Finish

abbrev pub stop : Finish → Workbench → Performance
stop finish w = record { workbench = w; visits = []; finish = finish }

abbrev pub after_visit : Text → Performance → Performance
after_visit id r = record r { visits = id ∷ r.visits }

module _ ⦃p : Platform⦄ where
  abbrev pub captured_answer : ApiResult → Captured → Option (Option ApiResult)
  captured_answer result (noticed notice) = some (some result)
  captured_answer result thrown = none

  -- What the promise of `runRequest` gives to its caller; `none` is an exception.
  unfoldable pub answer : Flight → Exit ApiResult → Text → Workbench → Option (Option ApiResult)
  answer flight exit cookies w = elim exit [
    | interrupted ↦ some none
    | failure reason ↦ some none
    | success result ↦
        captured_answer result
          (capture_response_data flight.closure flight.options.endpoint result cookies
            (release flight.controller (land flight.controller w))).1
  ]

  -- All requests of a script are made by the `runRequest` of the render that set it off.
  unfoldable pub perform : Closure → Script → List Reply → Workbench → Performance
  perform closure Script.finished replies w = stop done w
  perform closure Script.failed replies w = stop threw w
  perform closure (Script.emit event rest) replies w = perform closure rest replies (act event w)
  perform closure (Script.navigate id rest) replies w =
      after_visit id (perform closure rest replies w)
  perform closure (Script.ask options rest) [] w = stop waiting w
  perform closure (Script.ask options rest) (reply ∷ replies) w =
      let started = start_request closure options reply.before w in
      let w1 = run reply.meanwhile started.0 in
      elim started.1 [
        | none ↦ stop threw started.0
        | some request ↦ elim (find? (is_controller w.next_controller) w1.in_flight) [
          | none ↦ stop waiting w1
          | some flight ↦
              let w2 = finish_flight w.next_controller reply.exit reply.after w1 in
              elim (answer flight (flight_exit flight reply.exit) reply.after w1) [
                | none ↦ stop threw w2
                | some given ↦ perform closure (rest given) replies w2
              ]
        ]
      ]
