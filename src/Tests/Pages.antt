-- ===== src/Tests/Pages.antt =====
-- The page's state of workbench-context.tsx, in small runs.
use dotnet_web_api_startpack.Prelude.{
  lit, List, [], ◌∷◌, true, false, none, some, ◌≡◌, refl, arith, All, text_eq, lookup, starts_with,
}
use dotnet_web_api_startpack.Types.{neutral, error}
use dotnet_web_api_startpack.Fetch.{success, failure}
use dotnet_web_api_startpack.Uri.{
  encode_component, encode_points, encode_point, code_points_from, is_unreserved,
}
use dotnet_web_api_startpack.Address.{
  build_path_from_definition, build_path, fill_path, parameter_value,
}
use dotnet_web_api_startpack.Template.{
  is_word, word, template_name, replacement, replace_from, resolve_template_string, create_draft,
}
use dotnet_web_api_startpack.Workbench.State.{Workbench, Flight}
use dotnet_web_api_startpack.Workbench.Request.{request_input, start_request}
use dotnet_web_api_startpack.Workbench.Session.{Event, run, finish_flight}
use dotnet_web_api_startpack.Workbench.Toasts.{HasOrderedToasts}
use dotnet_web_api_startpack.Workbench.Toasts.Steps.{run-HasOrderedToasts, initial-HasOrderedToasts}
use dotnet_web_api_startpack.Workbench.Flights.{IsFlying}
use dotnet_web_api_startpack.Workbench.Flights.Steps.{run-IsFlying, initial-IsFlying}
use dotnet_web_api_startpack.Workbench.Flights.Stale.{
  IsAborted, finish_flight-aborted, start_request-stuck,
}
use dotnet_web_api_startpack.Tests.Samples.{
  platform, page, storage, closure, broken_closure, options, sample_result,
}

-- Two requests, the second of which takes the place of the first; then both end.
abbrev two_requests : List Event
two_requests =
    Event.start closure options (lit "a=1")
    ∷ Event.start closure options (lit "a=1")
    ∷ Event.finish 0 (failure (lit "offline")) []
    ∷ Event.finish 1 (failure (lit "offline")) []
    ∷ []

run-IsFlying_example : IsFlying (run ⦃p = platform⦄ two_requests page)
run-IsFlying_example = run-IsFlying ⦃p = platform⦄ two_requests page (initial-IsFlying storage)

-- A toast that goes by its timeout, and one that stays.
abbrev two_toasts : List Event
two_toasts =
    Event.toast (lit "copied") [] neutral
    ∷ Event.toast (lit "failed") [] error
    ∷ Event.timer 1
    ∷ Event.timer 2
    ∷ []

run-HasOrderedToasts_example : HasOrderedToasts (run ⦃p = platform⦄ two_toasts page)
run-HasOrderedToasts_example =
    run-HasOrderedToasts ⦃p = platform⦄ two_toasts page (initial-HasOrderedToasts storage)

abbrev first_flight : Flight
first_flight = record { controller = 0; aborted = true; options = options; closure = closure }

abbrev second_flight : Flight
second_flight = record { controller = 1; aborted = false; options = options; closure = closure }

abbrev waiting : Workbench
waiting = record page {
  in_flight = second_flight ∷ first_flight ∷ [];
  abort = some 1;
  next_controller = 2;
  is_running = true;
}

waiting-IsFlying : IsFlying waiting
waiting-IsFlying = record {
  flights = record {
    tracked = ground arith;
    distinct = ground arith;
    fresh = ground arith;
    below = ground arith;
  };
  running = refl;
}

finish_flight-aborted_example :
    finish_flight ⦃p = platform⦄ 0 (success sample_result) [] waiting
    ≡ record waiting { in_flight = second_flight ∷ [] }
finish_flight-aborted_example =
    finish_flight-aborted ⦃p = platform⦄ 0 (success sample_result) [] waiting first_flight
      waiting-IsFlying refl refl

start_request-stuck_example :
    ((start_request ⦃p = platform⦄ broken_closure options [] page).1 ≡ none)
    × ((start_request ⦃p = platform⦄ broken_closure options [] page).0.is_running ≡ true)
    × All IsAborted (start_request ⦃p = platform⦄ broken_closure options [] page).0.in_flight
unfolding request_input build_path_from_definition build_path fill_path parameter_value create_draft
    lookup text_eq resolve_template_string replace_from template_name word is_word starts_with
    replacement encode_component encode_points encode_point code_points_from is_unreserved
start_request-stuck_example =
    start_request-stuck ⦃p = platform⦄ broken_closure options [] page (initial-IsFlying storage)
      refl
