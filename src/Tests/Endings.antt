-- ===== src/Tests/Endings.antt =====
-- Requests and scenarios that come to their end, in small runs.
use dotnet_web_api_startpack.Prelude.{lit, List, [], ◌∷◌, false, some, ◌≡◌, refl, arith}
use dotnet_web_api_startpack.Types.{AuthMode}
use dotnet_web_api_startpack.Fetch.{success, failure}
use dotnet_web_api_startpack.Workbench.State.{Closure, RunRequestOptions, initial}
use dotnet_web_api_startpack.Workbench.Request.{request_input, start_request}
use dotnet_web_api_startpack.Workbench.Session.{Event, act, run}
use dotnet_web_api_startpack.Headers.{build_headers, add_csrf}
use dotnet_web_api_startpack.Workbench.Clock.{
  Tick, change, render, tick, computed, codes_set, no_clock,
}
use dotnet_web_api_startpack.Workbench.Clock.Fresh.{AreCurrent, codes_set-no_clock}
use dotnet_web_api_startpack.Workbench.Unmount.{SameTraces, unmount, ends-unmount}
use dotnet_web_api_startpack.Workbench.Flights.Steps.{run-IsFlying, initial-IsFlying}
use dotnet_web_api_startpack.Workbench.Flights.Endings.{Ending, ends}
use dotnet_web_api_startpack.Workbench.Flights.Awaited.{run-initial_idle}
use dotnet_web_api_startpack.Scenarios.{Scenario, script}
use dotnet_web_api_startpack.Scenarios.Performance.{Reply, perform}
use dotnet_web_api_startpack.Scenarios.Rest.{IsSettled}
use dotnet_web_api_startpack.Scenarios.Rest.Settled.{script-IsSettled}
use dotnet_web_api_startpack.Tests.Samples.{
  platform, page, storage, closure, options, sample_result,
}

-- Two requests that can be built: the path of each is given, and neither needs a cookie.
abbrev plain_options : RunRequestOptions
plain_options = record options { path = some (lit "/api/items") }

abbrev starts : List Event
starts =
    Event.start closure plain_options (lit "a=1")
    ∷ Event.start closure plain_options (lit "a=1")
    ∷ []

abbrev both_end : List Ending
both_end =
    record { controller = 1; exit = success sample_result; cookies = [] }
    ∷ record { controller = 0; exit = failure (lit "offline"); cookies = [] }
    ∷ []

run-initial_idle_example :
    ((run ⦃p = platform⦄ (ends both_end) (run ⦃p = platform⦄ starts (initial storage))).in_flight
      ≡ [])
    × ((run ⦃p = platform⦄ (ends both_end) (run ⦃p = platform⦄ starts (initial storage))).is_running
        ≡ false)
unfolding act start_request request_input build_headers add_csrf
run-initial_idle_example =
    run-initial_idle ⦃p = platform⦄ storage starts both_end (refl, (refl, tt)) (refl, (refl, tt))

ends-unmount_example :
    SameTraces
      (run ⦃p = platform⦄ starts page)
      (run ⦃p = platform⦄ (ends both_end) (unmount (run ⦃p = platform⦄ starts page)))
ends-unmount_example =
    ends-unmount ⦃p = platform⦄ both_end (run ⦃p = platform⦄ starts page)
      (run-IsFlying ⦃p = platform⦄ starts page (initial-IsFlying storage))

abbrev pub reply : Reply
reply = record {
  before = lit "a=1";
  meanwhile = Event.dismiss 1 ∷ [];
  exit = success sample_result;
  after = [];
}

abbrev bearer_page : Closure
bearer_page = record closure { auth_mode = AuthMode.bearer }

script-IsSettled_example :
    IsSettled
      (perform ⦃p = platform⦄ bearer_page
        (script ⦃p = platform⦄ [] AuthMode.bearer Scenario.prepare_sessions)
        (reply ∷ reply ∷ [])
        page).finish
      (perform ⦃p = platform⦄ bearer_page
        (script ⦃p = platform⦄ [] AuthMode.bearer Scenario.prepare_sessions)
        (reply ∷ reply ∷ [])
        page).workbench
script-IsSettled_example =
    script-IsSettled ⦃p = platform⦄ bearer_page [] Scenario.prepare_sessions (reply ∷ reply ∷ [])
      page (omega arith) ((refl, tt), ((refl, tt), tt))
      (record { in_flight = refl; abort = refl; is_running = refl })

-- A code for the first secret is computed when the second is already there.
abbrev two_secrets : List Tick
two_secrets =
    change (lit "ME")
    ∷ render
    ∷ change (lit "MF")
    ∷ render
    ∷ tick
    ∷ computed 2 (some (lit "000001"))
    ∷ computed 1 (some (lit "000002"))
    ∷ []

codes_set-no_clock_example : AreCurrent (codes_set two_secrets no_clock)
codes_set-no_clock_example = codes_set-no_clock two_secrets
