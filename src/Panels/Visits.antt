-- ===== src/Panels/Visits.antt =====
-- The pages that are open after a scenario or a passkey flow has navigated.
use dotnet_web_api_startpack.Prelude.{Text, List, [], ◌∷◌, All, Option-cases, inl, inr, find?}
use dotnet_web_api_startpack.Types.{EndpointDefinition}
use dotnet_web_api_startpack.Platform.{Platform}
use dotnet_web_api_startpack.Workbench.State.{Workbench, Closure}
use dotnet_web_api_startpack.Workbench.Request.{start_request}
use dotnet_web_api_startpack.Workbench.Session.{act, run, finish_flight, flight_exit, is_controller}
use dotnet_web_api_startpack.Scenarios.{Script, Scenario, script}
use dotnet_web_api_startpack.Scenarios.Performance.{Reply, answer, perform}
use dotnet_web_api_startpack.Browser.Passkey.{Authenticator}
use dotnet_web_api_startpack.Guided.{Flow, passkey_script}
use dotnet_web_api_startpack.Panels.Screen.{Location}
use dotnet_web_api_startpack.Panels.Links.{IsOpened, IsLinked, script-IsLinked, passkey-IsLinked}

module _ ⦃p : Platform⦄ (location : Location) where
  visits-IsOpened :
      (closure : Closure) (s : Script) (replies : List Reply) (w : Workbench)
      → IsLinked location s
      → All (IsOpened location) (perform closure s replies w).visits
  unfolding perform IsLinked
  visits-IsOpened closure Script.finished replies w h = tt
  visits-IsOpened closure Script.failed replies w h = tt
  visits-IsOpened closure (Script.emit event rest) replies w h =
      visits-IsOpened closure rest replies (act event w) h
  visits-IsOpened closure (Script.navigate id rest) replies w h =
      (h.0, visits-IsOpened closure rest replies w h.1)
  visits-IsOpened closure (Script.ask options rest) [] w h = tt
  visits-IsOpened closure (Script.ask options rest) (reply ∷ replies) w h =
      let started = start_request closure options reply.before w in
      let w1 = run reply.meanwhile started.0 in
      let k = w.next_controller in
      elim (Option-cases started.1) [
        | inl e ↦ rw (e, perform) tt
        | inr (request, e) ↦ elim (Option-cases (find? (is_controller k) w1.in_flight)) [
          | inl e' ↦ rw (e, e', perform) tt
          | inr (flight, e') ↦
              elim (Option-cases (answer flight (flight_exit flight reply.exit) reply.after w1)) [
                | inl e'' ↦ rw (e, e', e'', perform) tt
                | inr (given, e'') ↦
                    rw (e, e', e'', perform)
                      (visits-IsOpened closure (rest given) replies
                        (finish_flight k reply.exit reply.after w1) (h given))
              ]
        ]
      ]

  -- Wherever a scenario or a passkey flow navigates, whatever the network answers and whatever happens
  -- meanwhile, an endpoint's page opens, and never the page of an address that is not found.
  pub script-IsOpened :
      (closure : Closure) (origin : Text) (scenario : Scenario) (a : Authenticator) (flow : Flow)
      (endpoint : EndpointDefinition) (replies : List Reply) (w : Workbench)
      → All
          (IsOpened location)
          (perform closure (script origin closure.auth_mode scenario) replies w).visits
        × All
            (IsOpened location)
            (perform closure (passkey_script a flow endpoint) replies w).visits
  script-IsOpened closure origin scenario a flow endpoint replies w = (
    visits-IsOpened closure (script origin closure.auth_mode scenario) replies w
        (script-IsLinked location origin closure.auth_mode scenario),
    visits-IsOpened closure (passkey_script a flow endpoint) replies w
        (passkey-IsLinked location a flow endpoint),
  )
