-- ===== src/Scenarios/Rest/Settled.antt =====
-- Scripts of workbench-screen.tsx come to their end, and leave the page at rest.
use dotnet_web_api_startpack.Prelude.{
  ℕ, zero, suc, ◌≤◌, Text, List, [], ◌∷◌, arith, All, Option-cases, inl, inr, length,
}
use dotnet_web_api_startpack.Platform.{Platform}
use dotnet_web_api_startpack.Workbench.State.{Workbench, Closure}
use dotnet_web_api_startpack.Workbench.Request.{start_request}
use dotnet_web_api_startpack.Workbench.Session.{Event, act, finish_flight, flight_exit}
use dotnet_web_api_startpack.Workbench.Flights.Steps.{run-IsFlying}
use dotnet_web_api_startpack.Scenarios.{Script, Scenario, script}
use dotnet_web_api_startpack.Scenarios.Bounded.{IsBounded, script-IsBounded}
use dotnet_web_api_startpack.Scenarios.Performance.{Reply, answer, perform}
-- No request waits, and the page is not marked as running.
use dotnet_web_api_startpack.Scenarios.Rest.{
  IsAtRest, IsSettled, AreStill, IsAtRest-IsFlying, IsAtRest-same, act-still, run-still,
  IsAlone-same, IsAlone-found, finish-IsAtRest, started, during, start-none, start-IsAlone,
}

module _ ⦃p : Platform⦄ where
  -- On a page at rest, a script that asks for at most so many requests, and is given the replies of so
  -- many, comes to its end with the page at rest again, or to an exception with no request waiting, if
  -- no other request is started meanwhile.
  pub perform-IsSettled :
      (closure : Closure) (n : ℕ) (s : Script) (replies : List Reply) (w : Workbench)
      → IsBounded n s
      → n ≤ length replies
      → All (λ (r : Reply). AreStill r.meanwhile) replies
      → IsAtRest w
      → IsSettled (perform closure s replies w).finish (perform closure s replies w).workbench
  unfolding perform IsBounded start_request act
  perform-IsSettled closure n Script.finished replies w b enough still r = r
  perform-IsSettled closure n Script.failed replies w b enough still r = r.in_flight
  perform-IsSettled closure n (Script.emit event rest) replies w b enough still r =
      perform-IsSettled closure n rest replies (act event w) b.1 enough still
        (IsAtRest-same (act-still event w b.0) r)
  perform-IsSettled closure n (Script.navigate id rest) replies w b enough still r =
      perform-IsSettled closure n rest replies w b enough still r
  perform-IsSettled closure zero (Script.ask options rest) replies w b enough still r = absurd b
  perform-IsSettled closure (suc n) (Script.ask options rest) [] w b enough still r =
      absurd (omega arith)
  perform-IsSettled closure (suc n) (Script.ask options rest) (reply ∷ replies) w b enough still r =
      let k = w.next_controller in
      let w1 = during closure options reply w in
      elim (Option-cases (start_request closure options reply.before w).1) [
        | inl e ↦ rw (e, perform, IsSettled) (start-none closure options reply w r e)
        | inr (request, e) ↦
            let a =
              IsAlone-same (run-still reply.meanwhile (started closure options reply w) still.0)
                (start-IsAlone closure options reply w r e) in
            let v =
              run-IsFlying (Event.start closure options reply.before ∷ reply.meanwhile) w
                (IsAtRest-IsFlying w r) in
            let rest' = finish-IsAtRest k reply w1 a v in
            let exit = flight_exit a.flight reply.exit in
            elim (Option-cases (answer a.flight exit reply.after w1)) [
              | inl e' ↦ rw (e, IsAlone-found a, e', perform, IsSettled) rest'.in_flight
              | inr (given, e') ↦
                  rw (e, IsAlone-found a, e', perform, IsSettled)
                    (perform-IsSettled closure n (rest given) replies
                      (finish_flight k reply.exit reply.after w1) (b given) (omega arith) still.1
                      rest')
            ]
      ]

  -- A scenario that is set off on a page at rest comes to an end after at most two requests, if the
  -- network answers these, whatever it says, and if no other request is started on the page while the
  -- scenario waits: at the end the page is at rest again, at an exception no request waits.
  pub script-IsSettled :
      (closure : Closure) (origin : Text) (scenario : Scenario) (replies : List Reply)
      (w : Workbench)
      → 2 ≤ length replies
      → All (λ (r : Reply). AreStill r.meanwhile) replies
      → IsAtRest w
      → IsSettled
          (perform closure (script origin closure.auth_mode scenario) replies w).finish
          (perform closure (script origin closure.auth_mode scenario) replies w).workbench
  script-IsSettled closure origin scenario replies w enough still r =
      perform-IsSettled closure 2 (script origin closure.auth_mode scenario) replies w
        (script-IsBounded origin closure.auth_mode scenario) enough still r
