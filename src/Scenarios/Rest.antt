-- ===== src/Scenarios/Rest.antt =====
-- A scenario that starts on a page at rest leaves it at rest.
pub mod Settled
use dotnet_web_api_startpack.Prelude.{
  ℕ, zero, suc, ◌≤◌, Text, List, [], ◌∷◌, true, false, none, some, ◌≡◌, refl, sym, ap, ◌∙◌, arith,
  All, Bool-cases, Option-cases, inl, inr, ◌==◌, find?, length, filter,
}
use dotnet_web_api_startpack.Platform.{Platform}
use dotnet_web_api_startpack.Headers.{is_some}
use dotnet_web_api_startpack.Template.{is_empty}
use dotnet_web_api_startpack.Fetch.{FetchRequest}
use dotnet_web_api_startpack.Workbench.State.{
  Workbench, Closure, RunRequestOptions, Flight, set_variable, set_auth_mode, push_toast,
  dismiss_toast, fire_timer, clear_vault,
}
use dotnet_web_api_startpack.Workbench.Request.{request_input, start_request}
use dotnet_web_api_startpack.Workbench.Session.{
  Event, act, run, finish_flight, flight_exit, is_controller,
}
use dotnet_web_api_startpack.Workbench.Flights.{IsFlying, without, released}
use dotnet_web_api_startpack.Workbench.Flights.Steps.{SameFlights, run-IsFlying}
use dotnet_web_api_startpack.Workbench.Flights.Endings.{finish_flight-Ended, is_awaited}
use dotnet_web_api_startpack.Scenarios.{Script, Scenario, script}
use dotnet_web_api_startpack.Scenarios.Bounded.{is_still, IsBounded, script-IsBounded}
use dotnet_web_api_startpack.Scenarios.Performance.{
  Reply, Finish, done, threw, waiting, answer, perform,
}

-- No request waits, and the page is not marked as running.
pub record IsAtRest (w : Workbench) : Type 0 where
  pub in_flight : w.in_flight ≡ []
  pub abort : w.abort ≡ none
  pub is_running : w.is_running ≡ false

-- The script has ended: at its end the page is at rest, at an exception no request waits.
abbrev pub IsSettled : Finish → Workbench → Type 0
IsSettled done w = IsAtRest w
IsSettled threw w = w.in_flight ≡ []
IsSettled waiting w = ⊥

abbrev pub AreStill : List Event → Type 0
AreStill = All (λ e. is_still e ≡ true)

pub IsAtRest-IsFlying : (w : Workbench) → IsAtRest w → IsFlying w
IsAtRest-IsFlying w r = record {
  flights =
      rw (r.in_flight, r.abort) (record { tracked = tt; distinct = tt; fresh = tt; below = tt });
  running = r.is_running ∙ ap is_some (sym r.abort);
}

unchanged : (w : Workbench) → SameFlights w w
unchanged w = record { in_flight = refl; abort = refl; next_controller = refl; is_running = refl }

pub IsAtRest-same : {w w' : Workbench} → SameFlights w w' → IsAtRest w → IsAtRest w'
IsAtRest-same s r = record {
  in_flight = s.in_flight ∙ r.in_flight;
  abort = s.abort ∙ r.abort;
  is_running = s.is_running ∙ r.is_running;
}

-- The page with this one request.
pub record IsAlone (k : ℕ) (w : Workbench) : Type 0 where
  pub flight : Flight
  pub only : w.in_flight ≡ flight ∷ []
  pub controller : (flight.controller == k) ≡ true
  pub abort : w.abort ≡ some k

module _ ⦃p : Platform⦄ where
  pub act-still : (e : Event) (w : Workbench) → is_still e ≡ true → SameFlights w (act e w)
  unfolding act set_variable set_auth_mode push_toast dismiss_toast fire_timer clear_vault
  act-still (Event.start _ _ _) w h = absurd (ground arith)
  act-still (Event.finish _ _ _) w h = absurd (ground arith)
  act-still Event.check_services w h = elim (Bool-cases (is_empty w.api_base)) [
    | inl e ↦ rw e (unchanged w)
    | inr e ↦
        rw e (record { in_flight = refl; abort = refl; next_controller = refl; is_running = refl })
  ]
  act-still _ w h = record {
    in_flight = refl;
    abort = refl;
    next_controller = refl;
    is_running = refl;
  }

  pub run-still : (es : List Event) (w : Workbench) → AreStill es → SameFlights w (run es w)
  run-still [] w h = unchanged w
  run-still (e ∷ es) w (h, hs) =
      let first = act-still e w h in
      let rest = run-still es (act e w) hs in
      record {
        in_flight = rest.in_flight ∙ first.in_flight;
        abort = rest.abort ∙ first.abort;
        next_controller = rest.next_controller ∙ first.next_controller;
        is_running = rest.is_running ∙ first.is_running;
      }

  module _ (closure : Closure) (options : RunRequestOptions) (reply : Reply) (w : Workbench) where
    abbrev pub started : Workbench
    started = (start_request closure options reply.before w).0

    abbrev pub during : Workbench
    during = run reply.meanwhile started

    pub start-none :
        IsAtRest w
        → (start_request closure options reply.before w).1 ≡ none
        → started.in_flight ≡ []
    unfolding start_request
    start-none r h = elim (Option-cases (request_input closure options reply.before)) [
      | inl e ↦ rw (e, started, start_request, r.in_flight) refl
      | inr (input, e) ↦ absurd (ground (arith, (rw (e, start_request) at h)))
    ]

    pub start-IsAlone :
        {request : FetchRequest}
        → IsAtRest w
        → (start_request closure options reply.before w).1 ≡ some request
        → IsAlone w.next_controller started
    unfolding start_request
    start-IsAlone r h = elim (Option-cases (request_input closure options reply.before)) [
      | inl e ↦ absurd (ground (arith, (rw (e, start_request) at h)))
      | inr (input, e) ↦
          rw (e, started, start_request, r.in_flight)
            (record { flight = _; only = refl; controller = same w.next_controller; abort = refl })
    ]
      where
        same : (k : ℕ) → (k == k) ≡ true
        same k = ground arith

  pub IsAlone-same : {k : ℕ} {w w' : Workbench} → SameFlights w w' → IsAlone k w → IsAlone k w'
  IsAlone-same s a = record {
    flight = a.flight;
    only = s.in_flight ∙ a.only;
    controller = a.controller;
    abort = s.abort ∙ a.abort;
  }

  pub IsAlone-found :
      {k : ℕ} {w : Workbench} (a : IsAlone k w)
      → find? (is_controller k) w.in_flight ≡ some a.flight
  IsAlone-found a = rw (a.only, find?, a.controller) refl

  self : (k : ℕ) → (k == k) ≡ true
  self k = ground arith

  pub finish-IsAtRest :
      (k : ℕ) (reply : Reply) (w : Workbench)
      → IsAlone k w
      → IsFlying w
      → IsAtRest (finish_flight k reply.exit reply.after w)
  unfolding act
  finish-IsAtRest k reply w a v =
      let awaited : is_awaited w.abort w.in_flight ≡ true =
        rw a.abort (ap is_some (IsAlone-found a)) in
      let ended = finish_flight-Ended k reply.exit reply.after w awaited in
      let none_left = ended.abort ∙ (rw (a.abort, released, self k) refl) in
      record {
        in_flight = ended.in_flight ∙ (rw (a.only, without, a.controller, filter) refl);
        abort = none_left;
        is_running =
            (run-IsFlying (Event.finish k reply.exit reply.after ∷ []) w v).running
            ∙ ap is_some none_left;
      }
