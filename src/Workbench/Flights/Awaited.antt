-- ===== src/Workbench/Flights/Awaited.antt =====
-- The current request waits for the network, as long as requests can be built.
use dotnet_web_api_startpack.Prelude.{
  ℕ, Text, List, [], ◌∷◌, Bool, true, false, some, ◌≡◌, refl, arith, All, Bool-cases, Option-cases,
  inl, inr,
}
use dotnet_web_api_startpack.Platform.{Platform}
use dotnet_web_api_startpack.Headers.{is_some}
use dotnet_web_api_startpack.Template.{is_empty}
use dotnet_web_api_startpack.Vault.{Storage}
use dotnet_web_api_startpack.Workbench.State.{
  Workbench, Closure, RunRequestOptions, Flight, initial, set_variable, set_auth_mode, push_toast,
  dismiss_toast, fire_timer, clear_vault,
}
use dotnet_web_api_startpack.Workbench.Request.{request_input, start_request}
use dotnet_web_api_startpack.Workbench.Session.{Event, act, run}
use dotnet_web_api_startpack.Workbench.Flights.Endings.{
  Ending, ends, has_ending, is_awaited, finish_flight-Ended, released-is_awaited, run-ends_idle,
}
use dotnet_web_api_startpack.Workbench.Flights.Steps.{run-IsFlying, initial-IsFlying}

head-is_awaited :
    (k : ℕ) (f : Flight) (fs : List Flight) → f.controller ≡ k → is_awaited (some k) (f ∷ fs) ≡ true
head-is_awaited k f fs e = ground arith

module _ ⦃p : Platform⦄ where
  -- An event that does not start a request whose path or headers cannot be built.
  abbrev pub can_build : Event → Bool
  can_build (Event.start closure options cookies) = is_some (request_input closure options cookies)
  can_build _ = true

  start_request-is_awaited :
      (closure : Closure) (options : RunRequestOptions) (cookies : Text) (w : Workbench)
      → is_some (request_input closure options cookies) ≡ true
      → is_awaited
          (start_request closure options cookies w).0.abort
          (start_request closure options cookies w).0.in_flight
        ≡ true
  unfolding start_request
  start_request-is_awaited closure options cookies w b =
      elim (Option-cases (request_input closure options cookies)) [
        | inl e ↦ absurd (ground arith)
        | inr (input, e) ↦ rw (e, start_request) (head-is_awaited w.next_controller _ _ refl)
      ]

  act-is_awaited :
      (e : Event) (w : Workbench)
      → can_build e ≡ true
      → is_awaited w.abort w.in_flight ≡ true
      → is_awaited (act e w).abort (act e w).in_flight ≡ true
  unfolding act set_variable set_auth_mode push_toast dismiss_toast fire_timer clear_vault
  act-is_awaited (Event.start closure options cookies) w b h =
      start_request-is_awaited closure options cookies w b
  act-is_awaited (Event.finish k exit cookies) w b h =
      let ended = finish_flight-Ended k exit cookies w h in
      rw (ended.in_flight, ended.abort) (released-is_awaited k w.abort w.in_flight h)
  act-is_awaited Event.check_services w b h = elim (Bool-cases (is_empty w.api_base)) [
    | inl e ↦ rw e h
    | inr e ↦ rw e h
  ]
  act-is_awaited _ w b h = h

  -- Along any sequence of events in which the path and the headers of every request can be built, the
  -- current request, if there is one, waits for the network.
  pub run-is_awaited :
      (events : List Event) (w : Workbench)
      → All (λ e. can_build e ≡ true) events
      → is_awaited w.abort w.in_flight ≡ true
      → is_awaited (run events w).abort (run events w).in_flight ≡ true
  run-is_awaited [] w b h = h
  run-is_awaited (e ∷ es) w (b, bs) h = run-is_awaited es (act e w) bs (act-is_awaited e w b h)

  -- However the events of a page follow each other from its mounting on, as long as the path and the
  -- headers of every request can be built: when the network then ends each of the requests that wait,
  -- in whatever order and with whatever outcome, no request waits any more and the page is no longer
  -- marked as running.
  pub run-initial_idle :
      (storage : Storage) (events : List Event) (endings : List Ending)
      → All (λ e. can_build e ≡ true) events
      → All
          (λ (f : Flight). has_ending f.controller endings ≡ true)
          (run events (initial storage)).in_flight
      → ((run (ends endings) (run events (initial storage))).in_flight ≡ [])
        × ((run (ends endings) (run events (initial storage))).is_running ≡ false)
  run-initial_idle storage events endings built covered =
      let w = initial storage in
      run-ends_idle endings (run events w) (run-IsFlying events w (initial-IsFlying storage))
        (run-is_awaited events w built refl) covered
