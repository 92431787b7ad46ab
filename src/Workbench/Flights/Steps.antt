-- ===== src/Workbench/Flights/Steps.antt =====
-- Every event of a page keeps the requests tracked.
use dotnet_web_api_startpack.Prelude.{
  ℕ, Text, List, [], ◌∷◌, false, Option, none, some, ◌≡◌, refl, sym, ap, ◌∙◌, arith, All,
  Bool-cases, Option-cases, inl, inr, ◌==◌, filter, find?,
}
use dotnet_web_api_startpack.Types.{ApiResult, Tone, error}
use dotnet_web_api_startpack.Platform.{Platform}
use dotnet_web_api_startpack.Fetch.{Exit, success, failure, interrupted}
use dotnet_web_api_startpack.Workbench.State.{
  Workbench, Flight, Closure, RunRequestOptions, dismiss_toast, push_toast, fire_timer,
  set_variable, set_auth_mode, clear_vault, initial,
}
use dotnet_web_api_startpack.Vault.{Storage}
use dotnet_web_api_startpack.Template.{is_empty}
use dotnet_web_api_startpack.Workbench.Capture.{Captured, noticed, thrown, capture_response_data}
use dotnet_web_api_startpack.Workbench.Request.{
  request_input, start_request, release, land, settle, finish_request,
}
use dotnet_web_api_startpack.Workbench.Session.{
  Event, act, run, finish_flight, flight_exit, is_controller,
}
use dotnet_web_api_startpack.Workbench.Frame.{Frame, Frame-capture_response_data}
use dotnet_web_api_startpack.Headers.{is_some}
use dotnet_web_api_startpack.Workbench.Flights.{
  IsTracked, HasDistinctControllers, IsBelow, AreTracked, IsFlying, AreTracked-begin,
  AreTracked-start, without, released,
}

released-IsTracked :
    (k : ℕ) (abort : Option ℕ) (f : Flight)
    → (f.controller == k) ≡ false
    → IsTracked abort f
    → IsTracked (released k abort) f
released-IsTracked k none f ne t = t
released-IsTracked k (some c) f ne t = ground arith

end-IsTracked :
    (k : ℕ) (abort : Option ℕ) (fs : List Flight)
    → All (IsTracked abort) fs
    → All (IsTracked (released k abort)) (without k fs)
end-IsTracked k abort [] h = tt
end-IsTracked k abort (f ∷ fs) (h, hs) = elim (Bool-cases (f.controller == k)) [
  | inl same ↦ rw (same, filter) (end-IsTracked k abort fs hs)
  | inr other ↦
      rw (other, filter) (released-IsTracked k abort f other h, end-IsTracked k abort fs hs)
]

without-All {ℓ} : (P : Flight → Type ℓ) (k : ℕ) (fs : List Flight) → All P fs → All P (without k fs)
without-All P k [] h = tt
without-All P k (f ∷ fs) (h, hs) = elim (Bool-cases (f.controller == k)) [
  | inl same ↦ rw (same, filter) (without-All P k fs hs)
  | inr other ↦ rw (other, filter) (h, without-All P k fs hs)
]

without-distinct :
    (k : ℕ) (fs : List Flight) → HasDistinctControllers fs → HasDistinctControllers (without k fs)
without-distinct k [] h = tt
without-distinct k (f ∷ fs) (h, hs) = elim (Bool-cases (f.controller == k)) [
  | inl same ↦ rw (same, filter) (without-distinct k fs hs)
  | inr other ↦ rw (other, filter) (without-All _ k fs h, without-distinct k fs hs)
]

released-IsBelow :
    (k : ℕ) (abort : Option ℕ) (next : ℕ) → IsBelow abort next → IsBelow (released k abort) next
released-IsBelow k none next h = tt
released-IsBelow k (some c) next h = elim (Bool-cases (c == k)) [
  | inl same ↦ rw same tt
  | inr other ↦ rw other h
]

AreTracked-end :
    (k : ℕ) {fs : List Flight} {abort : Option ℕ} {next : ℕ}
    → AreTracked fs abort next
    → AreTracked (without k fs) (released k abort) next
AreTracked-end k {fs} {abort} {next} a = record {
  tracked = end-IsTracked k abort fs a.tracked;
  distinct = without-distinct k fs a.distinct;
  fresh = without-All _ k fs a.fresh;
  below = released-IsBelow k abort next a.below;
}

-- The four fields that hold the requests.
pub record SameFlights (w w' : Workbench) : Type 0 where
  pub in_flight : w'.in_flight ≡ w.in_flight
  pub abort : w'.abort ≡ w.abort
  pub next_controller : w'.next_controller ≡ w.next_controller
  pub is_running : w'.is_running ≡ w.is_running

IsFlying-same : {w w' : Workbench} → SameFlights w w' → IsFlying w → IsFlying w'
IsFlying-same s v = record {
  flights = rw (s.in_flight, s.abort, s.next_controller) v.flights;
  running = s.is_running ∙ v.running ∙ ap is_some (sym s.abort);
}

pub SameFlights-Frame : {w w' : Workbench} → Frame w w' → SameFlights w w'
SameFlights-Frame f = record {
  in_flight = f.in_flight;
  abort = f.abort;
  next_controller = f.next_controller;
  is_running = f.is_running;
}

pub release-land :
    (k : ℕ) (w : Workbench) → (release k (land k w)).in_flight ≡ without k w.in_flight
release-land k w = ground arith

pub abort-release : (k : ℕ) (w : Workbench) → (release k (land k w)).abort ≡ released k w.abort
abort-release k w = ground arith

next-release : (k : ℕ) (w : Workbench) → (release k (land k w)).next_controller ≡ w.next_controller
next-release k w = ground arith

running-release :
    (k : ℕ) (w : Workbench)
    → w.is_running ≡ is_some w.abort
    → (release k (land k w)).is_running ≡ is_some (released k w.abort)
running-release k w h = ground arith

release-IsFlying : (k : ℕ) (w : Workbench) → IsFlying w → IsFlying (release k (land k w))
release-IsFlying k w v = record {
  flights = rw (release-land k w, abort-release k w, next-release k w) (AreTracked-end k v.flights);
  running = running-release k w v.running ∙ ap is_some (sym (abort-release k w));
}

pub settle-SameFlights :
    (flight : Flight) (result : ApiResult) (wc : Workbench × Captured)
    → SameFlights wc.0 (settle flight result wc)
settle-SameFlights flight result (w, noticed notice) = record {
  in_flight = ground arith;
  abort = ground arith;
  next_controller = ground arith;
  is_running = ground arith;
}
settle-SameFlights flight result (w, thrown) = record {
  in_flight = refl;
  abort = refl;
  next_controller = refl;
  is_running = refl;
}

pub push-SameFlights :
    (title description : Text) (tone : Tone) (w : Workbench)
    → SameFlights w (push_toast title description tone w)
unfolding push_toast
push-SameFlights title description tone w = record {
  in_flight = refl;
  abort = refl;
  next_controller = refl;
  is_running = refl;
}

module _ ⦃p : Platform⦄ where
  start_request-IsFlying :
      (closure : Closure) (options : RunRequestOptions) (cookies : Text) (w : Workbench)
      → IsFlying w
      → IsFlying (start_request closure options cookies w).0
  unfolding start_request
  start_request-IsFlying closure options cookies w v =
      elim (Option-cases (request_input closure options cookies)) [
        | inl e ↦
            rw (e, start_request) (record { flights = AreTracked-begin v.flights; running = refl })
        | inr (input, e) ↦
            rw (e, start_request)
              (record { flights = AreTracked-start options closure v.flights; running = refl })
      ]

  finish_request-IsFlying :
      (flight : Flight) (exit : Exit ApiResult) (cookies : Text) (w : Workbench)
      → IsFlying w
      → IsFlying (finish_request flight exit cookies w)
  unfolding finish_request
  finish_request-IsFlying flight interrupted cookies w v = release-IsFlying flight.controller w v
  finish_request-IsFlying flight (failure reason) cookies w v =
      let r = release-IsFlying flight.controller w v in
      elim (Bool-cases flight.options.report_error) [
        | inl e ↦ rw e (IsFlying-same (push-SameFlights _ _ error _) r)
        | inr e ↦ rw e r
      ]
  finish_request-IsFlying flight (success result) cookies w v =
      let w' = release flight.controller (land flight.controller w) in
      IsFlying-same
        (settle-SameFlights flight result
          (capture_response_data flight.closure flight.options.endpoint result cookies w'))
        (IsFlying-same
          (SameFlights-Frame
            (Frame-capture_response_data flight.closure flight.options.endpoint result cookies w'))
          (release-IsFlying flight.controller w v))

  finish_flight-IsFlying :
      (k : ℕ) (exit : Exit ApiResult) (cookies : Text) (w : Workbench)
      → IsFlying w
      → IsFlying (finish_flight k exit cookies w)
  unfolding finish_flight
  finish_flight-IsFlying k exit cookies w v =
      elim (Option-cases (find? (is_controller k) w.in_flight)) [
        | inl e ↦ rw (e, finish_flight) v
        | inr (flight, e) ↦
            rw (e, finish_flight)
              (finish_request-IsFlying flight (flight_exit flight exit) cookies w v)
      ]

  act-IsFlying : (e : Event) (w : Workbench) → IsFlying w → IsFlying (act e w)
  unfolding act set_variable set_auth_mode push_toast dismiss_toast fire_timer clear_vault
  act-IsFlying (Event.start closure options cookies) w v =
      start_request-IsFlying closure options cookies w v
  act-IsFlying (Event.finish k exit cookies) w v = finish_flight-IsFlying k exit cookies w v
  act-IsFlying Event.check_services w v = elim (Bool-cases (is_empty w.api_base)) [
    | inl e ↦ rw e v
    | inr e ↦ rw e (record { flights = v.flights; running = v.running })
  ]
  act-IsFlying _ w v = record { flights = v.flights; running = v.running }

  -- Whatever happens on a page, the flag that a request runs says whether there is a current
  -- controller, a request is live exactly when its controller is the current one, no two requests
  -- share a controller, and no controller is used again.
  pub run-IsFlying : (events : List Event) (w : Workbench) → IsFlying w → IsFlying (run events w)
  run-IsFlying [] w v = v
  run-IsFlying (e ∷ es) w v = run-IsFlying es (act e w) (act-IsFlying e w v)

pub initial-IsFlying : (storage : Storage) → IsFlying (initial storage)
initial-IsFlying storage = record {
  flights = record { tracked = tt; distinct = tt; fresh = tt; below = tt };
  running = refl;
}
