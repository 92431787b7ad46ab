-- ===== src/Workbench/Flights/Endings.antt =====
-- The ends of requests lead the page back to rest.
use dotnet_web_api_startpack.Prelude.{
  ℕ, Text, List, [], ◌∷◌, map, Bool, true, false, Option, none, some, ◌≡◌, subst, some-injective,
  refl, sym, ap, ◌∙◌, arith, All, Bool-cases, Option-cases, inl, inr, ◌==◌, ◌||◌, filter, find?,
}
use dotnet_web_api_startpack.Types.{ApiResult, error}
use dotnet_web_api_startpack.Platform.{Platform}
use dotnet_web_api_startpack.Headers.{is_some}
use dotnet_web_api_startpack.Fetch.{Exit, success, failure, interrupted}
use dotnet_web_api_startpack.Workbench.State.{Workbench, Flight}
use dotnet_web_api_startpack.Workbench.Capture.{capture_response_data}
use dotnet_web_api_startpack.Workbench.Request.{release, land, finish_request}
use dotnet_web_api_startpack.Workbench.Session.{
  Event, act, run, finish_flight, flight_exit, is_controller,
}
use dotnet_web_api_startpack.Workbench.Frame.{Frame-capture_response_data}
use dotnet_web_api_startpack.Workbench.Flights.{IsFlying, without, released}
use dotnet_web_api_startpack.Workbench.Flights.Steps.{
  SameFlights, SameFlights-Frame, settle-SameFlights, push-SameFlights, release-land, abort-release,
  run-IsFlying,
}

-- The current request, if there is one, waits for the network.
abbrev pub is_awaited : Option ℕ → List Flight → Bool
is_awaited none fs = true
is_awaited (some k) fs = is_some (find? (is_controller k) fs)

-- How the network ends a request.
pub record Ending : Type 0 where
  pub controller : ℕ
  pub exit : Exit ApiResult
  pub cookies : Text

abbrev pub ends : List Ending → List Event
ends = map (λ (e : Ending). Event.finish e.controller e.exit e.cookies)

abbrev pub has_ending : ℕ → List Ending → Bool
has_ending k [] = false
has_ending k (e ∷ es) = (e.controller == k) || has_ending k es

find-without :
    (k c : ℕ) (fs : List Flight)
    → (c == k) ≡ false
    → is_some (find? (is_controller c) fs) ≡ true
    → is_some (find? (is_controller c) (without k fs)) ≡ true
find-without k c [] ne h = h
find-without k c (f ∷ fs) ne h = elim (Bool-cases (f.controller == k)) [
  | inl same ↦ elim (Bool-cases (f.controller == c)) [
    | inl here ↦ absurd (ground arith)
    | inr there ↦ rw (same, filter) (find-without k c fs ne (rw (there, find?) at h))
  ]
  | inr other ↦ elim (Bool-cases (f.controller == c)) [
    | inl here ↦ rw (other, filter, here, find?) refl
    | inr there ↦ rw (other, filter, there, find?) (find-without k c fs ne (rw (there, find?) at h))
  ]
]

-- Where no request has the controller, there is none to take away.
without-none : (k : ℕ) (fs : List Flight) → find? (is_controller k) fs ≡ none → without k fs ≡ fs
without-none k [] e = refl
without-none k (f ∷ fs) e = elim (Bool-cases (f.controller == k)) [
  | inl same ↦ ground arith
  | inr other ↦
      rw (other, filter) (ap (λ rest. f ∷ rest) (without-none k fs (rw (other, find?) at e)))
]

pub released-is_awaited :
    (k : ℕ) (abort : Option ℕ) (fs : List Flight)
    → is_awaited abort fs ≡ true
    → is_awaited (released k abort) (without k fs) ≡ true
released-is_awaited k none fs h = refl
released-is_awaited k (some c) fs h = elim (Bool-cases (c == k)) [
  | inl same ↦ rw same refl
  | inr other ↦ rw other (find-without k c fs other h)
]

-- What the end of a request does to the requests.
pub record Ended (k : ℕ) (w w' : Workbench) : Type 0 where
  pub in_flight : w'.in_flight ≡ without k w.in_flight
  pub abort : w'.abort ≡ released k w.abort

Ended-same :
    (k : ℕ) (w : Workbench) {w' : Workbench} → SameFlights (release k (land k w)) w' → Ended k w w'
Ended-same k w s = record {
  in_flight = s.in_flight ∙ release-land k w;
  abort = s.abort ∙ abort-release k w;
}

still-released :
    (k : ℕ) (abort : Option ℕ) (fs : List Flight)
    → find? (is_controller k) fs ≡ none
    → is_awaited abort fs ≡ true
    → abort ≡ released k abort
still-released k none fs e h = refl
still-released k (some c) fs e h = elim (Bool-cases (c == k)) [
  | inl same ↦ ground arith
  | inr other ↦ rw other refl
]

find-controller :
    (k : ℕ) (fs : List Flight) (f : Flight) → find? (is_controller k) fs ≡ some f → f.controller ≡ k
find-controller k [] f e = ground arith
find-controller k (g ∷ gs) f e = elim (Bool-cases (g.controller == k)) [
  | inl same ↦
      let found = some-injective g f (rw (same, find?) at e) in
      ap (λ (x : Flight). x.controller) (sym found) ∙ ground arith
  | inr other ↦ find-controller k gs f (rw (other, find?) at e)
]

nothing_waits : (fs : List Flight) → All (λ (f : Flight). false ≡ true) fs → fs ≡ []
nothing_waits [] h = refl
nothing_waits (f ∷ fs) h = ground arith

no_current : (abort : Option ℕ) → is_awaited abort [] ≡ true → is_some abort ≡ false
no_current none h = refl
no_current (some k) h = ground arith

module _ ⦃p : Platform⦄ where
  finish_request-same :
      (flight : Flight) (exit : Exit ApiResult) (cookies : Text) (w : Workbench)
      → SameFlights
          (release flight.controller (land flight.controller w))
          (finish_request flight exit cookies w)
  unfolding finish_request
  finish_request-same flight interrupted cookies w = record {
    in_flight = refl;
    abort = refl;
    next_controller = refl;
    is_running = refl;
  }
  finish_request-same flight (failure reason) cookies w =
      elim (Bool-cases flight.options.report_error) [
        | inl e ↦ rw e (push-SameFlights _ _ error _)
        | inr e ↦
            rw e
              (record { in_flight = refl; abort = refl; next_controller = refl; is_running = refl })
      ]
  finish_request-same flight (success result) cookies w =
      let w' = release flight.controller (land flight.controller w) in
      let captured =
        capture_response_data flight.closure flight.options.endpoint result cookies w' in
      let framed =
        SameFlights-Frame
          (Frame-capture_response_data flight.closure flight.options.endpoint result cookies w') in
      let settled = settle-SameFlights flight result captured in
      record {
        in_flight = settled.in_flight ∙ framed.in_flight;
        abort = settled.abort ∙ framed.abort;
        next_controller = settled.next_controller ∙ framed.next_controller;
        is_running = settled.is_running ∙ framed.is_running;
      }

  pub finish_flight-Ended :
      (k : ℕ) (exit : Exit ApiResult) (cookies : Text) (w : Workbench)
      → is_awaited w.abort w.in_flight ≡ true
      → Ended k w (finish_flight k exit cookies w)
  unfolding finish_flight
  finish_flight-Ended k exit cookies w h =
      elim (Option-cases (find? (is_controller k) w.in_flight)) [
        | inl e ↦
            rw (e, finish_flight)
              (record {
                in_flight = sym (without-none k w.in_flight e);
                abort = still-released k w.abort w.in_flight e h;
              })
        | inr (flight, e) ↦
            let same = find-controller k w.in_flight flight e in
            rw (e, finish_flight)
              (subst
                (λ (c : ℕ). Ended c w (finish_request flight (flight_exit flight exit) cookies w))
                same
                (Ended-same flight.controller w
                  (finish_request-same flight (flight_exit flight exit) cookies w)))
      ]

  without-has_ending :
      (e : Ending) (es : List Ending) (fs : List Flight)
      → All (λ (f : Flight). has_ending f.controller (e ∷ es) ≡ true) fs
      → All (λ (f : Flight). has_ending f.controller es ≡ true) (without e.controller fs)
  without-has_ending e es [] h = tt
  without-has_ending e es (f ∷ fs) (h, hs) = elim (Bool-cases (f.controller == e.controller)) [
    | inl same ↦ rw (same, filter) (without-has_ending e es fs hs)
    | inr other ↦ rw (other, filter) (ground arith, without-has_ending e es fs hs)
  ]

  -- When the current request, if there is one, waits for the network, and the network ends each of the
  -- waiting requests once or more, in whatever order and with whatever outcome, then no request waits
  -- any more and the page is no longer marked as running.
  pub run-ends_idle :
      (endings : List Ending) (w : Workbench)
      → IsFlying w
      → is_awaited w.abort w.in_flight ≡ true
      → All (λ (f : Flight). has_ending f.controller endings ≡ true) w.in_flight
      → ((run (ends endings) w).in_flight ≡ []) × ((run (ends endings) w).is_running ≡ false)
  unfolding act
  run-ends_idle [] w v h all =
      let empty = nothing_waits w.in_flight all in
      (empty, v.running ∙ no_current w.abort (rw empty at h))
  run-ends_idle (e ∷ es) w v h all =
      let ended = finish_flight-Ended e.controller e.exit e.cookies w h in
      run-ends_idle es (act (Event.finish e.controller e.exit e.cookies) w)
        (run-IsFlying (Event.finish e.controller e.exit e.cookies ∷ []) w v)
        (rw (ended.in_flight, ended.abort) (released-is_awaited e.controller w.abort w.in_flight h))
        (rw ended.in_flight (without-has_ending e es w.in_flight all))
