-- ===== src/Workbench/Flights/Stale.antt =====
-- Requests of `runRequest` that leave less than they should, or nothing at all, behind.
use dotnet_web_api_startpack.Prelude.{
  ℕ, Text, List, [], ◌∷◌, map, true, Option, none, some, ◌≡◌, ◌≢◌, refl, arith, All, Bool-cases,
  inl, inr, ◌==◌, find?, subst, some-injective,
}
use dotnet_web_api_startpack.Types.{ApiResult}
use dotnet_web_api_startpack.Platform.{Platform}
use dotnet_web_api_startpack.Fetch.{Exit}
use dotnet_web_api_startpack.Workbench.State.{Workbench, Flight, Closure, RunRequestOptions}
use dotnet_web_api_startpack.Workbench.Request.{
  abort_flight, request_input, start_request, release, land, finish_request,
}
use dotnet_web_api_startpack.Workbench.Session.{finish_flight, is_controller}
use dotnet_web_api_startpack.Workbench.Flights.{IsTracked, IsFlying, abort_flight-aborted, without}

abbrev pub IsAborted : Flight → Type 0
IsAborted f = f.aborted ≡ true

-- The flight that `find?` finds has its controller and every property of the list.
pub find-All {ℓ} :
    (P : Flight → Type ℓ) (k : ℕ) (fs : List Flight) (f : Flight)
    → All P fs
    → find? (is_controller k) fs ≡ some f
    → (f.controller ≡ k) × P f
find-All P k [] f h e = ground arith
find-All P k (g ∷ gs) f (h, hs) e = elim (Bool-cases (g.controller == k)) [
  | inl same ↦
      let found = some-injective g f (rw (same, find?) at e) in
      subst (λ (x : Flight). (x.controller ≡ k) × P x) found (ground arith, h)
  | inr other ↦ find-All P k gs f hs (rw (other, find?) at e)
]

-- A request that was aborted is not the current one.
stale-controller :
    (abort : Option ℕ) (k : ℕ) (f : Flight)
    → f.controller ≡ k
    → IsTracked abort f
    → f.aborted ≡ true
    → abort ≢ some k
stale-controller abort k f = ground arith

release-other :
    (k : ℕ) (w : Workbench)
    → w.abort ≢ some k
    → release k (land k w) ≡ record w { in_flight = without k w.in_flight }
release-other k w = ground arith

pub map-IsAborted :
    (abort : Option ℕ) (fs : List Flight)
    → All (IsTracked abort) fs
    → All IsAborted (map (abort_flight abort) fs)
map-IsAborted abort [] t = tt
map-IsAborted abort (f ∷ fs) (t, ts) = (abort_flight-aborted abort f t, map-IsAborted abort fs ts)

module _ ⦃p : Platform⦄ where
  -- When the requests are tracked, the end of one that was aborted, whatever the network says, takes
  -- it from the list of those that wait and changes nothing else of the state.
  pub finish_flight-aborted :
      (k : ℕ) (exit : Exit ApiResult) (cookies : Text) (w : Workbench) (f : Flight)
      → IsFlying w
      → find? (is_controller k) w.in_flight ≡ some f
      → f.aborted ≡ true
      → finish_flight k exit cookies w ≡ record w { in_flight = without k w.in_flight }
  unfolding finish_flight finish_request
  finish_flight-aborted k exit cookies w f v e stale =
      let found = find-All (IsTracked w.abort) k w.in_flight f v.flights.tracked e in
      rw (e, finish_flight, stale, found.0)
        (release-other k w (stale-controller w.abort k f found.0 found.1 stale))

  -- When the headers or the path of a request cannot be built, `runRequest` sends nothing, and leaves
  -- the page marked as running with no request live that could end it.
  pub start_request-stuck :
      (closure : Closure) (options : RunRequestOptions) (cookies : Text) (w : Workbench)
      → IsFlying w
      → request_input closure options cookies ≡ none
      → ((start_request closure options cookies w).1 ≡ none)
        × ((start_request closure options cookies w).0.is_running ≡ true)
        × All IsAborted (start_request closure options cookies w).0.in_flight
  unfolding start_request
  start_request-stuck closure options cookies w v e =
      rw (e, start_request) (refl, refl, map-IsAborted w.abort w.in_flight v.flights.tracked)
