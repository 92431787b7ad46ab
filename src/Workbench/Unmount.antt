-- ===== src/Workbench/Unmount.antt =====
-- The unmounting of `WorkbenchProvider`.
use dotnet_web_api_startpack.Prelude.{
  ℕ, List, [], ◌∷◌, map, ◌≡◌, refl, ◌∙◌, arith, All, Bool-cases, Option-cases, inl, inr, find?,
  filter,
}
use dotnet_web_api_startpack.Platform.{Platform}
use dotnet_web_api_startpack.Workbench.State.{Workbench, Flight}
use dotnet_web_api_startpack.Workbench.Request.{abort_flight, finish_request, release, land}
use dotnet_web_api_startpack.Workbench.Session.{act, run, finish_flight, is_controller}
use dotnet_web_api_startpack.Workbench.Flights.{IsFlying, without}
use dotnet_web_api_startpack.Workbench.Flights.Endings.{Ending, ends}
use dotnet_web_api_startpack.Workbench.Flights.Steps.{release-land}
use dotnet_web_api_startpack.Workbench.Flights.Stale.{IsAborted, find-All, map-IsAborted}

-- The cleanup of the effect that mounting has run: `abortRef.current?.abort()`.
unfoldable pub unmount : Workbench → Workbench
unmount w = record w { in_flight = map (abort_flight w.abort) w.in_flight }

-- What a request may leave behind.
pub record SameTraces (w w' : Workbench) : Type 0 where
  pub variables : w'.variables ≡ w.variables
  pub response : w'.response ≡ w.response
  pub toasts : w'.toasts ≡ w.toasts
  pub storage : w'.storage ≡ w.storage

release-traces : (k : ℕ) (w : Workbench) → SameTraces w (release k (land k w))
release-traces k w = record {
  variables = ground arith;
  response = ground arith;
  toasts = ground arith;
  storage = ground arith;
}

without-IsAborted : (k : ℕ) (fs : List Flight) → All IsAborted fs → All IsAborted (without k fs)
without-IsAborted k [] h = tt
without-IsAborted k (f ∷ fs) (h, hs) = elim (Bool-cases (is_controller k f)) [
  | inl same ↦ rw (same, filter) (without-IsAborted k fs hs)
  | inr other ↦ rw (other, filter) (h, without-IsAborted k fs hs)
]

release-IsAborted :
    (k : ℕ) (w : Workbench)
    → All IsAborted w.in_flight
    → All IsAborted (release k (land k w)).in_flight
release-IsAborted k w h = rw (release-land k w) (without-IsAborted k w.in_flight h)

module _ ⦃p : Platform⦄ where
  record Quiet (w w' : Workbench) : Type 0 where
    aborted : All IsAborted w'.in_flight
    traces : SameTraces w w'

  finish_flight-Quiet :
      (e : Ending) (w : Workbench)
      → All IsAborted w.in_flight
      → Quiet w (finish_flight e.controller e.exit e.cookies w)
  unfolding finish_flight finish_request
  finish_flight-Quiet e w h = elim (Option-cases (find? (is_controller e.controller) w.in_flight)) [
    | inl n ↦
        rw (n, finish_flight)
          (record {
            aborted = h;
            traces = record { variables = refl; response = refl; toasts = refl; storage = refl };
          })
    | inr (f, n) ↦
        let found = find-All IsAborted e.controller w.in_flight f h n in
        rw (n, finish_flight, found.1)
          (record {
            aborted = release-IsAborted f.controller w h;
            traces = release-traces f.controller w;
          })
  ]

  ends-traces :
      (endings : List Ending) (w : Workbench)
      → All IsAborted w.in_flight
      → SameTraces w (run (ends endings) w)
  unfolding act
  ends-traces [] w h = record { variables = refl; response = refl; toasts = refl; storage = refl }
  ends-traces (e ∷ es) w h =
      let first = finish_flight-Quiet e w h in
      let rest = ends-traces es (finish_flight e.controller e.exit e.cookies w) first.aborted in
      record {
        variables = rest.variables ∙ first.traces.variables;
        response = rest.response ∙ first.traces.response;
        toasts = rest.toasts ∙ first.traces.toasts;
        storage = rest.storage ∙ first.traces.storage;
      }

  -- On a page that tracks its requests, after the provider has been unmounted, the ends of the requests
  -- that were waiting, whatever the network says, change neither the variables, nor the storage, nor
  -- the response or the toasts.
  pub ends-unmount :
      (endings : List Ending) (w : Workbench)
      → IsFlying w
      → SameTraces w (run (ends endings) (unmount w))
  unfolding unmount
  ends-unmount endings w v =
      let quiet =
        ends-traces endings (unmount w) (map-IsAborted w.abort w.in_flight v.flights.tracked) in
      record {
        variables = quiet.variables;
        response = quiet.response;
        toasts = quiet.toasts;
        storage = quiet.storage;
      }
