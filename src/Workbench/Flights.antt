-- ===== src/Workbench/Flights.antt =====
-- The requests that wait for the network: which of them is live, and what the others may still do.
pub mod Steps
pub mod Stale
pub mod Endings
pub mod Awaited
use dotnet_web_api_startpack.Prelude.{
  ℕ, suc, ◌+◌, ◌≤◌, ◌<◌, List, [], ◌∷◌, map, Bool, true, false, not, Option, none, some, ◌≡◌, ◌≢◌,
  ◌↔◌, refl, sym, ap, ◌∙◌, arith, All, Bool-cases, Option-cases, inl, inr, ◌==◌, filter, find?,
  if◌then◌else◌, some-injective,
}
use dotnet_web_api_startpack.Headers.{is_some}
use dotnet_web_api_startpack.Workbench.State.{Workbench, Flight, Closure, RunRequestOptions}
use dotnet_web_api_startpack.Workbench.Request.{abort_flight}

-- A flight is live exactly when its controller is the current one.
abbrev pub IsTracked : Option ℕ → Flight → Type 0
IsTracked abort f = (f.aborted ≡ false) ↔ (abort ≡ some f.controller)

abbrev pub HasDistinctControllers : List Flight → Type 0
HasDistinctControllers [] = Unit
HasDistinctControllers (f ∷ fs) =
    All (λ (g : Flight). g.controller ≢ f.controller) fs × HasDistinctControllers fs

abbrev pub IsBelow : Option ℕ → ℕ → Type 0
IsBelow none next = Unit
IsBelow (some k) next = k < next

pub record AreTracked (fs : List Flight) (abort : Option ℕ) (next : ℕ) : Type 0 where
  pub tracked : All (IsTracked abort) fs
  pub distinct : HasDistinctControllers fs
  pub fresh : All (λ (f : Flight). f.controller < next) fs
  pub below : IsBelow abort next

-- The flag `isRunning` says whether there is a current controller.
pub record IsFlying (w : Workbench) : Type 0 where
  pub flights : AreTracked w.in_flight w.abort w.next_controller
  pub running : w.is_running ≡ is_some w.abort

-- Aborting the current controller leaves no flight live.
pub abort_flight-aborted :
    (abort : Option ℕ) (f : Flight) → IsTracked abort f → (abort_flight abort f).aborted ≡ true
abort_flight-aborted none f t = ground arith
abort_flight-aborted (some k) f t = ground arith

abort_flight-controller :
    (abort : Option ℕ) (f : Flight) → (abort_flight abort f).controller ≡ f.controller
abort_flight-controller none f = refl
abort_flight-controller (some k) f = refl

map-IsTracked :
    (abort : Option ℕ) (next : ℕ) (fs : List Flight)
    → All (IsTracked abort) fs
    → All (λ (f : Flight). f.controller < next) fs
    → All (IsTracked (some next)) (map (abort_flight abort) fs)
map-IsTracked abort next [] t h = tt
map-IsTracked abort next (f ∷ fs) (t, ts) (h, hs) = (
  ground (arith, abort_flight-aborted abort f t, abort_flight-controller abort f),
  map-IsTracked abort next fs ts hs,
)

map-ne :
    (abort : Option ℕ) (k : ℕ) (fs : List Flight)
    → All (λ (g : Flight). g.controller ≢ k) fs
    → All (λ (g : Flight). g.controller ≢ k) (map (abort_flight abort) fs)
map-ne abort k [] h = tt
map-ne abort k (f ∷ fs) (h, hs) = (rw (abort_flight-controller abort f) h, map-ne abort k fs hs)

map-distinct :
    (abort : Option ℕ) (fs : List Flight)
    → HasDistinctControllers fs
    → HasDistinctControllers (map (abort_flight abort) fs)
map-distinct abort [] h = tt
map-distinct abort (f ∷ fs) (h, hs) = (
  rw (abort_flight-controller abort f) (map-ne abort f.controller fs h),
  map-distinct abort fs hs,
)

map-fresh :
    (abort : Option ℕ) (next : ℕ) (fs : List Flight)
    → All (λ (f : Flight). f.controller < next) fs
    → All (λ (f : Flight). f.controller < suc next) (map (abort_flight abort) fs)
map-fresh abort next [] h = tt
map-fresh abort next (f ∷ fs) (h, hs) =
    (ground (arith, abort_flight-controller abort f), map-fresh abort next fs hs)

fresh-ne :
    (next : ℕ) (abort : Option ℕ) (fs : List Flight)
    → All (λ (f : Flight). f.controller < next) fs
    → All (λ (g : Flight). g.controller ≢ next) (map (abort_flight abort) fs)
fresh-ne next abort [] h = tt
fresh-ne next abort (f ∷ fs) (h, hs) =
    (ground (arith, abort_flight-controller abort f), fresh-ne next abort fs hs)

-- A new controller becomes current, with and without a flight of its own.
pub AreTracked-begin :
    {fs : List Flight} {abort : Option ℕ} {next : ℕ}
    → AreTracked fs abort next
    → AreTracked (map (abort_flight abort) fs) (some next) (suc next)
AreTracked-begin {fs} {abort} {next} a = record {
  tracked = map-IsTracked abort next fs a.tracked a.fresh;
  distinct = map-distinct abort fs a.distinct;
  fresh = map-fresh abort next fs a.fresh;
  below = omega arith;
}

pub AreTracked-start :
    {fs : List Flight} {abort : Option ℕ} {next : ℕ} (options : RunRequestOptions)
    (closure : Closure)
    → AreTracked fs abort next
    → AreTracked
        (record { controller = next; aborted = false; options = options; closure = closure }
          ∷ map (abort_flight abort) fs)
        (some next)
        (suc next)
AreTracked-start {fs} {abort} {next} options closure a =
    let b = AreTracked-begin a in
    record {
      tracked = (((λ _. refl), (λ _. refl)), b.tracked);
      distinct = (fresh-ne next abort fs a.fresh, b.distinct);
      fresh = (omega arith, b.fresh);
      below = b.below;
    }

-- The flights that are left when one has ended.
abbrev pub without : ℕ → List Flight → List Flight
without k fs = filter (λ (f : Flight). not (f.controller == k)) fs

abbrev pub released : ℕ → Option ℕ → Option ℕ
released k none = none
released k (some c) = if c == k then none else some c
