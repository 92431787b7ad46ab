-- ===== src/Workbench/Toasts.antt =====
-- The list of toasts: their identifiers, and what the timeouts take away.
pub mod Steps
use dotnet_web_api_startpack.Prelude.{
  ℕ, suc, ◌+◌, ◌≤◌, ◌<◌, Text, lit, List, [], ◌∷◌, ◌++◌, Bool, true, false, not, Option, none, some,
  ◌≡◌, ◌≢◌, refl, sym, ap, ◌∙◌, arith, All, All-append, Bool-cases, Option-cases, inl, inr, ◌==◌,
  filter, find?, if◌then◌else◌,
}
use dotnet_web_api_startpack.Types.{ApiResult, ToastMessage, Tone, neutral, error}
use dotnet_web_api_startpack.Platform.{Platform}
use dotnet_web_api_startpack.Fetch.{Exit, success, failure, interrupted}
use dotnet_web_api_startpack.Workbench.State.{
  Workbench, Flight, Closure, RunRequestOptions, is_neutral, dismiss_toast, push_toast, fire_timer,
  set_variable, set_auth_mode, clear_vault, initial,
}
use dotnet_web_api_startpack.Vault.{Storage}
use dotnet_web_api_startpack.Workbench.Capture.{Captured, noticed, thrown, capture_response_data}
use dotnet_web_api_startpack.Workbench.Request.{
  request_input, start_request, begin_request, release, land, show, settle, report, finish_request,
}
use dotnet_web_api_startpack.Workbench.Session.{
  Event, act, run, finish_flight, flight_exit, is_controller,
}
use dotnet_web_api_startpack.Workbench.Frame.{Frame, Frame-capture_response_data}

-- Each toast's identifier is less than those of the toasts after it.
abbrev pub Increasing : List ToastMessage → Type 0
Increasing [] = Unit
Increasing (t ∷ ts) = All (λ (u : ToastMessage). t.id < u.id) ts × Increasing ts

-- A toast with the tone `error` has no timeout.
abbrev pub IsKept : List ℕ → ToastMessage → Type 0
IsKept timers t = t.tone ≡ error → All (λ k. k ≢ t.id) timers

pub record AreOrdered (ts : List ToastMessage) (last : ℕ) (timers : List ℕ) : Type 0 where
  pub increasing : Increasing ts
  pub bounded : All (λ (t : ToastMessage). t.id ≤ last) ts
  pub timed : All (λ k. k ≤ last) timers
  pub kept : All (IsKept timers) ts

abbrev pub HasOrderedToasts : Workbench → Type 0
HasOrderedToasts w = AreOrdered w.toasts w.toast_id w.timers

All-filter {ℓ κ} :
    {A : Type ℓ} (P : A → Type κ) (p : A → Bool) (xs : List A) → All P xs → All P (filter p xs)
All-filter P p [] h = tt
All-filter P p (x ∷ xs) (h, hs) = elim (Bool-cases (p x)) [
  | inl yes' ↦ rw (yes', filter) (h, All-filter P p xs hs)
  | inr no' ↦ rw (no', filter) (All-filter P p xs hs)
]

All-weaken {ℓ κ μ} :
    {A : Type ℓ} (P : A → Type κ) (Q : A → Type μ) (xs : List A)
    → ((a : A) → P a → Q a)
    → All P xs
    → All Q xs
All-weaken P Q [] f h = tt
All-weaken P Q (x ∷ xs) f (h, hs) = (f x h, All-weaken P Q xs f hs)

Increasing-filter :
    (p : ToastMessage → Bool) (ts : List ToastMessage) → Increasing ts → Increasing (filter p ts)
Increasing-filter p [] h = tt
Increasing-filter p (t ∷ ts) (h, hs) = elim (Bool-cases (p t)) [
  | inl yes' ↦ rw (yes', filter) (All-filter _ p ts h, Increasing-filter p ts hs)
  | inr no' ↦ rw (no', filter) (Increasing-filter p ts hs)
]

Increasing-append :
    (ts : List ToastMessage) (last : ℕ) (new : ToastMessage)
    → last < new.id
    → All (λ (t : ToastMessage). t.id ≤ last) ts
    → Increasing ts
    → Increasing (ts ++ (new ∷ []))
Increasing-append [] last new lt b h = (tt, tt)
Increasing-append (t ∷ ts) last new lt (b, bs) (h, hs) =
    (All-append _ ts (new ∷ []) h (omega arith, tt), Increasing-append ts last new lt bs hs)

AreOrdered-filter :
    (p : ToastMessage → Bool) {ts : List ToastMessage} {last : ℕ} {timers : List ℕ}
    → AreOrdered ts last timers
    → AreOrdered (filter p ts) last timers
AreOrdered-filter p {ts} o = record {
  increasing = Increasing-filter p ts o.increasing;
  bounded = All-filter _ p ts o.bounded;
  timed = o.timed;
  kept = All-filter _ p ts o.kept;
}

AreOrdered-fewer :
    (p : ℕ → Bool) {ts : List ToastMessage} {last : ℕ} {timers : List ℕ}
    → AreOrdered ts last timers
    → AreOrdered ts last (filter p timers)
AreOrdered-fewer p {ts} {timers} o = record {
  increasing = o.increasing;
  bounded = o.bounded;
  timed = All-filter _ p timers o.timed;
  kept = All-weaken _ _ ts (λ t k e. All-filter _ p timers (k e)) o.kept;
}
