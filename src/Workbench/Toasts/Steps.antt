-- ===== src/Workbench/Toasts/Steps.antt =====
-- Every event of a page keeps the toasts in order.
use dotnet_web_api_startpack.Prelude.{
  ℕ, suc, ◌≤◌, Text, List, [], ◌∷◌, ◌++◌, Bool, true, false, or_else, ◌≡◌, arith, All, All-append,
  Bool-cases, Option-cases, inl, inr, find?, if◌then◌else◌,
}
use dotnet_web_api_startpack.Types.{ApiResult, ToastMessage, Tone, neutral, error}
use dotnet_web_api_startpack.Platform.{Platform}
use dotnet_web_api_startpack.Fetch.{Exit, success, failure, interrupted}
use dotnet_web_api_startpack.Workbench.State.{
  Workbench, Flight, Closure, RunRequestOptions, is_neutral, dismiss_toast, push_toast, fire_timer,
  set_variable, set_auth_mode, clear_vault, initial, initial_services,
}
use dotnet_web_api_startpack.Vault.{Storage, clear_vault_storage}
use dotnet_web_api_startpack.Template.{is_empty}
use dotnet_web_api_startpack.Constants.{empty_variables}
use dotnet_web_api_startpack.Workbench.Capture.{Captured, noticed, thrown, capture_response_data}
use dotnet_web_api_startpack.Workbench.Request.{
  request_input, start_request, release, land, settle, report, finish_request,
}
use dotnet_web_api_startpack.Workbench.Session.{
  Event, act, run, finish_flight, flight_exit, is_controller,
}
use dotnet_web_api_startpack.Workbench.Frame.{Frame, Frame-capture_response_data}
use dotnet_web_api_startpack.Workbench.Toasts.{
  IsKept, AreOrdered, HasOrderedToasts, All-weaken, Increasing-append, AreOrdered-filter,
  AreOrdered-fewer,
}

kept_later :
    (ts : List ToastMessage) (last : ℕ) (timers : List ℕ)
    → All (λ (t : ToastMessage). t.id ≤ last) ts
    → All (IsKept timers) ts
    → All (IsKept (suc last ∷ timers)) ts
kept_later [] last timers b k = tt
kept_later (t ∷ ts) last timers (b, bs) (k, ks) =
    ((λ e. ((λ same. absurd (omega arith)), k e)), kept_later ts last timers bs ks)

AreOrdered-push :
    (ts : List ToastMessage) (last : ℕ) (timers : List ℕ) (title description : Text) (tone : Tone)
    → AreOrdered ts last timers
    → AreOrdered
        (ts
          ++ (record { id = suc last; title = title; description = description; tone = tone } ∷ []))
        (suc last)
        (if is_neutral tone then suc last ∷ timers else timers)
AreOrdered-push ts last timers title description neutral o = record {
  increasing = Increasing-append ts last _ (omega arith) o.bounded o.increasing;
  bounded =
      All-append _ ts _ (All-weaken _ _ ts (λ t (h : t.id ≤ last). omega arith) o.bounded)
        (omega arith, tt);
  timed = (omega arith, All-weaken _ _ timers (λ k (h : k ≤ last). omega arith) o.timed);
  kept = All-append _ ts _ (kept_later ts last timers o.bounded o.kept) ((λ e. cc), tt);
}
AreOrdered-push ts last timers title description error o = record {
  increasing = Increasing-append ts last _ (omega arith) o.bounded o.increasing;
  bounded =
      All-append _ ts _ (All-weaken _ _ ts (λ t (h : t.id ≤ last). omega arith) o.bounded)
        (omega arith, tt);
  timed = All-weaken _ _ timers (λ k (h : k ≤ last). omega arith) o.timed;
  kept = All-append _ ts _ o.kept (
    (λ e.
        All-weaken _ _ timers (λ k (h : k ≤ last) (same : k ≡ suc last). absurd (omega arith))
          o.timed),
    tt,
  );
}

-- The three fields that hold the toasts.
record SameToasts (w w' : Workbench) : Type 0 where
  toasts : w'.toasts ≡ w.toasts
  toast_id : w'.toast_id ≡ w.toast_id
  timers : w'.timers ≡ w.timers

HasOrderedToasts-same :
    {w w' : Workbench} → SameToasts w w' → HasOrderedToasts w → HasOrderedToasts w'
HasOrderedToasts-same s o = rw (s.toasts, s.toast_id, s.timers) o

SameToasts-Frame : {w w' : Workbench} → Frame w w' → SameToasts w w'
SameToasts-Frame f = record { toasts = f.toasts; toast_id = f.toast_id; timers = f.timers }

push_toast-HasOrderedToasts :
    (title description : Text) (tone : Tone) (w : Workbench)
    → HasOrderedToasts w
    → HasOrderedToasts (push_toast title description tone w)
unfolding push_toast
push_toast-HasOrderedToasts title description tone w o =
    AreOrdered-push w.toasts w.toast_id w.timers title description tone o

dismiss_toast-HasOrderedToasts :
    (id : ℕ) (w : Workbench) → HasOrderedToasts w → HasOrderedToasts (dismiss_toast id w)
unfolding dismiss_toast
dismiss_toast-HasOrderedToasts id w o = AreOrdered-filter _ o

fire_timer-HasOrderedToasts :
    (id : ℕ) (w : Workbench) → HasOrderedToasts w → HasOrderedToasts (fire_timer id w)
unfolding fire_timer
fire_timer-HasOrderedToasts id w o = AreOrdered-filter _ (AreOrdered-fewer _ o)

released-SameToasts : (k : ℕ) (w : Workbench) → SameToasts w (release k (land k w))
released-SameToasts k w = record {
  toasts = ground arith;
  toast_id = ground arith;
  timers = ground arith;
}

released-HasOrderedToasts :
    (k : ℕ) (w : Workbench) → HasOrderedToasts w → HasOrderedToasts (release k (land k w))
released-HasOrderedToasts k w o = HasOrderedToasts-same (released-SameToasts k w) o

module _ ⦃p : Platform⦄ where
  clear_vault-HasOrderedToasts :
      (w : Workbench) → HasOrderedToasts w → HasOrderedToasts (clear_vault w)
  unfolding clear_vault
  clear_vault-HasOrderedToasts w o =
      push_toast-HasOrderedToasts _ _ neutral
        (record w {
          variables = empty_variables;
          storage = or_else (clear_vault_storage w.storage) w.storage;
        })
        o

  start_request-HasOrderedToasts :
      (closure : Closure) (options : RunRequestOptions) (cookies : Text) (w : Workbench)
      → HasOrderedToasts w
      → HasOrderedToasts (start_request closure options cookies w).0
  unfolding start_request
  start_request-HasOrderedToasts closure options cookies w o =
      elim (Option-cases (request_input closure options cookies)) [
        | inl e ↦ rw (e, start_request) o
        | inr (input, e) ↦ rw (e, start_request) o
      ]

  report-HasOrderedToasts :
      (flight : Flight) (reason : Text) (w : Workbench)
      → HasOrderedToasts w
      → HasOrderedToasts (report flight reason w)
  report-HasOrderedToasts flight reason w o = elim (Bool-cases flight.options.report_error) [
    | inl e ↦ rw e (push_toast-HasOrderedToasts _ _ error w o)
    | inr e ↦ rw e o
  ]

  settle-HasOrderedToasts :
      (flight : Flight) (result : ApiResult) (wc : Workbench × Captured)
      → HasOrderedToasts wc.0
      → HasOrderedToasts (settle flight result wc)
  settle-HasOrderedToasts flight result (w, noticed notice) o =
      elim (Bool-cases flight.options.display) [ inl e ↦ rw e o | inr e ↦ rw e o ]
  settle-HasOrderedToasts flight result (w, thrown) o = o

  finish_request-HasOrderedToasts :
      (flight : Flight) (exit : Exit ApiResult) (cookies : Text) (w : Workbench)
      → HasOrderedToasts w
      → HasOrderedToasts (finish_request flight exit cookies w)
  unfolding finish_request
  finish_request-HasOrderedToasts flight interrupted cookies w o =
      released-HasOrderedToasts flight.controller w o
  finish_request-HasOrderedToasts flight (failure reason) cookies w o =
      report-HasOrderedToasts flight reason _ (released-HasOrderedToasts flight.controller w o)
  finish_request-HasOrderedToasts flight (success result) cookies w o =
      let released = release flight.controller (land flight.controller w) in
      settle-HasOrderedToasts flight result
        (capture_response_data flight.closure flight.options.endpoint result cookies released)
        (HasOrderedToasts-same
          (SameToasts-Frame (
            Frame-capture_response_data flight.closure flight.options.endpoint result cookies
              released))
          (released-HasOrderedToasts flight.controller w o))

  finish_flight-HasOrderedToasts :
      (k : ℕ) (exit : Exit ApiResult) (cookies : Text) (w : Workbench)
      → HasOrderedToasts w
      → HasOrderedToasts (finish_flight k exit cookies w)
  unfolding finish_flight
  finish_flight-HasOrderedToasts k exit cookies w o =
      elim (Option-cases (find? (is_controller k) w.in_flight)) [
        | inl e ↦ rw (e, finish_flight) o
        | inr (flight, e) ↦
            rw (e, finish_flight)
              (finish_request-HasOrderedToasts flight (flight_exit flight exit) cookies w o)
      ]

  check-HasOrderedToasts :
      (b : Bool) (w u : Workbench)
      → HasOrderedToasts w
      → HasOrderedToasts u
      → HasOrderedToasts (if b then w else u)
  check-HasOrderedToasts true w u o o' = o
  check-HasOrderedToasts false w u o o' = o'

  act-HasOrderedToasts :
      (e : Event) (w : Workbench) → HasOrderedToasts w → HasOrderedToasts (act e w)
  unfolding act set_variable set_auth_mode
  act-HasOrderedToasts (Event.toast title description tone) w o =
      push_toast-HasOrderedToasts title description tone w o
  act-HasOrderedToasts (Event.dismiss id) w o = dismiss_toast-HasOrderedToasts id w o
  act-HasOrderedToasts (Event.timer id) w o = fire_timer-HasOrderedToasts id w o
  act-HasOrderedToasts Event.clear w o = clear_vault-HasOrderedToasts w o
  act-HasOrderedToasts (Event.start closure options cookies) w o =
      start_request-HasOrderedToasts closure options cookies w o
  act-HasOrderedToasts (Event.finish k exit cookies) w o =
      finish_flight-HasOrderedToasts k exit cookies w o
  act-HasOrderedToasts Event.check_services w o =
      check-HasOrderedToasts (is_empty w.api_base) w (record w { services = initial_services }) o o
  act-HasOrderedToasts _ w o = o

  -- Whatever happens on a page, the toasts keep strictly increasing identifiers, no identifier is used
  -- twice, and no pending timeout belongs to a toast that reports an error.
  pub run-HasOrderedToasts :
      (events : List Event) (w : Workbench) → HasOrderedToasts w → HasOrderedToasts (run events w)
  run-HasOrderedToasts [] w o = o
  run-HasOrderedToasts (e ∷ es) w o = run-HasOrderedToasts es (act e w) (act-HasOrderedToasts e w o)

pub initial-HasOrderedToasts : (storage : Storage) → HasOrderedToasts (initial storage)
initial-HasOrderedToasts storage = record { increasing = tt; bounded = tt; timed = tt; kept = tt }
