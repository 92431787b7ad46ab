-- ===== src/Workbench/Durable/Runs.antt =====
-- The session storage along the events of a page of workbench-context.tsx, up to its reload.
use dotnet_web_api_startpack.Prelude.{
  ℕ, ◌+◌, ◌≤◌, Text, List, [], ◌∷◌, Bool, true, false, none, some, ◌≡◌, ◌≢◌, refl, sym, ap, ◌∙◌,
  subst, arith, All, Bool-cases, Option-cases, inl, inr, find?,
}
use dotnet_web_api_startpack.Types.{ApiResult, Tone}
use dotnet_web_api_startpack.Constants.{empty_variables}
use dotnet_web_api_startpack.Platform.{Platform}
use dotnet_web_api_startpack.Template.{is_empty}
use dotnet_web_api_startpack.Fetch.{Exit}
use dotnet_web_api_startpack.Vault.{Storage, StoredVault, read_vault, merge_stored}
use dotnet_web_api_startpack.Vault.Variables.{VariableName, variable, totp_code}
use dotnet_web_api_startpack.Vault.Mirror.{kept}
use dotnet_web_api_startpack.Vault.Reload.{survivor, merge_stored-read_vault}
use dotnet_web_api_startpack.Workbench.State.{
  Workbench, Closure, RunRequestOptions, initial, dismiss_toast, push_toast, fire_timer,
}
use dotnet_web_api_startpack.Workbench.Request.{request_input, start_request}
use dotnet_web_api_startpack.Workbench.Session.{
  Event, act, run, finish_flight, flight_exit, is_controller,
}
use dotnet_web_api_startpack.Workbench.Durable.{
  lim, IsMirrored, IsDurable, same-IsDurable, compose-Lasts, agree-Lasts, set_variable-IsDurable,
  aside-Lasts,
}
use dotnet_web_api_startpack.Workbench.Durable.Steps.{
  set_auth_mode-IsDurable, clear_vault-IsDurable,
}
use dotnet_web_api_startpack.Workbench.Durable.Responses.Requests.{finish_request-IsDurable}

-- An event that is not the reading of the storage at the mounting.
abbrev pub is_later : Event → Bool
is_later (Event.restored vault) = false
is_later _ = true

push_toast-IsDurable :
    (title description : Text) (tone : Tone) → IsDurable (push_toast title description tone)
unfolding push_toast
push_toast-IsDurable title description tone w good = aside-Lasts _ w good (λ n. refl) refl refl

module _ ⦃p : Platform⦄ where
  start-IsDurable :
      (closure : Closure) (options : RunRequestOptions) (cookies : Text)
      → IsDurable (λ w. (start_request closure options cookies w).0)
  unfolding start_request
  start-IsDurable closure options cookies w good =
      elim (Option-cases (request_input closure options cookies)) [
        | inl e ↦
            aside-Lasts _ w good (λ n. rw (e, start_request) refl) (rw (e, start_request) refl)
              (rw (e, start_request) refl)
        | inr (input, e) ↦
            aside-Lasts _ w good (λ n. rw (e, start_request) refl) (rw (e, start_request) refl)
              (rw (e, start_request) refl)
      ]

  finish-IsDurable :
      (k : ℕ) (exit : Exit ApiResult) (cookies : Text) → IsDurable (finish_flight k exit cookies)
  unfolding finish_flight
  finish-IsDurable k exit cookies w good =
      elim (Option-cases (find? (is_controller k) w.in_flight)) [
        | inl e ↦ agree-Lasts _ (λ x. x) w (λ n. rw (e, finish_flight) refl) (same-IsDurable w good)
        | inr (flight, e) ↦
            agree-Lasts _ _ w (λ n. rw (e, finish_flight) refl)
              (finish_request-IsDurable flight (flight_exit flight exit) cookies w good)
      ]

  check-IsDurable : IsDurable (act Event.check_services)
  unfolding act
  check-IsDurable w good = elim (Bool-cases (is_empty w.api_base)) [
    | inl e ↦ aside-Lasts _ w good (λ n. rw (e, act) refl) (rw (e, act) refl) (rw (e, act) refl)
    | inr e ↦ aside-Lasts _ w good (λ n. rw (e, act) refl) (rw (e, act) refl) (rw (e, act) refl)
  ]

  act-IsDurable : (e : Event) → is_later e ≡ true → IsDurable (act e)
  unfolding act dismiss_toast fire_timer
  act-IsDurable (Event.toast title description tone) h w good =
      push_toast-IsDurable title description tone w good
  act-IsDurable (Event.variable name value) h w good = set_variable-IsDurable name value w good
  act-IsDurable (Event.totp code) h w good = set_variable-IsDurable totp_code code w good
  act-IsDurable (Event.mode mode) h w good = set_auth_mode-IsDurable mode w good
  act-IsDurable Event.clear h w good = clear_vault-IsDurable w good
  act-IsDurable (Event.start closure options cookies) h w good =
      start-IsDurable closure options cookies w good
  act-IsDurable (Event.finish k exit cookies) h w good = finish-IsDurable k exit cookies w good
  act-IsDurable Event.check_services h w good = check-IsDurable w good
  act-IsDurable (Event.restored vault) h w good = absurd (ground arith)
  act-IsDurable e h w good = aside-Lasts _ w good (λ n. refl) refl refl

  pub run-IsDurable :
      (events : List Event) → All (λ e. is_later e ≡ true) events → IsDurable (run events)
  run-IsDurable [] h w good = same-IsDurable w good
  run-IsDurable (e ∷ es) (h, hs) w good =
      compose-Lasts (act e) (run es) w (act-IsDurable e h w good) (run-IsDurable es hs)

  -- The page after a reload: the initial state, with what it reads from the storage.
  abbrev pub reloaded : Storage → StoredVault → Workbench
  reloaded storage vault = act (Event.restored vault) (initial storage)

  -- A reload reads the storage, has every stored variable as it was and the others empty, and its
  -- storage mirrors its variables again.
  pub record IsReloaded (w : Workbench) : Type 0 where
    pub vault : StoredVault
    pub reads : read_vault w.storage ≡ some vault
    pub survives :
        (m : VariableName)
        → variable m (reloaded w.storage vault).variables ≡ survivor m w.variables
    pub mirrored : IsMirrored (reloaded w.storage vault)

  unread : (w : Workbench) → w.storage.blocked ≡ false → read_vault w.storage ≢ none
  unfolding read_vault
  unread w opened e = ground arith

  reload : (w : Workbench) → IsMirrored w → IsReloaded w
  unfolding act
  reload w good = elim (Option-cases (read_vault w.storage)) [
    | inl e ↦ absurd (unread w good.opened e)
    | inr (vault, e) ↦
        let survives : (m : VariableName)
            → variable m (merge_stored vault empty_variables) ≡ survivor m w.variables =
          λ m. merge_stored-read_vault w.variables w.storage {vault = vault} m good.mirrors e in
        record {
          vault = vault;
          reads = e;
          survives = survives;
          mirrored = record {
            opened = good.opened;
            mirrors = λ m k named.
                good.mirrors m k named ∙ ap kept (sym (survives m ∙ rw (named, survivor) refl));
          };
        }
  ]

  -- The limit of the storage makes no difference: a greater one leads to the same page.
  abbrev pub IsAmple : List Event → Workbench → ℕ → Type 0
  IsAmple events w n = (m : ℕ) → n ≤ m → run events (lim m w) ≡ lim m (run events (lim n w))

  -- The largest size of the storage at a write.
  abbrev pub room_of :
      (events : List Event) (w : Workbench) → All (λ e. is_later e ≡ true) events → IsMirrored w → ℕ
  room_of events w later good = (run-IsDurable events later w good).room

  -- Every sequence of events has an ample limit.
  pub room_of-IsAmple :
      (events : List Event) (w : Workbench) (later : All (λ e. is_later e ≡ true) events)
      (good : IsMirrored w)
      → IsAmple events w (room_of events w later good)
  room_of-IsAmple events w later good m h =
      let lasts = run-IsDurable events later w good in
      lasts.reached m h ∙ ap (lim m) (sym (lasts.reached lasts.room (omega arith)))

  -- On a page whose storage can be used and mirrors the variables, let any events happen but the reading
  -- of the storage at the mounting. If the limit of the storage is so great that a greater one would lead
  -- to the same page, a reload reads the storage, restores every stored variable, leaves the others empty,
  -- and its storage mirrors its variables again.
  pub run-IsReloaded :
      (events : List Event) (w : Workbench) (n : ℕ)
      → All (λ e. is_later e ≡ true) events
      → IsMirrored w
      → IsAmple events w n
      → IsReloaded (run events (lim n w))
  run-IsReloaded events w n later good ample =
      let lasts = run-IsDurable events later w good in
      let m = n + lasts.room in
      let same = sym (lasts.reached m (omega arith)) ∙ ample m (omega arith) in
      let kept_good : IsMirrored (lim m (run events (lim n w))) =
        subst IsMirrored same
          (record { opened = lasts.good.opened; mirrors = lasts.good.mirrors }) in
      reload (run events (lim n w))
        (record { opened = kept_good.opened; mirrors = kept_good.mirrors })
