-- ===== src/Scenarios/Modes.antt =====
-- The modes in which the scenarios send their requests.
use dotnet_web_api_startpack.Prelude.{
  Text, lit, List, [], ◌∷◌, ◌&&◌, not, Option, none, some, ◌≡◌, refl, Bool-cases, Option-cases, inl,
  inr, ◌==◌,
}
use dotnet_web_api_startpack.Types.{AuthMode, bearer, cookie, ApiResult, EndpointDefinition}
use dotnet_web_api_startpack.Platform.{Platform}
use dotnet_web_api_startpack.Catalog.{endpoint_by_id}
use dotnet_web_api_startpack.Workbench.State.{RunRequestOptions}
use dotnet_web_api_startpack.Workbench.Session.{Event}
use dotnet_web_api_startpack.Scenarios.{
  Script, Scenario, Deed, did, went, asked, play, script, ensure_csrf, ensure_csrf_in, AccountName,
  Provider, login_mode, demo_login_script, prepare_sessions_script, use_demo_api_key_script,
  run_social_script, after_login, after_authorize, authorization_url, is_ok,
}

-- Each request is sent in the mode that was set last; the first argument is that mode, if any.
unfoldable pub InMode : Option AuthMode → List Deed → Type 0
InMode mode [] = Unit
InMode mode (did (Event.mode m) ∷ deeds) = InMode (some m) deeds
InMode mode (did _ ∷ deeds) = InMode mode deeds
InMode mode (went _ ∷ deeds) = InMode mode deeds
InMode none (asked options ∷ deeds) = ⊥
InMode (some m) (asked options ∷ deeds) = (options.auth_mode ≡ some m) × InMode (some m) deeds

ask-InMode :
    (mode : AuthMode) (options : RunRequestOptions) (rest : Option ApiResult → Script)
    (answers : List (Option ApiResult))
    → options.auth_mode ≡ some mode
    → ((answer : Option ApiResult) (later : List (Option ApiResult))
        → InMode (some mode) (play (rest answer) later))
    → InMode (some mode) (play (Script.ask options rest) answers)
unfolding InMode play
ask-InMode mode options rest [] same h = (same, tt)
ask-InMode mode options rest (answer ∷ answers) same h = (same, h answer answers)

csrf-InMode :
    (mode : AuthMode) (answers : List (Option ApiResult))
    → InMode (some mode) (play (ensure_csrf_in mode) answers)
unfolding InMode play ensure_csrf
csrf-InMode bearer answers = tt
csrf-InMode AuthMode.api_key answers = tt
csrf-InMode cookie answers = elim (Option-cases (endpoint_by_id (lit "auth-csrf"))) [
  | inl e ↦ rw (e, InMode) tt
  | inr (csrf, e) ↦
      rw (e, InMode)
        (ask-InMode cookie _ (λ answer. Script.finished) answers refl (λ answer later. tt))
]

module _ ⦃p : Platform⦄ where
  login-InMode :
      (name : AccountName) (mode : AuthMode) (answer : Option ApiResult)
      (answers : List (Option ApiResult))
      → InMode (some mode) (play (after_login name mode answer) answers)
  unfolding InMode play
  login-InMode name mode none answers = tt
  login-InMode name mode (some result) answers =
      elim (Bool-cases (result.ok && not (result.status == 202))) [
        | inl e ↦ rw (e, InMode) (csrf-InMode mode answers)
        | inr e ↦ elim (Bool-cases (result.status == 202)) [
          | inl e' ↦ rw (e, e', InMode) tt
          | inr e' ↦ rw (e, e', InMode) tt
        ]
      ]

  demo_login-InMode :
      (page_mode : AuthMode) (name : AccountName) (answers : List (Option ApiResult))
      → InMode none (play (demo_login_script page_mode name) answers)
  unfolding demo_login_script InMode play
  demo_login-InMode page_mode name answers =
      elim (Option-cases (endpoint_by_id (lit "auth-login"))) [
        | inl e ↦ rw (e, InMode) tt
        | inr (login, e) ↦
            let mode = login_mode page_mode in
            rw (e, InMode) (ask-InMode mode _ _ answers refl (login-InMode name mode))
      ]

  sessions-InMode :
      (answers : List (Option ApiResult)) → InMode none (play prepare_sessions_script answers)
  unfolding prepare_sessions_script InMode play
  sessions-InMode answers = elim (Option-cases (endpoint_by_id (lit "auth-login"))) [
    | inl e ↦ rw (e, InMode) tt
    | inr (login, e) ↦
        rw (e, InMode)
          (ask-InMode bearer _ _ answers refl (λ first later. elim (Bool-cases (is_ok first)) [
            | inr bad ↦ rw bad tt
            | inl good ↦ rw good (
                ask-InMode bearer _ _ later refl (λ second last. elim (Bool-cases (is_ok second)) [
                  | inl good' ↦ rw good' tt
                  | inr bad' ↦ rw bad' tt
                ]))
          ]))
  ]

  authorize-InMode :
      (origin : Text) (callback : EndpointDefinition) (provider : Provider)
      (first : Option ApiResult) (answers : List (Option ApiResult))
      → InMode (some bearer) (play (after_authorize origin callback provider first) answers)
  unfolding InMode play
  authorize-InMode origin callback provider first answers =
      elim (Option-cases (authorization_url first)) [
        | inl e ↦ rw (e, InMode) tt
        | inr (text, e) ↦ elim (Option-cases (p.parse_url text origin)) [
          | inl e' ↦ rw (e, e', InMode) tt
          | inr (url, e') ↦
              rw (e, e', InMode)
                (ask-InMode bearer _ _ answers refl (λ second last.
                  elim (Bool-cases (is_ok second)) [ inl good ↦ rw good tt | inr bad ↦ rw bad tt ]))
        ]
      ]

  social-InMode :
      (origin : Text) (provider : Provider) (answers : List (Option ApiResult))
      → InMode none (play (run_social_script origin provider) answers)
  unfolding run_social_script InMode play
  social-InMode origin provider answers =
      elim (Option-cases (endpoint_by_id (lit "social-authorize"))) [
        | inl e ↦ rw (e, InMode) tt
        | inr (authorize, e) ↦ elim (Option-cases (endpoint_by_id (lit "social-callback"))) [
          | inl e' ↦ rw (e, e', InMode) tt
          | inr (callback, e') ↦
              rw (e, e', InMode)
                (ask-InMode bearer _ _ answers refl (authorize-InMode origin callback provider))
        ]
      ]

  api_key-InMode :
      (answers : List (Option ApiResult)) → InMode none (play use_demo_api_key_script answers)
  unfolding use_demo_api_key_script InMode play
  api_key-InMode answers = tt

  -- Whatever the answers to its requests are, each request that a scenario sends is sent in the mode
  -- to which the scenario has set the page before; no request is sent before that.
  pub script-InMode :
      (origin : Text) (page_mode : AuthMode) (scenario : Scenario)
      (answers : List (Option ApiResult))
      → InMode none (play (script origin page_mode scenario) answers)
  unfolding script
  script-InMode origin page_mode (Scenario.demo_login name) answers =
      demo_login-InMode page_mode name answers
  script-InMode origin page_mode Scenario.prepare_sessions answers = sessions-InMode answers
  script-InMode origin page_mode Scenario.use_demo_api_key answers = api_key-InMode answers
  script-InMode origin page_mode (Scenario.run_social provider) answers =
      social-InMode origin provider answers
