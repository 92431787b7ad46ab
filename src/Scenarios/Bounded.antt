-- ===== src/Scenarios/Bounded.antt =====
-- How many requests a script makes at most, and that it makes them by waiting for each.
use dotnet_web_api_startpack.Prelude.{
  ℕ, zero, suc, Text, lit, Bool, true, false, ◌&&◌, not, Option, none, some, ◌≡◌, refl, Bool-cases,
  Option-cases, inl, inr, ◌==◌,
}
use dotnet_web_api_startpack.Types.{AuthMode, bearer, cookie, ApiResult, EndpointDefinition}
use dotnet_web_api_startpack.Platform.{Platform}
use dotnet_web_api_startpack.Catalog.{endpoint_by_id}
use dotnet_web_api_startpack.Workbench.Session.{Event}
use dotnet_web_api_startpack.Scenarios.{
  Script, Scenario, script, ensure_csrf, ensure_csrf_in, AccountName, Provider, login_mode,
  demo_login_script, prepare_sessions_script, use_demo_api_key_script, run_social_script,
  after_login, after_authorize, authorization_url, is_ok,
}

-- An event that neither starts nor ends a request.
abbrev pub is_still : Event → Bool
is_still (Event.start _ _ _) = false
is_still (Event.finish _ _ _) = false
is_still _ = true

-- The script asks for at most so many requests, whatever the answers, and its own events start none.
unfoldable pub IsBounded : ℕ → Script → Type 0
IsBounded n Script.finished = Unit
IsBounded n Script.failed = Unit
IsBounded n (Script.emit event rest) = (is_still event ≡ true) × IsBounded n rest
IsBounded n (Script.navigate id rest) = IsBounded n rest
IsBounded zero (Script.ask options rest) = ⊥
IsBounded (suc n) (Script.ask options rest) = (a : Option ApiResult) → IsBounded n (rest a)

csrf-IsBounded : (mode : AuthMode) → IsBounded 1 (ensure_csrf_in mode)
unfolding IsBounded ensure_csrf
csrf-IsBounded bearer = tt
csrf-IsBounded AuthMode.api_key = tt
csrf-IsBounded cookie = elim (Option-cases (endpoint_by_id (lit "auth-csrf"))) [
  | inl e ↦ rw (e, IsBounded) tt
  | inr (csrf, e) ↦ rw (e, IsBounded) (λ a. tt)
]

module _ ⦃p : Platform⦄ where
  login-IsBounded :
      (name : AccountName) (mode : AuthMode) (a : Option ApiResult)
      → IsBounded 1 (after_login name mode a)
  unfolding IsBounded
  login-IsBounded name mode none = tt
  login-IsBounded name mode (some result) =
      elim (Bool-cases (result.ok && not (result.status == 202))) [
        | inl e ↦ rw (e, IsBounded) (refl, csrf-IsBounded mode)
        | inr e ↦ elim (Bool-cases (result.status == 202)) [
          | inl e' ↦ rw (e, e', IsBounded) (refl, tt)
          | inr e' ↦ rw (e, e', IsBounded) tt
        ]
      ]

  demo_login-IsBounded :
      (page_mode : AuthMode) (name : AccountName) → IsBounded 2 (demo_login_script page_mode name)
  unfolding demo_login_script IsBounded
  demo_login-IsBounded page_mode name = elim (Option-cases (endpoint_by_id (lit "auth-login"))) [
    | inl e ↦ rw (e, IsBounded) tt
    | inr (login, e) ↦ rw (e, IsBounded) (refl, login-IsBounded name (login_mode page_mode))
  ]

  sessions-IsBounded : IsBounded 2 prepare_sessions_script
  unfolding prepare_sessions_script IsBounded
  sessions-IsBounded = elim (Option-cases (endpoint_by_id (lit "auth-login"))) [
    | inl e ↦ rw (e, IsBounded) tt
    | inr (login, e) ↦
        rw (e, IsBounded)
          (
            refl,
            λ first. elim (Bool-cases (is_ok first)) [
              | inr bad ↦ rw bad (refl, tt)
              | inl good ↦ rw good (λ second. elim (Bool-cases (is_ok second)) [
                | inl good' ↦ rw good' (refl, tt)
                | inr bad' ↦ rw bad' (refl, tt)
              ])
            ],
          )
  ]

  authorize-IsBounded :
      (origin : Text) (callback : EndpointDefinition) (provider : Provider)
      (first : Option ApiResult)
      → IsBounded 1 (after_authorize origin callback provider first)
  unfolding IsBounded
  authorize-IsBounded origin callback provider first =
      elim (Option-cases (authorization_url first)) [
        | inl e ↦ rw (e, IsBounded) (refl, tt)
        | inr (text, e) ↦ elim (Option-cases (p.parse_url text origin)) [
          | inl e' ↦ rw (e, e', IsBounded) tt
          | inr (url, e') ↦
              rw (e, e', IsBounded)
                (
                  refl,
                  (
                    refl,
                    λ second. elim (Bool-cases (is_ok second)) [
                      | inl good ↦ rw good (refl, tt)
                      | inr bad ↦ rw bad tt
                    ],
                  ),
                )
        ]
      ]

  social-IsBounded :
      (origin : Text) (provider : Provider) → IsBounded 2 (run_social_script origin provider)
  unfolding run_social_script IsBounded
  social-IsBounded origin provider = elim (Option-cases (endpoint_by_id (lit "social-authorize"))) [
    | inl e ↦ rw (e, IsBounded) tt
    | inr (authorize, e) ↦ elim (Option-cases (endpoint_by_id (lit "social-callback"))) [
      | inl e' ↦ rw (e, e', IsBounded) tt
      | inr (callback, e') ↦
          rw (e, e', IsBounded) (refl, (refl, authorize-IsBounded origin callback provider))
    ]
  ]

  -- Each scenario asks for at most two requests, whatever the answers to them are.
  pub script-IsBounded :
      (origin : Text) (page_mode : AuthMode) (scenario : Scenario)
      → IsBounded 2 (script origin page_mode scenario)
  unfolding script use_demo_api_key_script IsBounded
  script-IsBounded origin page_mode (Scenario.demo_login name) = demo_login-IsBounded page_mode name
  script-IsBounded origin page_mode Scenario.prepare_sessions = sessions-IsBounded
  script-IsBounded origin page_mode Scenario.use_demo_api_key = (refl, (refl, (refl, tt)))
  script-IsBounded origin page_mode (Scenario.run_social provider) =
      social-IsBounded origin provider
