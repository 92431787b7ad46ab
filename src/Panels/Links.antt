-- ===== src/Panels/Links.antt =====
-- No way through the program leads to a page that is not found.
use dotnet_web_api_startpack.Prelude.{
  Text, lit, ◌&&◌, not, Bool, true, false, Option, none, some, ◌≡◌, refl, Bool-cases, Option-cases,
  inl, inr, ◌==◌, text_eq,
}
use dotnet_web_api_startpack.Types.{AuthMode, bearer, cookie, ApiResult, EndpointDefinition}
use dotnet_web_api_startpack.Platform.{Platform}
use dotnet_web_api_startpack.Catalog.{endpoint_by_id, endpoints}
use dotnet_web_api_startpack.Catalog.Ids.{endpoint_by_id-eq-some_iff}
use dotnet_web_api_startpack.Scenarios.{
  Script, Scenario, script, ensure_csrf, ensure_csrf_in, AccountName, Provider, login_mode,
  demo_login_script, prepare_sessions_script, use_demo_api_key_script, run_social_script,
  after_login, after_authorize, authorization_url, is_ok,
}
use dotnet_web_api_startpack.Browser.Passkey.{
  Authenticator, Ceremony, obtained, denied, is_web_authn_available,
}
use dotnet_web_api_startpack.Guided.{Flow, passkey_options, passkey_script, after_ceremony}
use dotnet_web_api_startpack.Panels.Screen.{Location, Page, not_found, open_page, navigate_endpoint}

abbrev pub is_page : Page → Bool
is_page not_found = false
is_page _ = true

-- The page to which the identifier leads from a location.
abbrev pub IsOpened : Location → Text → Type 0
IsOpened location id = is_page (open_page (navigate_endpoint id location)) ≡ true

-- Every endpoint to which the script may navigate, whatever the answers, can be opened.
unfoldable pub IsLinked : Location → Script → Type 0
IsLinked location Script.finished = Unit
IsLinked location Script.failed = Unit
IsLinked location (Script.emit event rest) = IsLinked location rest
IsLinked location (Script.navigate id rest) = IsOpened location id × IsLinked location rest
IsLinked location (Script.ask options rest) = (a : Option ApiResult) → IsLinked location (rest a)

-- An endpoint that was looked up is found again by its own identifier.
found-IsOpened :
    (location : Location) (id : Text) (endpoint : EndpointDefinition)
    → endpoint_by_id id ≡ some endpoint
    → IsOpened location endpoint.id
unfolding open_page navigate_endpoint
found-IsOpened location id endpoint e =
    let (listed, same) = (endpoint_by_id-eq-some_iff id endpoint).0 e in
    let again = (endpoint_by_id-eq-some_iff endpoint.id endpoint).1 (listed, refl) in
    rw (again, IsOpened, navigate_endpoint, open_page, is_page) refl

sessions-IsOpened : (location : Location) → IsOpened location (lit "sessions-list")
unfolding open_page navigate_endpoint endpoint_by_id endpoints text_eq
sessions-IsOpened location = refl

csrf-IsLinked : (location : Location) (mode : AuthMode) → IsLinked location (ensure_csrf_in mode)
unfolding IsLinked ensure_csrf
csrf-IsLinked location bearer = tt
csrf-IsLinked location AuthMode.api_key = tt
csrf-IsLinked location cookie = elim (Option-cases (endpoint_by_id (lit "auth-csrf"))) [
  | inl e ↦ rw (e, IsLinked) tt
  | inr (csrf, e) ↦ rw (e, IsLinked) (λ a. tt)
]

module _ ⦃p : Platform⦄ (location : Location) where
  login-IsLinked :
      (name : AccountName) (mode : AuthMode) (a : Option ApiResult)
      → IsLinked location (after_login name mode a)
  unfolding IsLinked
  login-IsLinked name mode none = tt
  login-IsLinked name mode (some result) =
      elim (Bool-cases (result.ok && not (result.status == 202))) [
        | inl e ↦ rw (e, IsLinked) (csrf-IsLinked location mode)
        | inr e ↦ elim (Bool-cases (result.status == 202)) [
          | inl e' ↦ rw (e, e', IsLinked) tt
          | inr e' ↦ rw (e, e', IsLinked) tt
        ]
      ]

  demo_login-IsLinked :
      (page_mode : AuthMode) (name : AccountName)
      → IsLinked location (demo_login_script page_mode name)
  unfolding demo_login_script IsLinked
  demo_login-IsLinked page_mode name = elim (Option-cases (endpoint_by_id (lit "auth-login"))) [
    | inl e ↦ rw (e, IsLinked) tt
    | inr (login, e) ↦
        rw (e, IsLinked)
          (
            found-IsOpened location (lit "auth-login") login e,
            login-IsLinked name (login_mode page_mode),
          )
  ]

  sessions-IsLinked : IsLinked location prepare_sessions_script
  unfolding prepare_sessions_script IsLinked
  sessions-IsLinked = elim (Option-cases (endpoint_by_id (lit "auth-login"))) [
    | inl e ↦ rw (e, IsLinked) tt
    | inr (login, e) ↦
        rw (e, IsLinked)
          (λ first. elim (Bool-cases (is_ok first)) [
            | inr bad ↦ rw bad tt
            | inl good ↦ rw good (λ second. elim (Bool-cases (is_ok second)) [
              | inl good' ↦ rw good' (sessions-IsOpened location, tt)
              | inr bad' ↦ rw bad' tt
            ])
          ])
  ]

  authorize-IsLinked :
      (origin : Text) (callback : EndpointDefinition) (provider : Provider)
      → IsOpened location callback.id
      → (first : Option ApiResult)
      → IsLinked location (after_authorize origin callback provider first)
  unfolding IsLinked
  authorize-IsLinked origin callback provider opened first =
      elim (Option-cases (authorization_url first)) [
        | inl e ↦ rw (e, IsLinked) tt
        | inr (text, e) ↦ elim (Option-cases (p.parse_url text origin)) [
          | inl e' ↦ rw (e, e', IsLinked) tt
          | inr (url, e') ↦
              rw (e, e', IsLinked)
                (
                  opened,
                  λ second. elim (Bool-cases (is_ok second)) [
                    | inl good ↦ rw good tt
                    | inr bad ↦ rw bad tt
                  ],
                )
        ]
      ]

  social-IsLinked :
      (origin : Text) (provider : Provider) → IsLinked location (run_social_script origin provider)
  unfolding run_social_script IsLinked
  social-IsLinked origin provider = elim (Option-cases (endpoint_by_id (lit "social-authorize"))) [
    | inl e ↦ rw (e, IsLinked) tt
    | inr (authorize, e) ↦ elim (Option-cases (endpoint_by_id (lit "social-callback"))) [
      | inl e' ↦ rw (e, e', IsLinked) tt
      | inr (callback, e') ↦
          rw (e, e', IsLinked)
            (authorize-IsLinked origin callback provider
              (found-IsOpened location (lit "social-callback") callback e'))
    ]
  ]

  pub script-IsLinked :
      (origin : Text) (page_mode : AuthMode) (scenario : Scenario)
      → IsLinked location (script origin page_mode scenario)
  unfolding script use_demo_api_key_script IsLinked
  script-IsLinked origin page_mode (Scenario.demo_login name) = demo_login-IsLinked page_mode name
  script-IsLinked origin page_mode Scenario.prepare_sessions = sessions-IsLinked
  script-IsLinked origin page_mode Scenario.use_demo_api_key = tt
  script-IsLinked origin page_mode (Scenario.run_social provider) = social-IsLinked origin provider

  ceremony-IsLinked :
      (flow : Flow) (complete : EndpointDefinition) (c : Ceremony)
      → IsOpened location complete.id
      → IsLinked location (after_ceremony flow complete c)
  unfolding IsLinked
  ceremony-IsLinked flow complete (denied reason) opened = tt
  ceremony-IsLinked flow complete (obtained credential) opened = (
    opened,
    λ second. elim (Bool-cases (is_ok second)) [ inl good ↦ rw good tt | inr bad ↦ rw bad tt ],
  )

  pub passkey-IsLinked :
      (a : Authenticator) (flow : Flow) (endpoint : EndpointDefinition)
      → IsLinked location (passkey_script a flow endpoint)
  unfolding passkey_script IsLinked
  passkey-IsLinked a flow endpoint = elim (Bool-cases (is_web_authn_available a)) [
    | inr no_authenticator ↦ rw (no_authenticator, IsLinked) tt
    | inl available ↦
        rw (available, IsLinked)
          (λ first. elim (Option-cases (passkey_options first)) [
            | inl e ↦ rw e tt
            | inr (options, e) ↦ elim (Option-cases (endpoint_by_id flow.completion)) [
              | inl e' ↦ rw (e, e') tt
              | inr (complete, e') ↦
                  rw (e, e')
                    (ceremony-IsLinked flow complete (flow.ceremony a options)
                      (found-IsOpened location flow.completion complete e'))
            ]
          ])
  ]
