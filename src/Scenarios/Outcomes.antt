-- ===== src/Scenarios/Outcomes.antt =====
-- What the scenarios do with the answers to their requests.
use dotnet_web_api_startpack.Prelude.{
  Text, lit, List, [], ◌∷◌, ◌++◌, ◌&&◌, Option, none, some, ◌≡◌, refl, ap, ◌∙◌, arith, true, false,
  lookup, Bool-cases, Option-cases, inl, inr, text_eq, if◌then◌else◌,
}
use dotnet_web_api_startpack.Json.{Json, str, obj, entries}
use dotnet_web_api_startpack.Workbench.Capture.{get_property, get_string}
use dotnet_web_api_startpack.Types.{ApiResult, EndpointDefinition}
use dotnet_web_api_startpack.Platform.{Platform}
use dotnet_web_api_startpack.Catalog.{endpoint_by_id, endpoints}
use dotnet_web_api_startpack.Scenarios.{
  Deed, went, asked, play, Provider, prepare_sessions_script, run_social_script, is_ok,
  authorization_url, social_start,
}

login-found : (login : EndpointDefinition) × (endpoint_by_id (lit "auth-login") ≡ some login)
unfolding endpoint_by_id endpoints text_eq
login-found = (_, refl)

authorize-found :
    (authorize : EndpointDefinition) × (endpoint_by_id (lit "social-authorize") ≡ some authorize)
unfolding endpoint_by_id endpoints text_eq
authorize-found = (_, refl)

callback-found :
    (callback : EndpointDefinition) × (endpoint_by_id (lit "social-callback") ≡ some callback)
unfolding endpoint_by_id endpoints text_eq
callback-found = (_, refl)

-- The endpoints to which a script navigates, and the paths of its requests.
abbrev pub visited : List Deed → List Text
visited [] = []
visited (went id ∷ deeds) = id ∷ visited deeds
visited (_ ∷ deeds) = visited deeds

abbrev pub paths : List Deed → List (Option Text)
paths [] = []
paths (asked options ∷ deeds) = options.path ∷ paths deeds
paths (_ ∷ deeds) = paths deeds

-- The address of the authorization.
abbrev pub authorize_path : Provider → Text
authorize_path Provider.google = lit "/api/v1/auth/social/google/authorize"
authorize_path Provider.github = lit "/api/v1/auth/social/github/authorize"

-- The text that an object has under a key.
abbrev pub text_of : Option Json → Option Text
text_of (some (str text)) = some text
text_of _ = none

abbrev pub text_in : Text → Json → Option Text
text_in key (obj fs) = text_of (lookup key (entries fs))
text_in key _ = none

get_string-text_in : (key : Text) (value : Json) → get_string key value ≡ text_in key value
unfolding get_property
get_string-text_in key (obj fs) = elim (Option-cases (lookup key (entries fs))) [
  | inl e ↦ ground arith
  | inr (value, e) ↦ ground arith
]
get_string-text_in key value = ground arith

module _ ⦃p : Platform⦄ where
  -- Preparing sessions leads to the list of sessions exactly when both of its logins are answered
  -- with success, and nowhere else.
  pub visited-prepare_sessions :
      (first second : Option ApiResult)
      → visited (play prepare_sessions_script (first ∷ second ∷ []))
        ≡ (if is_ok first && is_ok second then lit "sessions-list" ∷ [] else [])
  unfolding prepare_sessions_script play
  visited-prepare_sessions first second =
      rw (login-found.1, prepare_sessions_script)
        (elim (Bool-cases (is_ok first)) [
          | inr bad ↦ rw bad refl
          | inl good ↦ elim (Bool-cases (is_ok second)) [
            | inl good' ↦ rw (good, good') refl
            | inr bad' ↦ rw (good, bad') refl
          ]
        ])

  start-authorize_path : (provider : Provider) → social_start provider ≡ authorize_path provider
  start-authorize_path Provider.google = refl
  start-authorize_path Provider.github = refl

  paths-run :
      (origin : Text) (provider : Provider) (first second : Option ApiResult)
      → paths (play (run_social_script origin provider) (first ∷ second ∷ []))
        ≡ some (social_start provider) ∷ elim (authorization_url first) [
          | none ↦ []
          | some text ↦ elim (p.parse_url text origin) [
            | none ↦ []
            | some url ↦ some (url.pathname ++ url.search) ∷ []
          ]
        ]
  unfolding run_social_script play
  paths-run origin provider first second =
      rw (authorize-found.1, callback-found.1, run_social_script)
        (elim (Option-cases (authorization_url first)) [
          | inl e ↦ rw e refl
          | inr (text, e) ↦ elim (Option-cases (p.parse_url text origin)) [
            | inl e' ↦ rw (e, e') refl
            | inr (url, e') ↦ elim (Bool-cases (is_ok second)) [
              | inl good ↦ rw (e, e', good) refl
              | inr bad ↦ rw (e, e', bad) refl
            ]
          ]
        ])

  -- The path that the second request must have, for the answer to the first.
  abbrev pub callback_path : (origin : Text) → ApiResult → Option Text
  callback_path origin result = elim result.ok [
    | false ↦ none
    | true ↦ elim (text_in (lit "authorizationUrl") result.json_data) [
      | none ↦ none
      | some text ↦ elim (p.parse_url text origin) [
        | none ↦ none
        | some url ↦ some (url.pathname ++ url.search)
      ]
    ]
  ]

  abbrev pub path_after : (origin : Text) → Option ApiResult → List (Option Text)
  path_after origin none = []
  path_after origin (some result) = elim (callback_path origin result) [
    | none ↦ []
    | some path ↦ some path ∷ []
  ]

  -- The social sign-in first asks for the authorization of its provider. Exactly when the answer is a
  -- success, and its data are an object whose property authorizationUrl is a text that parses as a URL
  -- on the page's origin, it makes a second request, for the path and the query of that URL, whatever
  -- its host.
  pub paths-run_social :
      (origin : Text) (provider : Provider) (first second : Option ApiResult)
      → paths (play (run_social_script origin provider) (first ∷ second ∷ []))
        ≡ some (authorize_path provider) ∷ path_after origin first
  paths-run_social origin provider none second =
      paths-run origin provider none second ∙ ap (λ t. some t ∷ []) (start-authorize_path provider)
  paths-run_social origin provider (some result) second =
      paths-run origin provider (some result) second
      ∙ (let same = get_string-text_in (lit "authorizationUrl") result.json_data in
          elim (Bool-cases result.ok) [
            | inr bad ↦ ground (arith, start-authorize_path provider)
            | inl good ↦ elim (Option-cases (text_in (lit "authorizationUrl") result.json_data)) [
              | inl e ↦ ground (arith, start-authorize_path provider, same)
              | inr (text, e) ↦ elim (Option-cases (p.parse_url text origin)) [
                | inl e' ↦ ground (arith, start-authorize_path provider, same)
                | inr (url, e') ↦ ground (arith, start-authorize_path provider, same)
              ]
            ]
          ])
