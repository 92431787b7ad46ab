-- ===== src/Guided/Passkeys.antt =====
-- The requests of the passkey flows, and what becomes of the page.
use dotnet_web_api_startpack.Prelude.{
  Bool, Text, lit, lookup, text_eq, ◌&&◌, ◌⊎◌, ◌∙◌, arith, ◌≤◌, List, [], ◌∷◌, true, false, Option,
  none, some, ◌>>=◌, ◌≡◌, refl, ap, All, Bool-cases, Option-cases, inl, inr, length, if◌then◌else◌,
}
use dotnet_web_api_startpack.Types.{ApiResult, EndpointDefinition}
use dotnet_web_api_startpack.Platform.{Platform}
use dotnet_web_api_startpack.Catalog.{endpoint_by_id, endpoints}
use dotnet_web_api_startpack.Workbench.State.{Workbench, Closure, RunRequestOptions}
use dotnet_web_api_startpack.Scenarios.{Deed, asked, play, is_ok}
use dotnet_web_api_startpack.Scenarios.Bounded.{IsBounded}
use dotnet_web_api_startpack.Scenarios.Performance.{Reply, perform}
use dotnet_web_api_startpack.Scenarios.Rest.{IsAtRest, IsSettled, AreStill}
use dotnet_web_api_startpack.Scenarios.Rest.Settled.{perform-IsSettled}
use dotnet_web_api_startpack.Browser.Passkey.{
  Authenticator, Ceremony, obtained, denied, Credential, is_web_authn_available, create_passkey,
  get_passkey, credential_to_json,
}
use dotnet_web_api_startpack.Json.{Json, obj, arr, str, field, end, entries}
use dotnet_web_api_startpack.Workbench.Capture.{get_property}
use dotnet_web_api_startpack.Catalog.Security.{passkey_registration_complete, passkey_auth_complete}
use dotnet_web_api_startpack.Guided.{
  Flow, flow_request, passkey_options, passkey_script, after_ceremony, get_record, options_of,
  registration, authentication,
}

-- The requests of a script.
abbrev pub requests : List Deed → List RunRequestOptions
requests [] = []
requests (asked options ∷ deeds) = options ∷ requests deeds
requests (_ ∷ deeds) = requests deeds

-- The credential that the authenticator gives for the options of the first answer, if any.
abbrev pub credential_of : Ceremony → Option Credential
credential_of (denied _) = none
credential_of (obtained credential) = some credential

abbrev pub credential_for : Authenticator → Flow → Option ApiResult → Option Credential
credential_for a flow first =
    passkey_options first >>= λ options. credential_of (flow.ceremony a options)

-- A request with a body and nothing else of its own.
abbrev pub posted : EndpointDefinition → Json → (display : Bool) → RunRequestOptions
posted endpoint body display = record {
  endpoint = endpoint;
  path = none;
  body = some body;
  headers = [];
  display = display;
  report_error = true;
  auth_mode = none;
}

-- The requests that complete a flow.
abbrev pub attested : Credential → RunRequestOptions
attested c =
    posted passkey_registration_complete
      (obj (
        field (lit "attestationResponse") (credential_to_json c)
          (field (lit "label") (str (lit "Workbench passkey")) end)))
      true

abbrev pub asserted : Credential → RunRequestOptions
asserted c =
    posted passkey_auth_complete (obj (field (lit "assertionResponse") (credential_to_json c) end))
      true

-- The options in an answer: its property of this name, if both are objects or arrays.
abbrev pub object_in : Option Json → Option Json
object_in (some (obj fs)) = some (obj fs)
object_in (some (arr items)) = some (arr items)
object_in _ = none

abbrev pub options_in : Json → Option Json
options_in (obj fs) = object_in (lookup (lit "options") (entries fs))
options_in _ = none

-- What a flow must send: nothing without an authenticator; else its first request, and the last one for
-- a credential.
abbrev pub completing : (Credential → RunRequestOptions) → Ceremony → List RunRequestOptions
completing complete (denied reason) = []
completing complete (obtained credential) = complete credential ∷ []

abbrev pub expected :
    (available : Bool)
    → RunRequestOptions
    → Option ApiResult
    → (Json → Ceremony)
    → (Credential → RunRequestOptions)
    → List RunRequestOptions
expected false start first ceremony complete = []
expected true start none ceremony complete = start ∷ []
expected true start (some result) ceremony complete = start ∷ elim result.ok [
  | false ↦ []
  | true ↦ elim (options_in result.json_data) [
    | none ↦ []
    | some options ↦ completing complete (ceremony options)
  ]
]

registration-found :
    endpoint_by_id (lit "passkey-registration-complete") ≡ some passkey_registration_complete
unfolding endpoint_by_id endpoints text_eq
registration-found = refl

authentication-found : endpoint_by_id (lit "passkey-auth-complete") ≡ some passkey_auth_complete
unfolding endpoint_by_id endpoints text_eq
authentication-found = refl

get_record-object_in : (o : Option Json) → get_record o ≡ object_in o
get_record-object_in o = ground arith

options_of-options_in :
    (result : ApiResult) → options_of (some result) ≡ options_in result.json_data
unfolding get_property
options_of-options_in result = elim (Option-cases (get_property (lit "options") result.json_data)) [
  | inl e ↦ ground arith
  | inr (value, e) ↦ ground (arith, get_record-object_in (some value))
]

expected-flow :
    (a : Authenticator) (flow : Flow) (endpoint complete : EndpointDefinition)
    (first : Option ApiResult)
    → (if is_web_authn_available a
        then flow_request endpoint flow.first_body false ∷ elim (credential_for a flow first) [
          | none ↦ []
          | some credential ↦ flow_request complete (flow.second_body credential) true ∷ []
        ]
        else [])
      ≡ expected
          (a.has_public_key && a.has_credentials)
          (posted endpoint flow.first_body false)
          first
          (flow.ceremony a)
          (λ c. posted complete (flow.second_body c) true)
expected-flow a flow endpoint complete none =
    elim (Bool-cases (a.has_public_key && a.has_credentials)) [
      | inl available ↦ rw available refl
      | inr missing ↦ rw missing refl
    ]
expected-flow a flow endpoint complete (some result) =
    elim (Bool-cases (a.has_public_key && a.has_credentials)) [
      | inr missing ↦ rw missing refl
      | inl available ↦ elim (Bool-cases result.ok) [
        | inr bad ↦ rw (available, bad) refl
        | inl good ↦ elim (Option-cases (options_in result.json_data)) [
          | inl e ↦ ground (arith, options_of-options_in result)
          | inr (options, e) ↦ elim (ceremony-cases (flow.ceremony a options)) [
            | inl (reason, e') ↦ ground (arith, options_of-options_in result)
            | inr (credential, e') ↦ ground (arith, options_of-options_in result)
          ]
        ]
      ]
    ]
  where
    ceremony-cases :
        (c : Ceremony)
        → ((reason : Option Text) × (c ≡ denied reason))
          ⊎ ((credential : Credential) × (c ≡ obtained credential))
    ceremony-cases (denied reason) = inl (reason, refl)
    ceremony-cases (obtained credential) = inr (credential, refl)

module _ ⦃p : Platform⦄ where
  requests-after_ceremony :
      (flow : Flow) (complete : EndpointDefinition) (c : Ceremony) (second : Option ApiResult)
      → requests (play (after_ceremony flow complete c) (second ∷ [])) ≡ elim (credential_of c) [
        | none ↦ []
        | some credential ↦ flow_request complete (flow.second_body credential) true ∷ []
      ]
  unfolding play
  requests-after_ceremony flow complete (denied reason) second = refl
  requests-after_ceremony flow complete (obtained credential) second =
      elim (Bool-cases (is_ok second)) [ inl good ↦ rw good refl | inr bad ↦ rw bad refl ]

  requests-flow :
      (a : Authenticator) (flow : Flow) (endpoint complete : EndpointDefinition)
      (first second : Option ApiResult)
      → endpoint_by_id flow.completion ≡ some complete
      → requests (play (passkey_script a flow endpoint) (first ∷ second ∷ [])) ≡ (
          if is_web_authn_available a
          then flow_request endpoint flow.first_body false ∷ elim (credential_for a flow first) [
            | none ↦ []
            | some credential ↦ flow_request complete (flow.second_body credential) true ∷ []
          ]
          else [])
  unfolding passkey_script play
  requests-flow a flow endpoint complete first second found =
      elim (Bool-cases (is_web_authn_available a)) [
        | inr no_authenticator ↦ rw (no_authenticator, passkey_script) refl
        | inl available ↦
            rw (available, passkey_script)
              (elim (Option-cases (passkey_options first)) [
                | inl e ↦ rw e refl
                | inr (options, e) ↦
                    rw (e, found)
                      (ap (λ rest. flow_request endpoint flow.first_body false ∷ rest)
                        (requests-after_ceremony flow complete (flow.ceremony a options) second))
              ])
      ]

  -- A passkey flow sends nothing where the browser has no PublicKeyCredential or no credentials. Elsewhere
  -- it asks the endpoint for options, with the label of a registration or an empty body, and shows
  -- nothing; and exactly when the answer is a success, its data are an object with a property options
  -- that is an object or an array, and the browser gives a credential for these, it sends the JSON of
  -- the credential to the endpoint that completes the flow, whatever that answers.
  pub requests-passkey_script :
      (a : Authenticator) (endpoint : EndpointDefinition) (first second : Option ApiResult)
      → (requests (play (passkey_script a registration endpoint) (first ∷ second ∷ []))
          ≡ expected
              (a.has_public_key && a.has_credentials)
              (posted endpoint
                (obj (field (lit "label") (str (lit "Workbench passkey")) end))
                false)
              first
              (create_passkey a)
              attested)
        × (requests (play (passkey_script a authentication endpoint) (first ∷ second ∷ []))
            ≡ expected
                (a.has_public_key && a.has_credentials)
                (posted endpoint (obj end) false)
                first
                (get_passkey a)
                asserted)
  requests-passkey_script a endpoint first second = (
    requests-flow a registration endpoint passkey_registration_complete first second
          registration-found
        ∙ expected-flow a registration endpoint passkey_registration_complete first,
    requests-flow a authentication endpoint passkey_auth_complete first second authentication-found
        ∙ expected-flow a authentication endpoint passkey_auth_complete first,
  )

  after_ceremony-IsBounded :
      (flow : Flow) (complete : EndpointDefinition) (c : Ceremony)
      → IsBounded 1 (after_ceremony flow complete c)
  unfolding IsBounded
  after_ceremony-IsBounded flow complete (denied reason) = (refl, tt)
  after_ceremony-IsBounded flow complete (obtained credential) = λ second.
      elim (Bool-cases (is_ok second)) [ inl good ↦ rw good (refl, tt) | inr bad ↦ rw bad tt ]

  passkey-IsBounded :
      (a : Authenticator) (flow : Flow) (endpoint : EndpointDefinition)
      → IsBounded 2 (passkey_script a flow endpoint)
  unfolding passkey_script IsBounded
  passkey-IsBounded a flow endpoint = elim (Bool-cases (is_web_authn_available a)) [
    | inr no_authenticator ↦ rw (no_authenticator, IsBounded) (refl, tt)
    | inl available ↦
        rw (available, IsBounded)
          (λ first. elim (Option-cases (passkey_options first)) [
            | inl e ↦ rw e (refl, tt)
            | inr (options, e) ↦ elim (Option-cases (endpoint_by_id flow.completion)) [
              | inl e' ↦ rw (e, e') (refl, tt)
              | inr (complete, e') ↦
                  rw (e, e') (after_ceremony-IsBounded flow complete (flow.ceremony a options))
            ]
          ])
  ]

  -- A passkey flow that is set off on a page at rest ends as a scenario does: after at most two
  -- requests, with the page at rest, or by an exception with no request waiting.
  pub passkey_script-IsSettled :
      (a : Authenticator) (flow : Flow) (endpoint : EndpointDefinition) (closure : Closure)
      (replies : List Reply) (w : Workbench)
      → 2 ≤ length replies
      → All (λ (r : Reply). AreStill r.meanwhile) replies
      → IsAtRest w
      → IsSettled
          (perform closure (passkey_script a flow endpoint) replies w).finish
          (perform closure (passkey_script a flow endpoint) replies w).workbench
  passkey_script-IsSettled a flow endpoint closure replies w enough still r =
      perform-IsSettled closure 2 (passkey_script a flow endpoint) replies w
        (passkey-IsBounded a flow endpoint) enough still r
