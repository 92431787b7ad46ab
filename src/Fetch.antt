-- ===== src/Fetch.antt =====
-- `requestEndpoint`, `probeService`, `parseRequestBody`, `parseResponse`, `formatResponse` and
-- `countOpenApiOperations` of playground-ui/src/features/workbench/domain.ts. The network is outside:
-- a call of `fetch` is the request that is made and the outcome that comes back.
pub mod Bodies
use dotnet_web_api_startpack.Prelude.{
  ℕ, ◌+◌, Text, lit, List, [], ◌∷◌, ◌++◌, map, Bool, true, false, Option, none, some, or_else,
  length, filter, lookup, member, text_eq, if◌then◌else◌,
}
use dotnet_web_api_startpack.Json.{
  Json, null, bool, num, str, arr, obj, Items, Fields, nil, cons, end, field, entries, items,
}
use dotnet_web_api_startpack.Types.{
  EndpointDefinition, AuthMode, cookie, ApiResult, WorkbenchVariables, method_text,
}
use dotnet_web_api_startpack.Platform.{Platform}
use dotnet_web_api_startpack.Template.{is_empty, materialize}

-- `ApiRequestInput`
pub record ApiRequestInput : Type 0 where
  pub api_base : Text
  pub endpoint : EndpointDefinition
  pub path : Text
  pub body : Option Json
  pub headers : List (Text × Text)
  pub auth_mode : AuthMode

-- The arguments of `fetch`; `include` says that cookies are sent.
pub record FetchRequest : Type 0 where
  pub url : Text
  pub method : Text
  pub headers : List (Text × Text)
  pub body : Option Text
  pub include : Bool

abbrev pub sends_cookies : AuthMode → Bool
sends_cookies cookie = true
sends_cookies _ = false

-- What `response.text()` or `fetch` gives: a value, or the reason of its failure.
pub data Attempt (A : Type 0) : Type 0 where
  done : A → Attempt A
  failed : Text → Attempt A

pub record Response : Type 0 where
  pub status : ℕ
  pub status_text : Text
  pub ok : Bool
  pub headers : List (Text × Text)
  pub text : Attempt Text

-- How an Effect ends: with a value, with a NetworkRequestError's reason, or interrupted.
pub data Exit (A : Type 0) : Type 0 where
  success : A → Exit A
  failure : Text → Exit A
  interrupted : Exit A

-- The text of a body, and the result of parsing one; `invalid_json` is the InvalidJsonError.
pub data ParsedBody : Type 0 where
  parsed : Option Json → ParsedBody
  invalid_json : ParsedBody

abbrev pub or_braces : Text → Text
or_braces [] = lit "{}"
or_braces (c ∷ s) = c ∷ s

abbrev pub is_object : Json → Bool
is_object (arr _) = true
is_object (obj _) = true
is_object _ = false

module _ ⦃p : Platform⦄ where
  unfoldable pub fetch_request : ApiRequestInput → FetchRequest
  fetch_request input = record {
    url = input.api_base ++ input.path;
    method = method_text input.endpoint.method;
    headers = input.headers;
    body = elim input.body [ none ↦ none | some body ↦ some (p.json_stringify body) ];
    include = sends_cookies input.auth_mode;
  }

  -- `parseResponse`
  unfoldable pub parse_response : Text → Json
  parse_response raw = if is_empty raw then null else or_else (p.json_parse raw) (str raw)

  -- The rest of `requestEndpoint`, from the outcome of its `fetch`.
  unfoldable pub request_result : ℕ → Attempt Response → Exit ApiResult
  request_result elapsed (failed reason) = failure reason
  request_result elapsed (done response) = elim response.text [
    | failed reason ↦ failure reason
    | done raw ↦ success (record {
      status = response.status;
      status_text = response.status_text;
      ok = response.ok;
      raw = raw;
      json_data = parse_response raw;
      elapsed_ms = elapsed;
      headers = response.headers;
    })
  ]

  -- `parseRequestBody`
  unfoldable pub parse_request_body : EndpointDefinition → Text → WorkbenchVariables → ParsedBody
  parse_request_body endpoint body_text variables = elim endpoint.body [
    | none ↦ parsed none
    | some _ ↦ elim (p.json_parse (or_braces body_text)) [
      | none ↦ invalid_json
      | some value ↦ parsed (some (materialize variables value))
    ]
  ]

  -- `formatResponse`
  unfoldable pub format_response : ApiResult → Text → Text
  format_response result empty_label =
      if is_empty result.raw
      then empty_label
      else if is_object result.json_data
      then p.json_indent result.json_data
      else result.raw

-- The names that `countOpenApiOperations` counts.
abbrev pub operation_methods : List Text
operation_methods = lit "get" ∷ lit "post" ∷ lit "put" ∷ lit "patch" ∷ lit "delete" ∷ []

abbrev pub field_names : Fields → List Text
field_names end = []
field_names (field key child fs) = key ∷ field_names fs

unfoldable pub count_item : Json → ℕ
unfolding member text_eq
count_item (obj fs) = length (filter (λ name. member name operation_methods) (field_names fs))
count_item _ = 0

unfoldable pub count_items : List Json → ℕ
unfolding count_item
count_items [] = 0
count_items (item ∷ rest) = count_item item + count_items rest

abbrev pub values : Fields → List Json
values end = []
values (field key child fs) = child ∷ values fs

-- `countOpenApiOperations`
unfoldable pub count_open_api_operations : Json → ℕ
unfolding count_items lookup text_eq
count_open_api_operations (obj fs) = elim (lookup (lit "paths") (entries fs)) [
  | some (obj paths) ↦ count_items (values paths)
  | some (arr paths) ↦ count_items (items paths)
  | _ ↦ 0
]
count_open_api_operations _ = 0

-- `ProbeResult`
pub record ProbeResult : Type 0 where
  pub ok : Bool
  pub operation_count : Option ℕ

-- The response of a probe: its status, and what `response.json()` gives.
pub record ProbeResponse : Type 0 where
  pub ok : Bool
  pub status : Text
  pub json : Option Json

-- `probeService`, from the outcome of its `fetch`; the status is its decimal text.
unfoldable pub probe_service : Bool → Attempt ProbeResponse → Exit ProbeResult
probe_service is_open_api (failed reason) = failure reason
probe_service is_open_api (done response) =
    if response.ok
    then (if is_open_api
        then (elim response.json [
          | none ↦ failure (lit "Invalid OpenAPI document")
          | some document ↦
              success
                (record { ok = true; operation_count = some (count_open_api_operations document) })
        ])
        else success (record { ok = true; operation_count = none }))
    else failure (lit "HTTP " ++ response.status)
