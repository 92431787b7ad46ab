-- ===== src/Load/Refresh.antt =====
-- One iteration of a virtual user, tests/load/refresh.js, and `refresh` of tests/load/mixed.js, which has
-- the same body over the pool of its data.
use dotnet_web_api_startpack.Prelude.{
  ℕ, zero, suc, lit, List, [], ◌∷◌, Bool, Option, none, some, ◌==◌, get_elem?, if◌then◌else◌,
}
use dotnet_web_api_startpack.Json.{Json, obj, field, end}
use dotnet_web_api_startpack.Platform.{Platform}
use dotnet_web_api_startpack.Load.{
  Env, Request, Response, Tokens, refresh_route, default_headers, url, is_truthy, parse_tokens,
}

-- The Error of a user without a session; a request whose response `parseTokens` throws at; a request
-- and whether it passes the check.
pub data Iteration : Type 0 where
  unprepared : Iteration
  unread : Request → Iteration
  refreshed : Request → Bool → Iteration

-- `pool[__VU - 1]`
abbrev pub prepared : List Tokens → ℕ → Option Tokens
prepared pool zero = none
prepared pool (suc i) = get_elem? pool i

-- `tokens ||= pool[__VU - 1]`: an object counts as true, also an empty one.
abbrev pub chosen : List Tokens → ℕ → Option Tokens → Option Tokens
chosen pool vu none = prepared pool vu
chosen pool vu (some tokens) = some tokens

-- `tokens.refreshToken`, if it counts as true.
abbrev pub truthy_value : Option Json → Option Json
truthy_value none = none
truthy_value (some v) = if is_truthy (some v) then some v else none

abbrev pub sent_by : Iteration → List Request → List Request
sent_by unprepared rest = rest
sent_by (unread request) rest = request ∷ rest
sent_by (refreshed request _) rest = request ∷ rest

module _ ⦃p : Platform⦄ (env : Env) where
  abbrev pub refresh_request : Json → Request
  refresh_request token = record {
    method = lit "POST";
    url = url env refresh_route;
    body = some (p.json_stringify (obj (field (lit "refreshToken") token end)));
    headers = default_headers;
    operation = lit "refresh";
  }

  -- What the iteration does with a session; the response is the one to its request, if it sends one.
  unfoldable pub rotate : Tokens → Response → Option Tokens × Iteration
  rotate tokens response = elim (truthy_value tokens.refresh_token) [
    | none ↦ (some tokens, unprepared)
    | some token ↦ elim (parse_tokens response) [
      | none ↦ (some tokens, unread (refresh_request token))
      | some fresh ↦ (some fresh, refreshed (refresh_request token) (response.status == 200))
    ]
  ]

  -- The default function; the state is the variable `tokens`.
  unfoldable pub iterate : List Tokens → ℕ → Option Tokens → Response → Option Tokens × Iteration
  iterate pool vu state response = elim (chosen pool vu state) [
    | none ↦ (none, unprepared)
    | some tokens ↦ rotate tokens response
  ]

  -- The requests that a user sends in as many iterations as there are responses.
  unfoldable pub sent : List Tokens → ℕ → Option Tokens → List Response → List Request
  sent pool vu state [] = []
  sent pool vu state (response ∷ responses) =
      let step = iterate pool vu state response in sent_by step.1 (sent pool vu step.0 responses)
