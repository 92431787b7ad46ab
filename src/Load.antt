-- ===== src/Load.antt =====
-- The load tests, tests/load/config.js: the address, the requests, and what a response says of tokens.
pub mod Pool
pub mod Sizes
pub mod Refresh
pub mod Rotation
pub mod Runs
pub mod Options
use dotnet_web_api_startpack.Prelude.{
  ℕ, Text, lit, List, [], ◌∷◌, ◌++◌, Bool, true, false, not, Option, none, some, ◌==◌, text_eq,
  if◌then◌else◌,
}
use dotnet_web_api_startpack.Json.{Json, null, bool, num, str, arr, obj, field, end}
use dotnet_web_api_startpack.Platform.{Platform}
use dotnet_web_api_startpack.Template.{is_empty}
use dotnet_web_api_startpack.Workbench.Capture.{get_property}

-- The environment variables of a run; one that is not set is the empty text.
pub record Env : Type 0 where
  pub base_url : Text
  pub test_email : Text
  pub test_password : Text

pub record Request : Type 0 where
  pub method : Text
  pub url : Text
  pub body : Option Text
  pub headers : List (Text × Text)
  pub operation : Text

-- `json` is what `response.json()` gives, with `none` for its exception.
pub record Response : Type 0 where
  pub status : ℕ
  pub json : Option Json

-- An absent property is undefined.
pub record Tokens : Type 0 where
  pub access_token : Option Json
  pub refresh_token : Option Json

-- `text || other`
abbrev pub or_text : Text → Text → Text
or_text text other = if is_empty text then other else text

-- `text.replace(/\/$/, '')`
unfoldable pub drop_slash : Text → Text
drop_slash [] = []
drop_slash (c ∷ s) =
    let rest = drop_slash s in if c == b'/' then (elim s [ [] ↦ [] | _ ↦ c ∷ rest ]) else c ∷ rest

abbrev pub base_url : Env → Text
base_url env = drop_slash (or_text env.base_url (lit "http://localhost:5035"))

abbrev pub email : Env → Text
email env = or_text env.test_email (lit "user@localhost.dev")

abbrev pub password : Env → Text
password env = or_text env.test_password (lit "Dev_User_Password_1!")

abbrev pub default_headers : List (Text × Text)
default_headers = (lit "Content-Type", lit "application/json") ∷ []

-- `routes`
abbrev pub login_route : Text
login_route = lit "/api/v1/auth/login"

abbrev pub refresh_route : Text
refresh_route = lit "/api/v1/auth/refresh"

abbrev pub me_route : Text
me_route = lit "/api/v1/users/me"

abbrev pub url : Env → Text → Text
url env route = base_url env ++ route

-- A value counts as true; a number is kept by the text that the language prints for it.
abbrev pub is_truthy : Option Json → Bool
is_truthy none = false
is_truthy (some null) = false
is_truthy (some (bool b)) = b
is_truthy (some (num n)) = not (text_eq n (lit "0"))
is_truthy (some (str s)) = not (is_empty s)
is_truthy (some (arr _)) = true
is_truthy (some (obj _)) = true

abbrev pub no_tokens : Tokens
no_tokens = record { access_token = none; refresh_token = none }

abbrev pub read_tokens : Json → Option Tokens
read_tokens null = none
read_tokens body = some (record {
  access_token = get_property (lit "accessToken") body;
  refresh_token = get_property (lit "refreshToken") body;
})

-- `parseTokens`; `none` is an exception: the body is no JSON, or null.
unfoldable pub parse_tokens : Response → Option Tokens
parse_tokens response =
    if response.status == 200
    then elim response.json [ none ↦ none | some body ↦ read_tokens body ]
    else some no_tokens

module _ ⦃p : Platform⦄ (env : Env) where
  -- `loginBody`
  abbrev pub login_body : Text
  login_body = p.json_stringify (
      obj (field (lit "email") (str (email env)) (field (lit "password") (str (password env)) end)))

  -- `login`
  unfoldable pub login : Text → Request
  login operation = record {
    method = lit "POST";
    url = url env login_route;
    body = some login_body;
    headers = default_headers;
    operation = operation;
  }
