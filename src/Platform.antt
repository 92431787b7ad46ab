-- ===== src/Platform.antt =====
-- What the workbench takes from the JavaScript engine, the browser and generated code.
use dotnet_web_api_startpack.Prelude.{Text, lit, List, [], ◌∷◌, Option, none, some, ◌≡◌}
use dotnet_web_api_startpack.Json.{Json}

-- `native_source name` is the text of the built-in function at `Object.prototype[name]`;
-- `json_parse` is `JSON.parse` with `none` for its SyntaxError; `json_stringify v` is
-- `JSON.stringify(v)`, and `json_indent v` is `JSON.stringify(v, null, 2)`.
-- `message key values` is the text of the generated function `m.key(values)`; `parse_url text base` is
-- `new URL(text, base)`, with `none` for its TypeError.
pub record Url : Type 0 where
  pub pathname : Text
  pub search : Text
  pub search_params : List (Text × Text)

pub record Platform : Type 0 where
  pub native_source : Text → Text
  pub json_parse : Text → Option Json
  pub json_stringify : Json → Text
  pub json_indent : Json → Text
  pub message : Text → List (Text × Text) → Text
  pub parse_url : Text → Text → Option Url

-- `JSON.parse` reads back what `JSON.stringify` wrote for this value, and refuses the empty text.
pub record ReadsBack (p : Platform) (v : Json) : Type 0 where
  pub parse-stringify : p.json_parse (p.json_stringify v) ≡ some v
  pub parse-indent : p.json_parse (p.json_indent v) ≡ some v
  pub parse-empty : p.json_parse [] ≡ none

-- The properties of `Object.prototype` whose names are words of letters.
abbrev pub inherited_names : List Text
inherited_names =
    lit "constructor"
    ∷ lit "hasOwnProperty"
    ∷ lit "isPrototypeOf"
    ∷ lit "propertyIsEnumerable"
    ∷ lit "toLocaleString"
    ∷ lit "toString"
    ∷ lit "valueOf"
    ∷ []
