-- ===== src/Curl.antt =====
-- `createCurl` and `shellEscape` of playground-ui/src/features/workbench/domain.ts.
pub mod Shell
pub mod Words
use dotnet_web_api_startpack.Prelude.{
  Text, lit, List, [], ◌∷◌, ◌++◌, map, Option, none, some, ◌==◌, join, if◌then◌else◌,
}
use dotnet_web_api_startpack.Json.{Json}
use dotnet_web_api_startpack.Types.{EndpointDefinition, method_text}
use dotnet_web_api_startpack.Platform.{Platform}
use dotnet_web_api_startpack.Template.{is_empty}

-- `ApiRequestInput` without its `authMode`; a body of `none` is `undefined`.
pub record CurlInput : Type 0 where
  pub api_base : Text
  pub endpoint : EndpointDefinition
  pub path : Text
  pub body : Option Json
  pub headers : List (Text × Text)

-- `shellEscape`
unfoldable pub shell_escape : Text → Text
shell_escape [] = []
shell_escape (c ∷ s) =
    let rest = shell_escape s in if c == 39 then lit "'\"'\"'" ++ rest else c ∷ rest

-- A backslash at the end of a line, and the indentation of the next.
abbrev pub line_break : Text
line_break = lit " \\\n  "

abbrev pub quoted : Text → Text
quoted s = 39 ∷ (shell_escape s ++ (39 ∷ []))

abbrev pub header_line : Text × Text → Text
header_line (name, value) = name ++ (lit ": " ++ value)

abbrev pub header_argument : Text × Text → Text
header_argument header = lit "-H " ++ quoted (header_line header)

-- `createCurl`
unfoldable pub create_curl : ⦃p : Platform⦄ → CurlInput → Text
create_curl ⦃p⦄ input =
    let header_arguments = join line_break (map header_argument input.headers) in
    let body_argument : Text = elim input.body [
      | none ↦ []
      | some body ↦ line_break ++ (lit "--data " ++ quoted (p.json_stringify body))
    ] in
    lit "curl -i -X "
    ++ (method_text input.endpoint.method
        ++ (lit " "
            ++ (quoted (input.api_base ++ input.path)
                ++ ((if is_empty header_arguments then [] else line_break ++ header_arguments)
                    ++ body_argument))))
