-- ===== src/Address.antt =====
-- `buildPath` and `buildPathFromDefinition` of playground-ui/src/features/workbench/domain.ts.
pub mod Replace
pub mod Fill
pub mod Query
use dotnet_web_api_startpack.Prelude.{
  Text, lit, List, [], ◌∷◌, ◌++◌, Bool, true, false, ◌&&◌, not, Option, none, some, ◌>>=◌, or_else,
  lookup, set_key, starts_with, if◌then◌else◌,
}
use dotnet_web_api_startpack.Types.{
  WorkbenchVariables, EndpointDefinition, EndpointParameter, RequestDraft,
}
use dotnet_web_api_startpack.Platform.{Platform}
use dotnet_web_api_startpack.Template.{is_empty, resolve_template_string, create_draft}
use dotnet_web_api_startpack.Uri.{encode_component, form_serialize}
use dotnet_web_api_startpack.Address.Replace.{replace_first}

abbrev pub placeholder : Text → Text
placeholder name = b'{' ∷ (name ++ lit "}")

abbrev pub with_query : Text → Text → Text
with_query path encoded = if is_empty encoded then path else path ++ (b'?' ∷ encoded)

module _ ⦃p : Platform⦄ (variables : WorkbenchVariables) where
  -- The value of a parameter: the draft's, or the definition's where the draft has none.
  unfoldable pub parameter_value : List (Text × Text) → EndpointParameter → Text
  parameter_value values parameter =
      resolve_template_string variables (or_else (lookup parameter.name values) parameter.value)

  -- The loop over `endpoint.pathParams`; `none` is the URIError of `encodeURIComponent`.
  unfoldable pub fill_path : List (Text × Text) → List EndpointParameter → Text → Option Text
  fill_path values [] path = some path
  fill_path values (parameter ∷ rest) path = do
    encoded ← encode_component (parameter_value values parameter)
    fill_path values rest (replace_first (placeholder parameter.name) encoded path)

  -- The loop over `endpoint.query`, on the entries of the `URLSearchParams`.
  unfoldable pub collect_query :
      List (Text × Text) → List EndpointParameter → List (Text × Text) → List (Text × Text)
  collect_query values [] query = query
  collect_query values (parameter ∷ rest) query =
      let value = parameter_value values parameter in
      collect_query values rest (
        if not (is_empty value) && not (starts_with (lit "{{") value)
        then set_key parameter.name value query
        else query)

  unfoldable pub build_path : EndpointDefinition → RequestDraft → Option Text
  build_path endpoint draft = do
    path ← fill_path draft.path_values endpoint.path_params endpoint.path
    some (with_query path (form_serialize (collect_query draft.query_values endpoint.query [])))

  unfoldable pub build_path_from_definition : EndpointDefinition → Option Text
  build_path_from_definition endpoint = build_path endpoint (create_draft variables endpoint)
