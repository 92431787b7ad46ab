-- ===== src/Fetch/Bodies.antt =====
-- The texts of bodies and responses, and the values that they stand for.
use dotnet_web_api_startpack.Prelude.{
  Text, [], ◌∷◌, none, some, ◌≡◌, ◌≢◌, refl, ap, arith, if◌then◌else◌,
}
use dotnet_web_api_startpack.Json.{Json}
use dotnet_web_api_startpack.Types.{EndpointDefinition, ApiResult, WorkbenchVariables}
use dotnet_web_api_startpack.Platform.{Platform, ReadsBack}
use dotnet_web_api_startpack.Template.{is_empty, materialize, create_draft}
use dotnet_web_api_startpack.Fetch.{
  done, Response, success, parsed, or_braces, is_object, parse_request_body, parse_response,
  request_result, format_response,
}

module _ ⦃p : Platform⦄ where
  pub indent-ne : (v : Json) → ReadsBack p v → p.json_indent v ≢ []
  indent-ne v reads e = cc (ap p.json_parse e, reads.parse-indent, reads.parse-empty)

  pub or_braces_of_ne : (t : Text) → t ≢ [] → or_braces t ≡ t
  or_braces_of_ne [] h = absurd (h refl)
  or_braces_of_ne (c ∷ t) h = refl

  -- Sending a fresh draft of an endpoint with a body sends that body, materialised once when the
  -- draft is made and once more when it is sent, if JSON reads back the body of the draft.
  pub parse_request_body-create_draft :
      (endpoint : EndpointDefinition) (variables : WorkbenchVariables) (body : Json)
      → endpoint.body ≡ some body
      → ReadsBack p (materialize variables body)
      → parse_request_body endpoint (create_draft variables endpoint).body_text variables
        ≡ parsed (some (materialize variables (materialize variables body)))
  unfolding parse_request_body create_draft
  parse_request_body-create_draft endpoint variables body e reads =
      let v = materialize variables body in
      ground (arith, e, or_braces_of_ne (p.json_indent v) (indent-ne v reads), reads.parse-indent)

  -- A response is displayed as the indented JSON of its data if it is a JSON object or array, and as
  -- its own text otherwise; an empty one as the given label.
  pub format_response-request_result :
      (elapsed : _) (response : Response) (raw label : Text) (result : ApiResult)
      → response.text ≡ done raw
      → request_result elapsed (done response) ≡ success result
      → format_response result label ≡ (
          if is_empty raw then label else elim (p.json_parse raw) [
            | none ↦ raw
            | some value ↦ if is_object value then p.json_indent value else raw
          ])
  unfolding format_response request_result parse_response
  format_response-request_result elapsed response raw label result text h = ground arith
