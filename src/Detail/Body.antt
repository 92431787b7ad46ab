-- ===== src/Detail/Body.antt =====
-- What formatting the body in the endpoint panel does to the request.
use dotnet_web_api_startpack.Prelude.{Text, [], some, ◌≡◌, ◌≢◌, ap, arith}
use dotnet_web_api_startpack.Json.{Json}
use dotnet_web_api_startpack.Platform.{Platform, ReadsBack}
use dotnet_web_api_startpack.Fetch.{parse_request_body}
use dotnet_web_api_startpack.Fetch.Bodies.{indent-ne, or_braces_of_ne}
use dotnet_web_api_startpack.Address.{build_path}
use dotnet_web_api_startpack.Detail.{Detail, View, format_json, read_body, request_path}

module _ ⦃p : Platform⦄ where
  parsed-ne : (t : Text) (v : Json) → p.json_parse t ≡ some v → ReadsBack p v → t ≢ []
  parsed-ne t v e reads h = cc (ap p.json_parse h, e, reads.parse-empty)

  -- Formatting a body that JSON can read, and reads back as it writes it, gives a draft with the same
  -- path and the same body to send.
  pub read_body-format_json :
      (view : View) (d : Detail) (value : Json)
      → p.json_parse d.draft.body_text ≡ some value
      → ReadsBack p value
      → (d' : Detail) × (format_json d ≡ some d')
        × (read_body view d' ≡ read_body view d)
        × (request_path view d' ≡ request_path view d)
  unfolding format_json request_path parse_request_body build_path
  read_body-format_json view d value e reads =
      let before = or_braces_of_ne d.draft.body_text (parsed-ne _ value e reads) in
      let after = or_braces_of_ne (p.json_indent value) (indent-ne value reads) in
      (
        record d { draft = record d.draft { body_text = p.json_indent value } },
        ground arith,
        ground (arith, before, after, reads.parse-indent),
        ground arith,
      )
