-- ===== src/Tests/Requests.antt =====
-- The functions of domain.ts that make and show requests, at small inputs.
use dotnet_web_api_startpack.Prelude.{
  lit, [], ◌∷◌, map, some, ◌≡◌, refl, arith, text_eq, member, lookup, starts_with, split,
  split_from, join,
}
use dotnet_web_api_startpack.Types.{cookie}
use dotnet_web_api_startpack.Template.{is_word, replacement, resolve_template_string, materialize}
use dotnet_web_api_startpack.Template.Pieces.{plain, hole, resolve_template_string-print}
use dotnet_web_api_startpack.Template.Skeleton.{shape, leaves, shape-leaves-materialize}
use dotnet_web_api_startpack.Uri.{
  encode_component, encode_points, encode_point, code_points_from, is_unreserved, percent_all, utf8,
  hex_digit, decode_component, decode_from, hex_value, lead_byte,
}
use dotnet_web_api_startpack.Headers.{read_cookie, build_headers, redact_header}
use dotnet_web_api_startpack.Headers.Cookies.{read_cookie-cookie_text}
use dotnet_web_api_startpack.Headers.Transport.{IsExpected, build_headers-IsExpected}
use dotnet_web_api_startpack.Headers.Redaction.{Alike, redact_header-Alike}
use dotnet_web_api_startpack.Curl.{create_curl}
use dotnet_web_api_startpack.Curl.Shell.{shell_words}
use dotnet_web_api_startpack.Curl.Words.{shell_words-create_curl}
use dotnet_web_api_startpack.Tests.Samples.{
  platform, variables, sample_endpoint, sample_body, curl_input,
}

shell_words-create_curl_example :
    shell_words (create_curl ⦃p = platform⦄ curl_input)
    ≡ some (
        lit "curl"
        ∷ lit "-i"
        ∷ lit "-X"
        ∷ lit "POST"
        ∷ lit "http://localhost/a b"
        ∷ lit "-H"
        ∷ lit "Accept: application/json"
        ∷ lit "--data"
        ∷ lit "{\"name\":\"it's\"}"
        ∷ [])
shell_words-create_curl_example = shell_words-create_curl ⦃p = platform⦄ curl_input

build_headers-IsExpected_example :
    (headers : _) × (build_headers sample_endpoint cookie variables
        (lit "a=1; __Host-auth.csrf=x%20y")
      ≡ some headers)
    × IsExpected sample_endpoint cookie variables (lit "x y") headers
unfolding read_cookie encode_component encode_points encode_point code_points_from is_unreserved
    decode_component decode_from hex_value lead_byte split split_from starts_with
build_headers-IsExpected_example =
    build_headers-IsExpected sample_endpoint cookie variables (lit "a=1; __Host-auth.csrf=x%20y")
      (lit "x y") refl

read_cookie-cookie_text_example :
    read_cookie (lit "a b") (lit "x=1; a%20b=c%20d; y=2") ≡ some (lit "c d")
unfolding join lookup text_eq encode_component encode_points encode_point code_points_from
    is_unreserved percent_all utf8 hex_digit decode_component decode_from hex_value lead_byte
read_cookie-cookie_text_example =
    read_cookie-cookie_text (lit "a b") (lit "a%20b")
      ((lit "x", lit "1") ∷ (lit "a%20b", lit "c%20d") ∷ (lit "y", lit "2") ∷ []) refl
      (ground arith)

redact_header-Alike_example :
    redact_header (lit "Authorization") (lit "Bearer abcdefghijklMIDDLEvwxyz")
    ≡ redact_header (lit "Authorization") (lit "Bearer abcdefghijkl123456789vwxyz")
redact_header-Alike_example =
    redact_header-Alike (lit "Authorization") (lit "Bearer") (lit "abcdefghijklMIDDLEvwxyz")
      (lit "abcdefghijkl123456789vwxyz") refl (ground arith) (ground arith) (ground arith)
      (Alike.long (lit "abcdefghijkl") (lit "MIDDLE") (lit "123456789") (lit "vwxyz") refl refl refl
        refl (omega arith) (omega arith))

resolve_template_string-print_example :
    resolve_template_string ⦃p = platform⦄ variables (lit "Bearer {{accessToken}}, {{unknown}}.")
    ≡ lit "Bearer token, {{unknown}}."
unfolding replacement lookup member text_eq is_word
resolve_template_string-print_example =
    resolve_template_string-print ⦃p = platform⦄ variables
      (plain (lit "Bearer ")
        ∷ hole (lit "accessToken")
        ∷ plain (lit ", ")
        ∷ hole (lit "unknown")
        ∷ plain (lit ".")
        ∷ [])
      (ground arith)

shape-leaves-materialize_example :
    (shape (materialize ⦃p = platform⦄ variables sample_body) ≡ shape sample_body)
    × (leaves (materialize ⦃p = platform⦄ variables sample_body)
        ≡ map (resolve_template_string ⦃p = platform⦄ variables) (leaves sample_body))
shape-leaves-materialize_example = shape-leaves-materialize ⦃p = platform⦄ variables sample_body
