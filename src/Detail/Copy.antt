-- ===== src/Detail/Copy.antt =====
-- The command that the endpoint panel copies, against the request that it sends.
use dotnet_web_api_startpack.Prelude.{
  Text, lit, List, [], ◌∷◌, Option, none, some, ◌≡◌, refl, sym, ap, ◌∙◌, arith, some-injective,
  bind-eq-some, inl, inr, ◌⊎◌, true, subst,
}
use dotnet_web_api_startpack.Json.{Json}
use dotnet_web_api_startpack.Platform.{Platform}
use dotnet_web_api_startpack.Headers.{Headers}
use dotnet_web_api_startpack.Curl.{create_curl}
use dotnet_web_api_startpack.Curl.Shell.{shell_words}
use dotnet_web_api_startpack.Curl.Words.{curl_words, header_words, shell_words-create_curl}
use dotnet_web_api_startpack.Fetch.{
  ApiRequestInput, FetchRequest, fetch_request, ParsedBody, parsed, invalid_json,
}
use dotnet_web_api_startpack.Workbench.State.{RunRequestOptions}
use dotnet_web_api_startpack.Workbench.Request.{request_input}
use dotnet_web_api_startpack.Detail.{
  Detail, View, sent, copied, execute, copy_curl, request_path, request_headers, read_body,
}

abbrev pub data_words : Option Text → List Text
data_words none = []
data_words (some body) = lit "--data" ∷ body ∷ []

-- The words of a command that makes a request.
abbrev pub request_words : FetchRequest → List Text
request_words request =
    lit "curl"
    ∷ lit "-i"
    ∷ lit "-X"
    ∷ request.method
    ∷ request.url
    ∷ header_words request.headers (data_words request.body)

module _ ⦃p : Platform⦄ where
  curl_words-fetch_request :
      (input : ApiRequestInput)
      → curl_words (record {
        api_base = input.api_base;
        endpoint = input.endpoint;
        path = input.path;
        body = input.body;
        headers = input.headers;
      })
        ≡ request_words (fetch_request input)
  unfolding fetch_request
  curl_words-fetch_request input = ground arith

  -- The request that the panel sends, from its path and its body.
  abbrev panel_options : View → Text → Option Json → RunRequestOptions
  panel_options view path body = record {
    endpoint = view.endpoint;
    path = some path;
    body = body;
    headers = [];
    display = true;
    report_error = true;
    auth_mode = none;
  }

  execute-sent :
      (view : View) (d d' : Detail) (options : RunRequestOptions)
      → execute view d ≡ some (d', sent options)
      → (path : Text) × (body : Option Json) × (request_path view d ≡ some path)
        × (read_body view d ≡ parsed body)
        × (panel_options view path body ≡ options)
  unfolding execute
  execute-sent view d d' options e =
      let (path, there, rest) = bind-eq-some (request_path view d) _ e in
      elim (body_cases (read_body view d)) [
        | inl invalid ↦ absurd (ground (arith, rest, invalid))
        | inr (body, read) ↦ (path, body, there, read, ground (arith, rest, read))
      ]
    where
      body_cases :
          (b : ParsedBody) → (b ≡ invalid_json) ⊎ ((body : Option Json) × (b ≡ parsed body))
      body_cases invalid_json = inl refl
      body_cases (parsed body) = inr (body, refl)

  request_input-panel :
      (view : View) (path : Text) (body : Option Json) (input : ApiRequestInput)
      → request_input view.closure (panel_options view path body) view.header_cookies ≡ some input
      → (headers : Headers) × (request_headers view ≡ some headers)
        × (record {
          api_base = view.closure.api_base;
          endpoint = view.endpoint;
          path = path;
          body = body;
          headers = headers;
          auth_mode = view.closure.auth_mode;
        }
            ≡ input)
  unfolding request_input
  request_input-panel view path body input e =
      let (headers, built, rest) = bind-eq-some (request_headers view) _ e in
      (headers, built, some-injective _ _ rest)

  -- Where the panel would send a request and its parts can be built, the copied command is read by a
  -- shell as the words of a command that makes this very request: the same method and address, the
  -- same headers in the same order, and the same body; if the headers of the panel were computed with
  -- the cookies of the moment.
  pub shell_words-copy_curl :
      (view : View) (d d' : Detail) (options : RunRequestOptions) (input : ApiRequestInput)
      → execute view d ≡ some (d', sent options)
      → request_input view.closure options view.header_cookies ≡ some input
      → (command : Text) × (copy_curl view d ≡ some (d, copied command))
        × (shell_words command ≡ some (request_words (fetch_request input)))
  unfolding copy_curl
  shell_words-copy_curl view d d' options input sends builds =
      let (path, body, there, read, same) = execute-sent view d d' options sends in
      let (headers, built, whole) = request_input-panel view path body input (
        subst (λ o. request_input view.closure o view.header_cookies ≡ some input) (sym same)
          builds) in
      let command = create_curl (record {
        api_base = view.closure.api_base;
        endpoint = view.endpoint;
        path = path;
        body = body;
        headers = headers;
      }) in
      (
        command,
        ground (arith, there, built, read),
        shell_words-create_curl _
            ∙ ap some (curl_words-fetch_request _)
            ∙ ap (λ i. some (request_words (fetch_request i))) whole,
      )
