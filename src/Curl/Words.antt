-- ===== src/Curl/Words.antt =====
-- The words that a shell reads in the command of `createCurl`.
use dotnet_web_api_startpack.Prelude.{
  ℕ, Text, lit, List, [], ◌∷◌, ◌++◌, map, false, Option, none, some, ◌≡◌, refl, sym, ap, ◌∙◌, arith,
  append_assoc, append-nil, Bool-cases, inl, inr, join, ◌==◌, if◌then◌else◌, or_else,
}
use dotnet_web_api_startpack.Json.{Json}
use dotnet_web_api_startpack.Types.{HttpMethod, get, post, put, patch, delete, method_text}
use dotnet_web_api_startpack.Platform.{Platform}
use dotnet_web_api_startpack.Template.{is_empty}
use dotnet_web_api_startpack.Curl.{
  CurlInput, shell_escape, line_break, quoted, header_line, header_argument, create_curl,
}
use dotnet_web_api_startpack.Curl.Shell.{outside, single, extend, words_from, shell_words}

close :
    (w rest : Text)
    → words_from single (some w) (39 ∷ rest) ≡ words_from outside (some (w ++ [])) rest
unfolding words_from
close w rest = ap (λ r. words_from outside (some r) rest) (sym (append-nil w))

single-plain :
    (c : ℕ) (w rest : Text)
    → (c == 39) ≡ false
    → words_from single (some w) (c ∷ rest) ≡ words_from single (some (w ++ (c ∷ []))) rest
unfolding words_from
single-plain c w rest h = ground arith

-- The five characters of an escaped quote.
single-quote :
    (w rest : Text)
    → words_from single (some w) (lit "'\"'\"'" ++ rest)
      ≡ words_from single (some (w ++ (39 ∷ []))) rest
unfolding words_from
single-quote w rest =
    ap (λ r. words_from single (some r) rest)
      (append-nil ((w ++ []) ++ (39 ∷ [])) ∙ ap (λ r. r ++ (39 ∷ [])) (append-nil w))

-- Inside single quotes, an escaped text and the closing quote add the text itself to the word.
words_from-escape :
    (v w rest : Text)
    → words_from single (some w) (shell_escape v ++ (39 ∷ rest))
      ≡ words_from outside (some (w ++ v)) rest
unfolding shell_escape
words_from-escape [] w rest = close w rest
words_from-escape (c ∷ v) w rest =
    let ih =
      words_from-escape v (w ++ (c ∷ [])) rest
      ∙ ap (λ r. words_from outside (some r) rest) (append_assoc w (c ∷ []) v) in
    elim (Bool-cases (c == 39)) [
      | inl quote ↦
          let is : c ≡ 39 = ground arith in
          rw quote (
            single-quote w (shell_escape v ++ (39 ∷ rest))
            ∙ ap (λ r. words_from single (some (w ++ (r ∷ []))) (shell_escape v ++ (39 ∷ rest)))
                (sym is)
            ∙ ih)
      | inr other ↦ rw other (single-plain c w (shell_escape v ++ (39 ∷ rest)) other ∙ ih)
    ]

words_from-quoted :
    (cur : Option Text) (v rest : Text)
    → words_from outside cur (quoted v ++ rest) ≡ words_from outside (extend cur v) rest
unfolding words_from
words_from-quoted cur v rest =
    ap (words_from outside cur) (ap (λ r. 39 ∷ r) (append_assoc (shell_escape v) (39 ∷ []) rest))
    ∙ words_from-escape v (or_else cur [] ++ []) rest
    ∙ ap (λ r. words_from outside (some (r ++ v)) rest) (append-nil (or_else cur []))

-- The header arguments, each on a line of its own, before the rest of the command.
abbrev each : List (Text × Text) → Text → Text
each [] rest = rest
each (h ∷ hs) rest = line_break ++ (lit "-H " ++ (quoted (header_line h) ++ each hs rest))

each-join :
    (h : Text × Text) (hs : List (Text × Text)) (rest : Text)
    → (line_break ++ join line_break (map header_argument (h ∷ hs))) ++ rest ≡ each (h ∷ hs) rest
unfolding join
each-join h [] rest = ap (λ r. line_break ++ (lit "-H " ++ r)) refl
each-join h (k ∷ hs) rest =
    ap (λ r. line_break ++ (lit "-H " ++ r))
      (append_assoc (quoted (header_line h))
          (line_break ++ join line_break (map header_argument (k ∷ hs))) rest
        ∙ ap (λ r. quoted (header_line h) ++ r) (each-join k hs rest))

header_part :
    (hs : List (Text × Text)) (rest : Text)
    → (if is_empty (join line_break (map header_argument hs))
          then []
          else line_break ++ join line_break (map header_argument hs))
        ++ rest
      ≡ each hs rest
unfolding join
header_part [] rest = refl
header_part (h ∷ []) rest = each-join h [] rest
header_part (h ∷ (k ∷ hs)) rest = each-join h (k ∷ hs) rest

abbrev pub header_words : List (Text × Text) → List Text → List Text
header_words [] words = words
header_words (h ∷ hs) words = lit "-H" ∷ header_line h ∷ header_words hs words

words_from-each :
    (hs : List (Text × Text)) (w rest : Text) (words : List Text)
    → ((w' : Text) → words_from outside (some w') rest ≡ some (w' ∷ words))
    → words_from outside (some w) (each hs rest) ≡ some (w ∷ header_words hs words)
unfolding words_from
words_from-each [] w rest words h = h w
words_from-each (k ∷ hs) w rest words h =
    rw (words_from-quoted none (header_line k) (each hs rest))
      (rw (words_from-each hs (header_line k) rest words h) refl)

-- The arguments that the command must have.
abbrev pub body_words : ⦃p : Platform⦄ → Option Json → List Text
body_words none = []
body_words ⦃p⦄ (some body) = lit "--data" ∷ p.json_stringify body ∷ []

abbrev pub curl_words : ⦃p : Platform⦄ → CurlInput → List Text
curl_words input =
    lit "curl"
    ∷ lit "-i"
    ∷ lit "-X"
    ∷ method_text input.endpoint.method
    ∷ (input.api_base ++ input.path)
    ∷ header_words input.headers (body_words input.body)

command :
    (m : HttpMethod) (url rest : Text) (words : List Text)
    → words_from outside (some url) rest ≡ some (url ∷ words)
    → words_from outside none
        (lit "curl -i -X " ++ (method_text m ++ (lit " " ++ (quoted url ++ rest))))
      ≡ some (lit "curl" ∷ lit "-i" ∷ lit "-X" ∷ method_text m ∷ url ∷ words)
unfolding words_from
command get url rest words h = rw (words_from-quoted none url rest) (rw h refl)
command post url rest words h = rw (words_from-quoted none url rest) (rw h refl)
command put url rest words h = rw (words_from-quoted none url rest) (rw h refl)
command patch url rest words h = rw (words_from-quoted none url rest) (rw h refl)
command delete url rest words h = rw (words_from-quoted none url rest) (rw h refl)

abbrev body_part : ⦃p : Platform⦄ → Option Json → Text
body_part none = []
body_part ⦃p⦄ (some body) = line_break ++ (lit "--data " ++ quoted (p.json_stringify body))

module _ ⦃p : Platform⦄ where
  words_from-body :
      (body : Option Json) (w : Text)
      → words_from outside (some w) (body_part body) ≡ some (w ∷ body_words body)
  unfolding words_from
  words_from-body none w = refl
  words_from-body (some body) w = rw (words_from-escape (p.json_stringify body) [] []) refl

  -- The words that a shell reads in the command are curl, its options, the method, the address as it
  -- is, `-H` with the text of each header in order, and `--data` with the body's JSON if there is a
  -- body, whatever quotes, blanks and other characters these hold.
  pub shell_words-create_curl :
      (input : CurlInput) → shell_words (create_curl input) ≡ some (curl_words input)
  unfolding shell_words create_curl
  shell_words-create_curl input =
      let url = input.api_base ++ input.path in
      let m = input.endpoint.method in
      let rest = body_part input.body in
      let start =
        λ (t : Text). lit "curl -i -X " ++ (method_text m ++ (lit " " ++ (quoted url ++ t))) in
      ap (λ t. words_from outside none (start t)) (header_part input.headers rest)
      ∙ command m url (each input.headers rest) _ (
          words_from-each input.headers url rest (body_words input.body)
            (words_from-body input.body))
