-- ===== src/Load/Rotation.antt =====
-- Which refresh tokens a virtual user presents.
use dotnet_web_api_startpack.Prelude.{
  ℕ, List, [], ◌∷◌, map, true, Option, none, some, ◌≡◌, refl, ap, arith, All, Option-cases, inl,
  inr, length, take,
}
use dotnet_web_api_startpack.Json.{Json}
use dotnet_web_api_startpack.Platform.{Platform}
use dotnet_web_api_startpack.Headers.{is_some}
use dotnet_web_api_startpack.Load.{Env, Request, Response, Tokens, parse_tokens}
use dotnet_web_api_startpack.Load.Refresh.{
  prepared, chosen, truthy_value, refresh_request, rotate, iterate, sent,
}

-- The refresh token that a response issues, if any.
abbrev pub issued_token : Response → Option Json
issued_token response = elim (parse_tokens response) [
  | none ↦ none
  | some tokens ↦ tokens.refresh_token
]

-- The tokens before the first that is missing or empty.
unfoldable pub leading : List (Option Json) → List Json
leading [] = []
leading (t ∷ ts) = elim (truthy_value t) [ none ↦ [] | some v ↦ v ∷ leading ts ]

abbrev pub IsReadable : Response → Type 0
IsReadable response = is_some (parse_tokens response) ≡ true

module _ ⦃p : Platform⦄ (env : Env) where
  abbrev pub chain : Option Json → List Response → List Request
  chain first responses =
      map (refresh_request env)
        (take (length responses) (leading (first ∷ map issued_token responses)))

  sent-nothing :
      (pool : List Tokens) (vu : ℕ) (tokens : Tokens) (responses : List Response)
      → truthy_value tokens.refresh_token ≡ none
      → sent env pool vu (some tokens) responses ≡ []
  unfolding sent iterate rotate
  sent-nothing pool vu tokens [] e = refl
  sent-nothing pool vu tokens (response ∷ responses) e =
      rw (e, sent, iterate, chosen, rotate) (sent-nothing pool vu tokens responses e)

  sent-chain :
      (pool : List Tokens) (vu : ℕ) (tokens : Tokens) (responses : List Response)
      → All IsReadable responses
      → sent env pool vu (some tokens) responses ≡ chain tokens.refresh_token responses
  unfolding sent iterate rotate leading
  sent-chain pool vu tokens [] h = refl
  sent-chain pool vu tokens (response ∷ responses) (h, hs) =
      elim (Option-cases (truthy_value tokens.refresh_token)) [
        | inl e ↦
            rw (e, sent, iterate, chosen, rotate, leading) (sent-nothing pool vu tokens responses e)
        | inr (token, e) ↦ elim (Option-cases (parse_tokens response)) [
          | inl e' ↦ absurd (ground arith)
          | inr (fresh, e') ↦
              rw (e, e', sent, iterate, chosen, rotate, leading)
                (ap (λ rest. refresh_request env token ∷ rest)
                  (sent-chain pool vu fresh responses hs))
        ]
      ]

  -- If `parseTokens` throws at none of the responses, then a virtual user presents the token of its
  -- session in the pool first, and with each later request the token that the response before has
  -- issued, until a response issues none; after that it sends no request at all.
  pub sent-prepared :
      (pool : List Tokens) (vu : ℕ) (tokens : Tokens) (responses : List Response)
      → prepared pool vu ≡ some tokens
      → All IsReadable responses
      → sent env pool vu none responses ≡ chain tokens.refresh_token responses
  unfolding sent iterate
  sent-prepared pool vu tokens [] e h = refl
  sent-prepared pool vu tokens (response ∷ responses) e h =
      rw (e, sent, iterate) (sent-chain pool vu tokens (response ∷ responses) h)
