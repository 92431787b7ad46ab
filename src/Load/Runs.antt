-- ===== src/Load/Runs.antt =====
-- The scenarios of tests/load/login.js, me.js, refresh.js and mixed.js: what they set up, and what each
-- iteration sends.
use dotnet_web_api_startpack.Prelude.{
  ℕ, zero, suc, ◌+◌, ◌<◌, Text, lit, List, [], ◌∷◌, ◌++◌, Bool, true, false, Option, none, some,
  ◌≡◌, refl, subst, some-injective, ap, ◌∙◌, arith, All, Option-cases, inl, inr, ◌==◌, length,
  get_elem?, if◌then◌else◌,
}
use dotnet_web_api_startpack.Json.{Json}
use dotnet_web_api_startpack.Platform.{Platform}
use dotnet_web_api_startpack.Load.{
  Env, Request, Response, Tokens, url, me_route, login, is_truthy, parse_tokens,
}
use dotnet_web_api_startpack.Load.Pool.{PoolResult, issued, failed, unfinished, create_token_pool}
use dotnet_web_api_startpack.Load.Sizes.{IsUsable, IsPool, AnswersEach, create_token_pool-IsPool}
use dotnet_web_api_startpack.Load.Refresh.{
  Iteration, unprepared, unread, refreshed, truthy_value, rotate, iterate,
}

-- The check of every scenario.
abbrev pub is_passed : Response → Bool
is_passed response = response.status == 200

-- `setup` of me.js; `none` is its Error, or an exception of `parseTokens`.
unfoldable pub me_setup : Response → Option Tokens
me_setup response = elim (parse_tokens response) [
  | none ↦ none
  | some tokens ↦ if is_truthy tokens.access_token then some tokens else none
]

-- The request of me.js and of `me` in mixed.js; the argument is the text of the access token.
abbrev pub me_request : Env → Text → Request
me_request env token = record {
  method = lit "GET";
  url = url env me_route;
  body = none;
  headers = (lit "Authorization", lit "Bearer " ++ token) ∷ [];
  operation = lit "me";
}

-- The data of mixed.js.
pub record MixedData : Type 0 where
  pub profile_tokens : Tokens
  pub refresh_token_pool : List Tokens

-- The numbers of virtual users of mixed.js.
pub record MixedUsers : Type 0 where
  pub login_users : ℕ
  pub refresh_users : ℕ
  pub me_users : ℕ

abbrev pub total_users : MixedUsers → ℕ
total_users users = users.login_users + users.refresh_users + users.me_users

abbrev pub pool_of : PoolResult → Option (List Tokens)
pool_of (issued tokens) = some tokens
pool_of failed = none
pool_of unfinished = none

module _ {ℓ} ⦃p : Platform⦄ {S : Type ℓ} (env : Env)
    (batch : List Request → S → List Response × S) where
  -- `setup` of refresh.js.
  unfoldable pub refresh_setup : ℕ → S → Option (List Tokens)
  refresh_setup max_users s = pool_of (create_token_pool env batch max_users s).result

  -- `setup` of mixed.js; `post` is `http.post`.
  unfoldable pub mixed_setup : (Request → S → Response × S) → MixedUsers → S → Option MixedData
  mixed_setup post users s =
      let answered = post (login env (lit "setup")) s in
      elim (me_setup answered.0) [
        | none ↦ none
        | some profile ↦ elim (refresh_setup (total_users users) answered.1) [
          | none ↦ none
          | some pool ↦ some (record { profile_tokens = profile; refresh_token_pool = pool })
        ]
      ]

-- The iteration has sent a request.
abbrev pub has_sent : Iteration → Bool
has_sent unprepared = false
has_sent (unread _) = true
has_sent (refreshed _ _) = true

get-All :
    (pool : List Tokens) (i : ℕ)
    → i < length pool
    → All IsUsable pool
    → (t : Tokens) × (get_elem? pool i ≡ some t) × IsUsable t
get-All [] i h all = absurd (omega arith)
get-All (t ∷ ts) zero h all = (t, refl, all.0)
get-All (t ∷ ts) (suc i) h all = get-All ts i (omega arith) all.1

usable-truthy_value :
    (v : Option Json) → is_truthy v ≡ true → (w : Json) × (truthy_value v ≡ some w)
usable-truthy_value none h = absurd (ground arith)
usable-truthy_value (some v) h = (v, rw (truthy_value, h) refl)

module _ ⦃p : Platform⦄ (env : Env) where
  rotate-has_sent :
      (t : Tokens) (response : Response) → IsUsable t → has_sent (rotate env t response).1 ≡ true
  unfolding rotate
  rotate-has_sent t response u =
      let token = usable-truthy_value t.refresh_token u in
      elim (Option-cases (parse_tokens response)) [
        | inl e ↦ rw (token.1, e, rotate) refl
        | inr (fresh, e) ↦ rw (token.1, e, rotate) refl
      ]

  prepared-has_sent :
      (pool : List Tokens) (i : ℕ) (response : Response)
      → i < length pool
      → All IsUsable pool
      → has_sent (iterate env pool (suc i) none response).1 ≡ true
  unfolding iterate
  prepared-has_sent pool i response h all =
      let (t, e, u) = get-All pool i h all in rw (e, iterate) (rotate-has_sent t response u)

pool_of-IsPool :
    (size : ℕ) (r : PoolResult) (pool : List Tokens)
    → IsPool size r
    → pool_of r ≡ some pool
    → IsPool size (issued pool)
pool_of-IsPool size (issued tokens) pool h e =
    subst (λ (ts : List Tokens). IsPool size (issued ts)) (some-injective tokens pool e) h
pool_of-IsPool size failed pool h e = ground arith
pool_of-IsPool size unfinished pool h e = absurd h

module _ {ℓ} ⦃p : Platform⦄ {S : Type ℓ} (env : Env)
    (batch : List Request → S → List Response × S) where
  -- If the setup of the refresh scenario succeeds, and the batch call gives a response for each
  -- request, then the first iteration of each virtual user finds a session in the pool and sends its
  -- request.
  pub refresh_setup-has_sent :
      (size : ℕ) (s : S) (pool : List Tokens) (i : ℕ) (response : Response)
      → AnswersEach batch
      → refresh_setup env batch size s ≡ some pool
      → i < size
      → has_sent (iterate env pool (suc i) none response).1 ≡ true
  unfolding refresh_setup
  refresh_setup-has_sent size s pool i response each e h =
      let (count, usable) =
        pool_of-IsPool size (create_token_pool env batch size s).result pool
          (create_token_pool-IsPool env batch size s each).0 e in
      prepared-has_sent env pool i response (omega arith) usable

  mixed_setup-refresh_setup :
      (post : Request → S → Response × S) (users : MixedUsers) (s : S) (mixed : MixedData)
      → mixed_setup env batch post users s ≡ some mixed
      → refresh_setup env batch (total_users users) (post (login env (lit "setup")) s).1
        ≡ some mixed.refresh_token_pool
  unfolding mixed_setup
  mixed_setup-refresh_setup post users s mixed e =
      let answered = post (login env (lit "setup")) s in
      elim (Option-cases (me_setup answered.0)) [
        | inl e1 ↦ absurd (ground (arith, (rw (e1, mixed_setup) at e)))
        | inr (profile, e1) ↦
            elim (Option-cases (refresh_setup env batch (total_users users) answered.1)) [
              | inl e2 ↦ absurd (ground (arith, (rw (e1, e2, mixed_setup) at e)))
              | inr (pool, e2) ↦
                  let same = some-injective _ mixed (rw (e1, e2, mixed_setup) at e) in
                  e2 ∙ ap (λ (d : MixedData). some d.refresh_token_pool) same
            ]
      ]

  -- The same for the mixed scenario, whose users are numbered across its three parts.
  pub mixed_setup-has_sent :
      (post : Request → S → Response × S) (users : MixedUsers) (s : S) (mixed : MixedData) (i : ℕ)
      (response : Response)
      → AnswersEach batch
      → mixed_setup env batch post users s ≡ some mixed
      → i < total_users users
      → has_sent (iterate env mixed.refresh_token_pool (suc i) none response).1 ≡ true
  mixed_setup-has_sent post users s mixed i response each e h =
      refresh_setup-has_sent (total_users users) (post (login env (lit "setup")) s).1
        mixed.refresh_token_pool i response each (mixed_setup-refresh_setup post users s mixed e) h
