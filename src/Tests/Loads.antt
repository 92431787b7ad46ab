-- ===== src/Tests/Loads.antt =====
-- The load tests, over a small service.
use dotnet_web_api_startpack.Prelude.{
  ℕ, suc, Text, lit, List, [], ◌∷◌, map, true, Option, none, some, ◌≡◌, refl, ap, arith, length,
  lookup, text_eq,
}
use dotnet_web_api_startpack.Json.{str, obj, field, end}
use dotnet_web_api_startpack.Workbench.Capture.{get_property}
use dotnet_web_api_startpack.Load.{
  Env, Request, Response, Tokens, no_tokens, base_url, drop_slash, parse_tokens,
}
use dotnet_web_api_startpack.Load.Pool.{create_token_pool, fill_pool, keep_tokens}
use dotnet_web_api_startpack.Load.Sizes.{AnswersEach, IsPool, AreSmall, create_token_pool-IsPool}
use dotnet_web_api_startpack.Load.Refresh.{iterate, sent, refresh_request}
use dotnet_web_api_startpack.Load.Rotation.{leading, chain, sent-prepared}
use dotnet_web_api_startpack.Load.Runs.{MixedData, mixed_setup, refresh_setup, me_setup, has_sent}
use dotnet_web_api_startpack.Load.Options.{
  LoadEnv, mixed_users, mixed_options, mixed_options-has_sent,
}
use dotnet_web_api_startpack.Tests.Samples.{platform}

abbrev env : Env
env = record { base_url = lit "http://host/"; test_email = []; test_password = [] }

-- One slash at the end of the address is dropped.
base_url_runs : base_url env ≡ lit "http://host"
unfolding drop_slash
base_url_runs = refl

-- A response with an access token and a refresh token of this text.
abbrev issuing : Text → Response
issuing token = record {
  status = 200;
  json = some (
      obj (field (lit "accessToken") (str (lit "a")) (field (lit "refreshToken") (str token) end)));
}

abbrev refusing : Response
refusing = record { status = 401; json = none }

-- A service that issues a token to each request; its state counts the requests.
abbrev answer_all : List Request → ℕ → List Response × ℕ
answer_all [] s = ([], s)
answer_all (r ∷ rs) s = let rest = answer_all rs (suc s) in (issuing (s ∷ []) ∷ rest.0, rest.1)

abbrev answer : Request → ℕ → Response × ℕ
answer r s = (issuing (s ∷ []), suc s)

answers_each : AnswersEach answer_all
answers_each [] s = refl
answers_each (r ∷ rs) s = ap suc (answers_each rs (suc s))

create_token_pool-IsPool_example :
    IsPool 6 (create_token_pool ⦃p = platform⦄ env answer_all 6 1).result
    × AreSmall (create_token_pool ⦃p = platform⦄ env answer_all 6 1).batches
create_token_pool-IsPool_example =
    create_token_pool-IsPool ⦃p = platform⦄ env answer_all 6 1 answers_each

-- Six sessions take a batch of four and one of two.
pool_runs : map length (create_token_pool ⦃p = platform⦄ env answer_all 6 1).batches ≡ 4 ∷ 2 ∷ []
unfolding create_token_pool fill_pool keep_tokens parse_tokens get_property lookup text_eq
pool_runs = refl

abbrev session : Tokens
session = record no_tokens { refresh_token = some (str (lit "t0")) }

abbrev responses : List Response
responses = issuing (lit "t1") ∷ refusing ∷ issuing (lit "t2") ∷ []

sent-prepared_example :
    sent ⦃p = platform⦄ env (session ∷ []) 1 none responses
    ≡ chain ⦃p = platform⦄ env session.refresh_token responses
unfolding parse_tokens
sent-prepared_example =
    sent-prepared ⦃p = platform⦄ env (session ∷ []) 1 session responses refl
      (refl, (refl, (refl, tt)))

-- After the refusal nothing more is sent.
chain_runs :
    chain ⦃p = platform⦄ env session.refresh_token responses
    ≡ refresh_request ⦃p = platform⦄ env (str (lit "t0"))
      ∷ refresh_request ⦃p = platform⦄ env (str (lit "t1"))
      ∷ []
unfolding leading parse_tokens get_property lookup text_eq
chain_runs = refl

abbrev numbers : LoadEnv
numbers = record {
  login_rps = none;
  me_rps = none;
  refresh_rps = none;
  refresh_max_vus = none;
  mixed_login_rps = none;
  mixed_refresh_rps = none;
  mixed_me_rps = none;
  mixed_login_max_vus = some 1;
  mixed_refresh_max_vus = some 2;
  mixed_me_max_vus = some 2;
  duration = none;
}

abbrev set_up : Option MixedData
set_up = mixed_setup ⦃p = platform⦄ env answer_all answer (mixed_users numbers) 1

abbrev prepared_data : MixedData
prepared_data = elim set_up [
  | some data_set ↦ data_set
  | none ↦ record { profile_tokens = no_tokens; refresh_token_pool = [] }
]

mixed_options-has_sent_example :
    has_sent (iterate ⦃p = platform⦄ env prepared_data.refresh_token_pool 5 none refusing).1 ≡ true
unfolding mixed_setup refresh_setup me_setup create_token_pool fill_pool keep_tokens parse_tokens
    get_property lookup text_eq mixed_options
mixed_options-has_sent_example =
    mixed_options-has_sent ⦃p = platform⦄ env answer_all answer numbers 1 prepared_data 4 refusing
      answers_each refl (omega arith)
