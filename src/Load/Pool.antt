-- ===== src/Load/Pool.antt =====
-- `createTokenPool` of tests/load/config.js.
use dotnet_web_api_startpack.Prelude.{
  ℕ, zero, suc, ◌+◌, ◌-◌, lit, List, [], ◌∷◌, ◌++◌, Option, none, some, ltb, replicate,
  if◌then◌else◌,
}
use dotnet_web_api_startpack.Platform.{Platform}
use dotnet_web_api_startpack.Load.{
  Env, Request, Response, Tokens, login_body, login_route, default_headers, url, is_truthy,
  parse_tokens,
}

-- The pool, the Error of a login that failed, or a loop that was given too few rounds.
pub data PoolResult : Type 0 where
  issued : List Tokens → PoolResult
  failed : PoolResult
  unfinished : PoolResult

abbrev pub batch_size : ℕ
batch_size = 4

-- `Math.min(a, b)`
abbrev pub smaller : ℕ → ℕ → ℕ
smaller a b = if ltb b a then b else a

-- The inner loop; `none` is its Error, or an exception of `parseTokens`.
unfoldable pub keep_tokens : List Response → List Tokens → Option (List Tokens)
keep_tokens [] tokens = some tokens
keep_tokens (response ∷ responses) tokens = elim (parse_tokens response) [
  | none ↦ none
  | some fresh ↦
      let rest = keep_tokens responses (tokens ++ (fresh ∷ [])) in
      if is_truthy fresh.refresh_token then rest else none
]

-- What the loop has done: its result, the batches of requests that it has sent, the state of the
-- service.
pub record Filled {ℓ} (S : Type ℓ) : Type ℓ where
  pub result : PoolResult
  pub batches : List (List Request)
  pub service : S

abbrev pub and_batch {ℓ} : {S : Type ℓ} → List Request → Filled S → Filled S
and_batch requests filled = record filled { batches = requests ∷ filled.batches }

abbrev pub setup_request : ⦃p : Platform⦄ → Env → Request
setup_request env = record {
  method = lit "POST";
  url = url env login_route;
  body = some (login_body env);
  headers = default_headers;
  operation = lit "setup";
}

module _ {ℓ} ⦃p : Platform⦄ {S : Type ℓ} (env : Env)
    (batch : List Request → S → List Response × S) where
  -- The outer loop, with a bound on its rounds; `batch` is `http.batch`.
  unfoldable pub fill_pool : (rounds offset size : ℕ) → List Tokens → S → Filled S
  fill_pool zero offset size tokens s = record {
    result = if ltb offset size then unfinished else issued tokens;
    batches = [];
    service = s;
  }
  fill_pool (suc rounds) offset size tokens s =
      let requests = replicate (smaller batch_size (size - offset)) (setup_request env) in
      let answered = batch requests s in
      let ended : Filled S = record { result = issued tokens; batches = []; service = s } in
      let rest : Filled S = elim (keep_tokens answered.0 tokens) [
        | none ↦ record { result = failed; batches = []; service = answered.1 }
        | some kept ↦ fill_pool rounds (offset + batch_size) size kept answered.1
      ] in
      if ltb offset size then and_batch requests rest else ended

  unfoldable pub create_token_pool : ℕ → S → Filled S
  create_token_pool size s = fill_pool size 0 size [] s
