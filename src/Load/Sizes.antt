-- ===== src/Load/Sizes.antt =====
-- What `createTokenPool` promises: as many sessions as were asked for, made by four logins at a time.
use dotnet_web_api_startpack.Prelude.{
  ℕ, zero, suc, ◌+◌, ◌-◌, ◌≤◌, List, [], ◌∷◌, ◌++◌, true, some, ◌≡◌, refl, subst, arith, All,
  All-append, Bool-cases, Option-cases, inl, inr, ltb, length, length-append, replicate,
  some-injective,
}
use dotnet_web_api_startpack.Platform.{Platform}
use dotnet_web_api_startpack.Load.{Env, Request, Response, Tokens, is_truthy, parse_tokens}
use dotnet_web_api_startpack.Load.Pool.{
  PoolResult, issued, failed, unfinished, keep_tokens, fill_pool, create_token_pool, setup_request,
  smaller, batch_size,
}

abbrev pub IsUsable : Tokens → Type 0
IsUsable t = is_truthy t.refresh_token ≡ true

-- The pool has so many sessions, each with a token to refresh it.
abbrev pub IsPool : ℕ → PoolResult → Type 0
IsPool size (issued tokens) = (length tokens ≡ size) × All IsUsable tokens
IsPool size failed = Unit
IsPool size unfinished = ⊥

abbrev pub AreSmall : List (List Request) → Type 0
AreSmall = All (λ (requests : List Request). length requests ≤ batch_size)

record Kept (count : ℕ) (before after : List Tokens) : Type 0 where
  size : length after ≡ length before + count
  usable : All IsUsable after

keep_tokens-Kept :
    (responses : List Response) (tokens kept : List Tokens)
    → All IsUsable tokens
    → keep_tokens responses tokens ≡ some kept
    → Kept (length responses) tokens kept
unfolding keep_tokens
keep_tokens-Kept [] tokens kept h e =
    subst (λ k. Kept 0 tokens k) (some-injective tokens kept e)
      (record { size = omega arith; usable = h })
keep_tokens-Kept (response ∷ responses) tokens kept h e =
    elim (Option-cases (parse_tokens response)) [
      | inl e' ↦ absurd (ground (arith, (rw (e', keep_tokens) at e)))
      | inr (fresh, e') ↦ elim (Bool-cases (is_truthy fresh.refresh_token)) [
        | inr bad ↦ absurd (ground (arith, (rw (e', keep_tokens, bad) at e)))
        | inl good ↦
            let later =
              keep_tokens-Kept responses (tokens ++ (fresh ∷ [])) kept
                (All-append IsUsable tokens (fresh ∷ []) h (good, tt))
                (rw (e', keep_tokens, good) at e) in
            record {
              size = omega (arith, later.size, length-append tokens (fresh ∷ []));
              usable = later.usable;
            }
      ]
    ]

length-replicate {ℓ} : {A : Type ℓ} (n : ℕ) (a : A) → length (replicate n a) ≡ n
length-replicate zero a = refl
length-replicate (suc n) a = omega (arith, length-replicate n a)

-- `http.batch` gives a response for each request.
abbrev pub AnswersEach {ℓ} : {S : Type ℓ} → (List Request → S → List Response × S) → Type ℓ
AnswersEach {S = S} batch =
    (requests : List Request) (s : S) → length (batch requests s).0 ≡ length requests

module _ {ℓ} ⦃p : Platform⦄ {S : Type ℓ} (env : Env)
    (batch : List Request → S → List Response × S) where
  fill_pool-IsPool :
      (rounds offset size : ℕ) (tokens : List Tokens) (s : S)
      → AnswersEach batch
      → size ≤ offset + rounds
      → length tokens ≡ smaller offset size
      → All IsUsable tokens
      → IsPool size (fill_pool env batch rounds offset size tokens s).result
        × AreSmall (fill_pool env batch rounds offset size tokens s).batches
  unfolding fill_pool
  fill_pool-IsPool zero offset size tokens s each enough count usable =
      elim (Bool-cases (ltb offset size)) [
        | inl more ↦ absurd (ground arith)
        | inr over ↦ rw (over, fill_pool) ((ground arith, usable), tt)
      ]
  fill_pool-IsPool (suc rounds) offset size tokens s each enough count usable =
      elim (Bool-cases (ltb offset size)) [
        | inr over ↦ rw (over, fill_pool) ((ground arith, usable), tt)
        | inl more ↦
            let count' = smaller batch_size (size - offset) in
            let requests = replicate count' (setup_request env) in
            let answered = batch requests s in
            let many : length requests ≡ count' = length-replicate count' (setup_request env) in
            elim (Option-cases (keep_tokens answered.0 tokens)) [
              | inl e ↦ rw (more, e, fill_pool) (tt, (ground (arith, many), tt))
              | inr (kept, e) ↦
                  let k = keep_tokens-Kept answered.0 tokens kept usable e in
                  let rest =
                    fill_pool-IsPool rounds (offset + batch_size) size kept answered.1 each
                      (omega arith) (ground (arith, k.size, each requests s, many)) k.usable in
                  rw (more, e, fill_pool) (rest.0, (ground (arith, many), rest.1))
            ]
      ]

  -- If the batch call gives a response for each request, the loop that creates a pool of any size ends
  -- within its rounds, by the error of a login or with exactly as many sessions as were asked for, each
  -- with a token that can be refreshed, and never sends more than four logins at a time.
  pub create_token_pool-IsPool :
      (size : ℕ) (s : S)
      → AnswersEach batch
      → IsPool size (create_token_pool env batch size s).result
        × AreSmall (create_token_pool env batch size s).batches
  unfolding create_token_pool
  create_token_pool-IsPool size s each =
      fill_pool-IsPool size 0 size [] s each (omega arith) (ground arith) tt
