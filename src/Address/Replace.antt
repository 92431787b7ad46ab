-- ===== src/Address/Replace.antt =====
-- `text.replace(pattern, replacement)` of the language's library, for a pattern that is a text: the
-- first occurrence is replaced, and `$` in the replacement has a meaning of its own.
use dotnet_web_api_startpack.Prelude.{
  drop-append, ℕ, Text, [], ◌∷◌, ◌++◌, true, false, length, drop, starts_with, ◌==◌, All, ◌≡◌, ◌≢◌,
  refl, sym, ◌∙◌, arith, if◌then◌else◌, append_assoc, starts_with-append, append-nil,
}

-- The text that `$c` stands for, if it stands for one: `$$`, `$&`, `` $` `` and `$'`.
abbrev pub dollar : (matched before after : Text) → ℕ → Text
dollar matched before after c =
    if c == b'$'
    then b'$' ∷ []
    else if c == b'&'
    then matched
    else if c == b'`'
    then before
    else if c == 39
    then after
    else b'$' ∷ c ∷ []

unfoldable pub expand : (matched before after : Text) → Text → Text
expand matched before after [] = []
expand matched before after (c ∷ []) = c ∷ []
expand matched before after (c ∷ (d ∷ s)) = elim (c == b'$') [
  | true ↦ dollar matched before after d ++ expand matched before after s
  | false ↦ c ∷ expand matched before after (d ∷ s)
]

-- `before` is the part of the text that has been passed.
unfoldable pub replace_after : (pattern replacement before : Text) → Text → Text
replace_after pattern replacement before [] = before
replace_after pattern replacement before (c ∷ s) = elim (starts_with pattern (c ∷ s)) [
  | true ↦
      let after = drop (length pattern) (c ∷ s) in
      before ++ (expand pattern before after replacement ++ after)
  | false ↦ replace_after pattern replacement (before ++ (c ∷ [])) s
]

unfoldable pub replace_first : (pattern replacement : Text) → Text → Text
replace_first pattern replacement text = replace_after pattern replacement [] text

-- Without a dollar sign the replacement stands for itself.
pub expand_plain :
    (matched before after s : Text) → All (λ c. c ≢ b'$') s → expand matched before after s ≡ s
unfolding expand
expand_plain matched before after [] h = refl
expand_plain matched before after (c ∷ []) h = refl
expand_plain matched before after (c ∷ (d ∷ s)) (h, hs) =
    ground (arith, expand_plain matched before after (d ∷ s) hs)

starts_with-ne : (a b : ℕ) (pattern s : Text) → a ≢ b → starts_with (a ∷ pattern) (b ∷ s) ≡ false
unfolding starts_with
starts_with-ne a b pattern s h = ground arith

module _ (a : ℕ) (pattern replacement : Text) where
  replace_after-passed :
      (before s t : Text)
      → All (λ c. c ≢ a) s
      → replace_after (a ∷ pattern) replacement before (s ++ t)
        ≡ replace_after (a ∷ pattern) replacement (before ++ s) t
  unfolding replace_after
  replace_after-passed before [] t h = rw append-nil
  replace_after-passed before (c ∷ s) t (h, hs) = ground (
    arith,
    starts_with-ne a c pattern (s ++ t) (λ e. h (sym e)),
    append_assoc before (c ∷ []) s,
    replace_after-passed (before ++ (c ∷ [])) s t hs,
  )

  replace_after-here :
      (before after : Text)
      → All (λ c. c ≢ b'$') replacement
      → replace_after (a ∷ pattern) replacement before ((a ∷ pattern) ++ after)
        ≡ before ++ (replacement ++ after)
  unfolding replace_after
  replace_after-here before after k = ground (
    arith,
    starts_with-append (a ∷ pattern) after,
    drop-append (a ∷ pattern) after,
    expand_plain (a ∷ pattern) before after replacement k,
  )

  -- A pattern whose first character does not stand in the text before it is replaced where it stands,
  -- if the replacement has no dollar sign.
  pub replace_first-found :
      (before after : Text)
      → All (λ c. c ≢ a) before
      → All (λ c. c ≢ b'$') replacement
      → replace_first (a ∷ pattern) replacement (before ++ ((a ∷ pattern) ++ after))
        ≡ before ++ (replacement ++ after)
  unfolding replace_first
  replace_first-found before after h k =
      replace_after-passed [] before ((a ∷ pattern) ++ after) h ∙ replace_after-here before after k
