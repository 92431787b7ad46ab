-- ===== src/Template/Pieces.antt =====
-- What template resolution does to a text that is given as plain pieces and placeholders.
use dotnet_web_api_startpack.Prelude.{
  drop-append, ℕ, ◌+◌, Text, lit, List, [], ◌∷◌, ◌++◌, append_assoc, append-nil, All, ◌≡◌, ◌≢◌,
  refl, ap, ◌∙◌, true, none, some, arith, length, length-append, starts_with, lookup, member,
  text_eq,
}
use dotnet_web_api_startpack.Types.{WorkbenchVariables}
use dotnet_web_api_startpack.Platform.{Platform, inherited_names}
use dotnet_web_api_startpack.Template.{
  is_word, word, template_name, braced, replacement, replace_from, resolve_template_string,
}

pub data Piece : Type 0 where
  plain : Text → Piece
  hole : Text → Piece

abbrev pub print : List Piece → Text
print [] = []
print (plain t ∷ ps) = t ++ print ps
print (hole name ∷ ps) = braced name ++ print ps

abbrev pub render : ⦃p : Platform⦄ → WorkbenchVariables → List Piece → Text
render v [] = []
render v (plain t ∷ ps) = t ++ render v ps
render v (hole name ∷ ps) = replacement v name ++ render v ps

-- A plain piece has no opening brace; a placeholder's name is a word.
abbrev pub IsPiece : Piece → Type 0
IsPiece (plain t) = All (λ c. c ≢ b'{') t
IsPiece (hole name) = (name ≢ []) × All (λ c. is_word c ≡ true) name

word-append : (name t : Text) → All (λ c. is_word c ≡ true) name → word (name ++ (b'}' ∷ t)) ≡ name
unfolding word is_word
word-append [] t h = refl
word-append (c ∷ name) t (h, hs) = ground (arith, word-append name t hs)

template_name-plain : (c : ℕ) (t : Text) → c ≢ b'{' → template_name (c ∷ t) ≡ none
unfolding template_name starts_with
template_name-plain c t h = ground arith

template_name-hole :
    (name t : Text)
    → name ≢ []
    → All (λ c. is_word c ≡ true) name
    → template_name (b'{' ∷ b'{' ∷ (name ++ (b'}' ∷ b'}' ∷ t))) ≡ some name
unfolding template_name starts_with
template_name-hole [] t h hs = absurd (h refl)
template_name-hole (c ∷ name) t h hs =
    rw (word-append (c ∷ name) (b'}' ∷ t) hs, drop-append name (b'}' ∷ b'}' ∷ t)) refl

module _ ⦃p : Platform⦄ (v : WorkbenchVariables) where
  replace_from-skip : (s t : Text) → replace_from v (length s) (s ++ t) ≡ replace_from v 0 t
  unfolding replace_from
  replace_from-skip [] t = refl
  replace_from-skip (c ∷ s) t = replace_from-skip s t

  replace_from-plain :
      (s t : Text) → All (λ c. c ≢ b'{') s → replace_from v 0 (s ++ t) ≡ s ++ replace_from v 0 t
  unfolding replace_from
  replace_from-plain [] t h = refl
  replace_from-plain (c ∷ s) t (h, hs) =
      unfold replace_from in
      ground (arith, template_name-plain c (s ++ t) h, replace_from-plain s t hs)

  length-braced_tail : (name : Text) → length (b'{' ∷ (name ++ lit "}}")) ≡ length name + 3
  length-braced_tail name = omega (arith, length-append name (lit "}}"))

  replace_from-hole :
      (name t : Text)
      → name ≢ []
      → All (λ c. is_word c ≡ true) name
      → replace_from v 0 (braced name ++ t) ≡ replacement v name ++ replace_from v 0 t
  replace_from-hole name t h hs =
      let rest = b'{' ∷ (name ++ lit "}}") in
      let found = template_name-hole name t h hs in
      let same = append_assoc name (lit "}}") t in
      let passed = replace_from-skip rest t in
      let count = length-braced_tail name in
      unfold replace_from in ground (arith, found, same, passed, count)

  -- A text that is written as plain pieces without an opening brace and placeholders whose names are
  -- words of letters and digits is resolved piece by piece: the plain pieces stay, and each
  -- placeholder becomes what the variables give for its name.
  pub resolve_template_string-print :
      (ps : List Piece) → All IsPiece ps → resolve_template_string v (print ps) ≡ render v ps
  unfolding resolve_template_string
  resolve_template_string-print [] h = unfold replace_from in refl
  resolve_template_string-print (plain t ∷ ps) (h, hs) =
      replace_from-plain t (print ps) h ∙ ap (λ r. t ++ r) (resolve_template_string-print ps hs)
  resolve_template_string-print (hole name ∷ ps) ((h, w), hs) =
      replace_from-hole name (print ps) h w
      ∙ ap (λ r. replacement v name ++ r) (resolve_template_string-print ps hs)

  -- Placeholders that are named like a property which every object inherits, such as `constructor`
  -- or `toString`, become the text of that property, whatever the variables hold.
  pub resolve_template_string-inherited :
      All (λ name. resolve_template_string v (braced name) ≡ p.native_source name) inherited_names
  unfolding resolve_template_string replace_from replacement template_name word is_word starts_with
      lookup member text_eq
  resolve_template_string-inherited = (
    append-nil _,
    (
      append-nil _,
      (append-nil _, (append-nil _, (append-nil _, (append-nil _, (append-nil _, tt))))),
    ),
  )
