-- ===== src/Curl/Shell.antt =====
-- How a POSIX shell splits a command line into words, for command lines that use quotes, escapes and
-- blanks only: any other character that has a meaning to the shell where it stands gives `none`.
use dotnet_web_api_startpack.Prelude.{
  ℕ, Text, lit, List, [], ◌∷◌, ◌++◌, Bool, true, false, ◌||◌, Option, none, some, ◌>>=◌, or_else,
  ◌==◌, any,
}

pub data Mode : Type 0 where
  outside escaped single double : Mode

abbrev pub is_blank : ℕ → Bool
is_blank c = c == b' ' || (c == 9 || c == 10)

-- The characters that a shell does not take for themselves outside quotes.
abbrev pub is_special : ℕ → Bool
is_special c = any (λ d. c == d) (lit "|&;<>()$`*?[]#~{}!")

-- Those that have a meaning inside double quotes: the dollar sign, the backquote, the backslash.
abbrev pub is_active : ℕ → Bool
is_active c = any (λ d. c == d) (lit "$`\\")

abbrev pub finish : Option Text → List Text → List Text
finish none words = words
finish (some w) words = w ∷ words

abbrev pub extend : Option Text → Text → Option Text
extend cur s = some (or_else cur [] ++ s)

-- The second argument is the word that is being read, if one has begun.
unfoldable pub words_from : Mode → Option Text → Text → Option (List Text)
words_from outside cur [] = some (finish cur [])
words_from escaped cur [] = none
words_from single cur [] = none
words_from double cur [] = none
words_from outside cur (c ∷ s) = elim (is_blank c) [
  | true ↦ words_from outside none s >>= λ words. some (finish cur words)
  | false ↦ elim (c == 39) [
    | true ↦ words_from single (extend cur []) s
    | false ↦ elim (c == b'"') [
      | true ↦ words_from double (extend cur []) s
      | false ↦ elim (c == 92) [
        | true ↦ words_from escaped cur s
        | false ↦ elim (is_special c) [
          | true ↦ none
          | false ↦ words_from outside (extend cur (c ∷ [])) s
        ]
      ]
    ]
  ]
]
words_from escaped cur (c ∷ s) = elim (c == 10) [
  | true ↦ words_from outside cur s
  | false ↦ words_from outside (extend cur (c ∷ [])) s
]
words_from single cur (c ∷ s) = elim (c == 39) [
  | true ↦ words_from outside cur s
  | false ↦ words_from single (extend cur (c ∷ [])) s
]
words_from double cur (c ∷ s) = elim (c == b'"') [
  | true ↦ words_from outside cur s
  | false ↦ elim (is_active c) [ true ↦ none | false ↦ words_from double (extend cur (c ∷ [])) s ]
]

unfoldable pub shell_words : Text → Option (List Text)
shell_words s = words_from outside none s
