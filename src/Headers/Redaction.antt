-- ===== src/Headers/Redaction.antt =====
-- What `redactHeader` shows of a credential.
use dotnet_web_api_startpack.Prelude.{
  ◌-◌, ◌≤◌, ◌<◌, Text, lit, [], ◌∷◌, ◌++◌, map, ◌≡◌, ◌≢◌, refl, sym, ap, ◌∙◌, arith, All,
  append_assoc, drop-append, take-append, length, length-append, take, drop, split, split-join,
  join, text_eq_refl, ltb, if◌then◌else◌,
}
use dotnet_web_api_startpack.Headers.{redact_header, to_lower}

-- A value of the shape `scheme token`.
abbrev pub credential : Text → Text → Text
credential scheme token = scheme ++ (lit " " ++ token)

abbrev pub NoSpace : Text → Type 0
NoSpace t = All (λ c. c ≢ b' ') t

split-credential :
    (scheme token : Text)
    → NoSpace scheme
    → NoSpace token
    → split (lit " ") (credential scheme token) ≡ scheme ∷ token ∷ []
unfolding join
split-credential scheme token h k = split-join b' ' [] scheme (token ∷ []) (h, (k, tt))

-- What is shown of a token without spaces.
abbrev shown : Text → Text → Text
shown scheme token =
    if ltb (length token) 20
    then scheme ++ lit " ••••••••"
    else scheme ++ (lit " " ++ (take 12 token ++ (lit "…" ++ drop (length token - 5) token)))

redact_header-credential :
    (name scheme token : Text)
    → map to_lower name ≡ lit "authorization"
    → NoSpace scheme
    → NoSpace token
    → redact_header name (credential scheme token) ≡ shown scheme token
unfolding redact_header
redact_header-credential name scheme token e h k =
    rw e (rw (split-credential scheme token h k) (rw (text_eq_refl (lit "authorization")) refl))

shown-long :
    (scheme a m b : Text)
    → length a ≡ 12
    → length b ≡ 5
    → 3 ≤ length m
    → shown scheme (a ++ (m ++ b)) ≡ scheme ++ (lit " " ++ (a ++ (lit "…" ++ b)))
shown-long scheme a m b ha hb hm =
    let size = length-append a (m ++ b) in
    let size' = length-append m b in
    let prefix = take-append a (m ++ b) in
    let suffix = drop-append (a ++ m) b in
    let whole = append_assoc a m b in
    let front = length-append a m in
    let cut : length (a ++ (m ++ b)) - 5 ≡ length (a ++ m) = omega arith in
    ground (arith, size, size', prefix, suffix, whole, front, cut, ha)

-- Two tokens that are not told apart: both short, or with the same first twelve and last five
-- characters and at least three between them.
pub data Alike : Text → Text → Type 0 where
  short : {t t' : Text} → length t < 20 → length t' < 20 → Alike t t'
  long :
      (a m m' b : Text) {t t' : Text}
      → t ≡ a ++ (m ++ b)
      → t' ≡ a ++ (m' ++ b)
      → length a ≡ 12
      → length b ≡ 5
      → 3 ≤ length m
      → 3 ≤ length m'
      → Alike t t'

shown-Alike : (scheme : Text) {t t' : Text} → Alike t t' → shown scheme t ≡ shown scheme t'
shown-Alike scheme (short h h') = ground arith
shown-Alike scheme (long a m m' b e e' ha hb hm hm') =
    ap (shown scheme) e
    ∙ shown-long scheme a m b ha hb hm
    ∙ sym (shown-long scheme a m' b ha hb hm')
    ∙ ap (shown scheme) (sym e')

-- The text that is shown for an authorization header, its name in any case, does not depend on more
-- of the token than its first twelve and last five characters, and on nothing of a token shorter than
-- twenty characters.
pub redact_header-Alike :
    (name scheme t t' : Text)
    → map to_lower name ≡ lit "authorization"
    → NoSpace scheme
    → NoSpace t
    → NoSpace t'
    → Alike t t'
    → redact_header name (credential scheme t) ≡ redact_header name (credential scheme t')
redact_header-Alike name scheme t t' e h k k' alike =
    redact_header-credential name scheme t e h k
    ∙ shown-Alike scheme alike
    ∙ sym (redact_header-credential name scheme t' e h k')
