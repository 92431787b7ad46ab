-- ===== src/Headers/Cookies.antt =====
-- `readCookie` against a jar of pairs.
use dotnet_web_api_startpack.Prelude.{
  ℕ, Text, lit, List, [], ◌∷◌, ◌++◌, map, false, Option, none, some, ◌≡◌, ◌≢◌, refl, sym, ap, ◌∙◌,
  arith, All, append_assoc, drop-append, length, drop, find?, lookup, starts_with, join, split-join,
  split-nil, text_eq, text_eq_iff, Bool-cases, inl, inr,
}
use dotnet_web_api_startpack.Template.{is_empty}
use dotnet_web_api_startpack.Uri.{encode_component, decode_component, is_unreserved}
use dotnet_web_api_startpack.Uri.Bounds.{IsUriSafe, encode_component-IsUriSafe}
use dotnet_web_api_startpack.Address.Fill.{All-IsUriSafe}
use dotnet_web_api_startpack.Headers.{read_cookie, cookie_result}

-- The text that `document.cookie` holds for a jar.
abbrev pub pair_text : Text × Text → Text
pair_text (k, v) = k ++ (b'=' ∷ v)

abbrev pub cookie_text : List (Text × Text) → Text
cookie_text jar = join (lit "; ") (map pair_text jar)

-- A name has no `=` and no `;`, a value has no `;`.
abbrev pub IsPair : Text × Text → Type 0
IsPair (k, v) = All (λ c. (c ≢ b'=') × (c ≢ b';')) k × All (λ c. c ≢ b';') v

-- What a reader of the jar expects.
abbrev pub expected : Option Text → Option Text
expected none = some []
expected (some value) = decode_component value

starts_with-pair :
    (e k v : Text)
    → All (λ c. c ≢ b'=') e
    → All (λ c. (c ≢ b'=') × (c ≢ b';')) k
    → starts_with (e ++ lit "=") (k ++ (b'=' ∷ v)) ≡ text_eq k e
unfolding starts_with text_eq
starts_with-pair [] [] v h g = refl
starts_with-pair [] (c ∷ k) v h (g, gs) = ground arith
starts_with-pair (a ∷ e) [] v (h, hs) g = ground arith
starts_with-pair (a ∷ e) (c ∷ k) v (h, hs) (g, gs) = ground (arith, starts_with-pair e k v hs gs)

pair_text-plain : (kv : Text × Text) → IsPair kv → All (λ c. c ≢ b';') (pair_text kv)
pair_text-plain ([], v) (_, h) = (ground arith, h)
pair_text-plain (c ∷ k, v) ((g, gs), h) = (g.1, pair_text-plain (k, v) (gs, h))

pairs-plain :
    (jar : List (Text × Text)) → All IsPair jar → All (All (λ c. c ≢ b';')) (map pair_text jar)
pairs-plain [] h = tt
pairs-plain (kv ∷ jar) (h, hs) = (pair_text-plain kv h, pairs-plain jar hs)

is_empty-append_cons : (k v : Text) (c : ℕ) → is_empty (k ++ (c ∷ v)) ≡ false
is_empty-append_cons [] v c = refl
is_empty-append_cons (d ∷ k) v c = refl

find-pair :
    (e : Text) (jar : List (Text × Text))
    → All (λ c. c ≢ b'=') e
    → All IsPair jar
    → cookie_result (e ++ lit "=") (find? (starts_with (e ++ lit "=")) (map pair_text jar))
      ≡ expected (lookup e jar)
unfolding lookup
find-pair e [] h g = refl
find-pair e ((k, v) ∷ jar) h ((gk, gv), gs) = elim (Bool-cases (text_eq k e)) [
  | inl same ↦
      let is = (text_eq_iff k e).0 same in
      let value =
        ap (λ r. drop (length (e ++ lit "=")) (r ++ (b'=' ∷ v))) is
        ∙ ap (drop (length (e ++ lit "="))) (sym (append_assoc e (lit "=") v))
        ∙ drop-append (e ++ lit "=") v in
      ground (arith, starts_with-pair e k v h gk, is_empty-append_cons k v b'=', value)
  | inr other ↦ ground (arith, starts_with-pair e k v h gk, find-pair e jar h gs)
]

ne_equals : (c : ℕ) → IsUriSafe c → c ≢ b'='
unfolding is_unreserved
ne_equals c h = ground arith

no_pairs :
    (e : Text)
    → cookie_result (e ++ lit "=") (find? (starts_with (e ++ lit "=")) ([] ∷ [])) ≡ some []
unfolding starts_with
no_pairs [] = refl
no_pairs (c ∷ e) = refl

-- From the text of a jar of well-formed pairs, reading a cookie gives the decoded value of the first
-- pair whose name is the encoded name, and the empty text if there is none.
pub read_cookie-cookie_text :
    (name encoded : Text) (jar : List (Text × Text))
    → encode_component name ≡ some encoded
    → All IsPair jar
    → read_cookie name (cookie_text jar) ≡ expected (lookup encoded jar)
unfolding read_cookie join lookup
read_cookie-cookie_text name encoded [] e h =
    rw e (rw (split-nil b';' (lit " ")) (no_pairs encoded))
read_cookie-cookie_text name encoded (kv ∷ jar) e h =
    let safe = All-IsUriSafe _ encoded ne_equals (encode_component-IsUriSafe name encoded e) in
    let pieces =
      split-join b';' (lit " ") (pair_text kv) (map pair_text jar) (pairs-plain (kv ∷ jar) h) in
    rw e (rw pieces (find-pair encoded (kv ∷ jar) safe h))
