-- ===== src/Uri/Bounds.antt =====
-- Which characters the encoders of Uri write.
use dotnet_web_api_startpack.Prelude.{
  ℕ, ◌/◌, ◌%◌, ◌<◌, Text, List, [], ◌∷◌, ◌++◌, ◌≡◌, ◌⊎◌, inl, inr, refl, true, some, arith, All,
  All-append, Bool-cases, bind-eq-some, subst, some-injective,
}
use dotnet_web_api_startpack.Uri.{
  hex_digit, percent, percent_all, is_unreserved, is_surrogate, utf8, encode_point, encode_points,
  encode_component, code_points,
}

-- A character that `encodeURIComponent` keeps, or the percent sign.
abbrev pub IsUriSafe : ℕ → Type 0
IsUriSafe c = (is_unreserved c ≡ true) ⊎ (c ≡ b'%')

hex_digit-unreserved : (d : ℕ) → d < 16 → is_unreserved (hex_digit d) ≡ true
unfolding is_unreserved hex_digit
hex_digit-unreserved d h = ground arith

percent-IsUriSafe : (byte : ℕ) → All IsUriSafe (percent byte)
percent-IsUriSafe byte =
    let high = hex_digit-unreserved (byte / 16 % 16) (omega arith) in
    let low = hex_digit-unreserved (byte % 16) (omega arith) in
    (inr refl, (inl high, (inl low, tt)))

pub percent_all-IsUriSafe : (bytes : List ℕ) → All IsUriSafe (percent_all bytes)
unfolding percent_all
percent_all-IsUriSafe [] = tt
percent_all-IsUriSafe (byte ∷ bytes) =
    All-append IsUriSafe (percent byte) _ (percent-IsUriSafe byte) (percent_all-IsUriSafe bytes)

IsUriSafe-some : (a : Text) {e : Text} → some a ≡ some e → All IsUriSafe a → All IsUriSafe e
IsUriSafe-some a h = subst (All IsUriSafe) (some-injective _ _ h)

encode_point-IsUriSafe : (c : ℕ) (e : Text) → encode_point c ≡ some e → All IsUriSafe e
unfolding encode_point
encode_point-IsUriSafe c e h = elim (Bool-cases (is_unreserved c)) [
  | inl keep ↦ IsUriSafe-some (c ∷ []) (ground arith) (inl keep, tt)
  | inr other ↦ elim (Bool-cases (is_surrogate c)) [
    | inl lone ↦ absurd (ground arith)
    | inr _ ↦ IsUriSafe-some (percent_all (utf8 c)) (ground arith) (percent_all-IsUriSafe (utf8 c))
  ]
]

encode_points-IsUriSafe : (cs : List ℕ) (e : Text) → encode_points cs ≡ some e → All IsUriSafe e
unfolding encode_points
encode_points-IsUriSafe [] e h = IsUriSafe-some [] h tt
encode_points-IsUriSafe (c ∷ cs) e h =
    let (first, encoded, h') = bind-eq-some (encode_point c) _ h in
    let (rest, tail, same) = bind-eq-some (encode_points cs) _ h' in
    IsUriSafe-some (first ++ rest) same (
      All-append IsUriSafe first rest (encode_point-IsUriSafe c first encoded)
        (encode_points-IsUriSafe cs rest tail))

pub encode_component-IsUriSafe : (s e : Text) → encode_component s ≡ some e → All IsUriSafe e
unfolding encode_component
encode_component-IsUriSafe s e h = encode_points-IsUriSafe (code_points s) e h
