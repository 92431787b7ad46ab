-- ===== src/Uri.antt =====
-- The functions of the language's library that put texts into an address: `encodeURIComponent`,
-- `decodeURIComponent`, and the serializer behind `URLSearchParams.toString`.
pub mod Bounds
use dotnet_web_api_startpack.Prelude.{
  ℕ, zero, suc, ◌+◌, ◌-◌, ◌*◌, ◌/◌, ◌%◌, Text, lit, List, [], ◌∷◌, ◌++◌, Bool, true, false, ◌&&◌,
  ◌||◌, not, Option, none, some, ◌>>=◌, leb, ltb, ◌==◌, any, if◌then◌else◌, member,
}

abbrev pub is_between : ℕ → ℕ → ℕ → Bool
is_between lo hi c = leb lo c && leb c hi

abbrev pub is_alphanumeric : ℕ → Bool
is_alphanumeric c = is_between b'a' b'z' c || (is_between b'A' b'Z' c || is_between b'0' b'9' c)

abbrev pub one_of : Text → ℕ → Bool
one_of s c = any (λ d. c == d) s

-- Code points: a lead surrogate with the trail surrogate after it is one code point, any other
-- surrogate stays alone. The first argument is a lead surrogate that waits for its trail.
abbrev pub is_lead : ℕ → Bool
is_lead u = is_between 0xD800 0xDBFF u

abbrev pub is_trail : ℕ → Bool
is_trail u = is_between 0xDC00 0xDFFF u

abbrev pub combine : ℕ → ℕ → ℕ
combine h u = 0x10000 + (h - 0xD800) * 0x400 + (u - 0xDC00)

unfoldable pub code_points_from : Option ℕ → Text → List ℕ
code_points_from none [] = []
code_points_from (some h) [] = h ∷ []
code_points_from none (u ∷ s) = elim (is_lead u) [
  | true ↦ code_points_from (some u) s
  | false ↦ u ∷ code_points_from none s
]
code_points_from (some h) (u ∷ s) = elim (is_trail u) [
  | true ↦ combine h u ∷ code_points_from none s
  | false ↦ elim (is_lead u) [
    | true ↦ h ∷ code_points_from (some u) s
    | false ↦ h ∷ u ∷ code_points_from none s
  ]
]

abbrev pub code_points : Text → List ℕ
code_points s = code_points_from none s

abbrev pub is_surrogate : ℕ → Bool
is_surrogate c = is_between 0xD800 0xDFFF c

-- UTF-8
unfoldable pub utf8 : ℕ → List ℕ
utf8 c =
    if ltb c 0x80
    then c ∷ []
    else if ltb c 0x800
    then (0xC0 + c / 64) ∷ (0x80 + c % 64) ∷ []
    else if ltb c 0x10000
    then (0xE0 + c / 4096) ∷ (0x80 + c / 64 % 64) ∷ (0x80 + c % 64) ∷ []
    else (0xF0 + c / 262144) ∷ (0x80 + c / 4096 % 64) ∷ (0x80 + c / 64 % 64) ∷ (0x80 + c % 64) ∷ []

-- `%XX`, with upper-case digits
unfoldable pub hex_digit : ℕ → ℕ
hex_digit d = if ltb d 10 then 48 + d else 55 + d

abbrev pub percent : ℕ → Text
percent byte = b'%' ∷ hex_digit (byte / 16 % 16) ∷ hex_digit (byte % 16) ∷ []

unfoldable pub percent_all : List ℕ → Text
percent_all [] = []
percent_all (byte ∷ bytes) = percent byte ++ percent_all bytes

-- What `encodeURIComponent` leaves as it is.
unfoldable pub is_unreserved : ℕ → Bool
is_unreserved c = is_alphanumeric c || one_of (lit "-_.!~*'()") c

-- `none` is the URIError of a surrogate that stands alone.
unfoldable pub encode_point : ℕ → Option Text
encode_point c =
    if is_unreserved c
    then some (c ∷ [])
    else if is_surrogate c
    then none
    else some (percent_all (utf8 c))

unfoldable pub encode_points : List ℕ → Option Text
encode_points [] = some []
encode_points (c ∷ cs) = encode_point c >>= λ e. encode_points cs >>= λ rest. some (e ++ rest)

unfoldable pub encode_component : Text → Option Text
encode_component s = encode_points (code_points s)

-- `application/x-www-form-urlencoded`: a lone surrogate is sent as U+FFFD.
unfoldable pub form_point : ℕ → Text
form_point c =
    if c == b' '
    then b'+' ∷ []
    else if is_alphanumeric c || one_of (lit "*-._") c
    then c ∷ []
    else percent_all (utf8 (if is_surrogate c then 0xFFFD else c))

unfoldable pub form_points : List ℕ → Text
form_points [] = []
form_points (c ∷ cs) = form_point c ++ form_points cs

unfoldable pub form_encode : Text → Text
form_encode s = form_points (code_points s)

abbrev pub form_pair : Text × Text → Text
form_pair (k, v) = form_encode k ++ (b'=' ∷ form_encode v)

-- `new URLSearchParams(...).toString()`
unfoldable pub form_serialize : List (Text × Text) → Text
form_serialize [] = []
form_serialize (kv ∷ []) = form_pair kv
form_serialize (kv ∷ (kv' ∷ rest)) = form_pair kv ++ (b'&' ∷ form_serialize (kv' ∷ rest))

-- `decodeURIComponent`; `none` is its URIError.
unfoldable pub hex_value : ℕ → Option ℕ
hex_value c =
    if is_between b'0' b'9' c
    then some (c - 48)
    else if is_between b'A' b'F' c
    then some (c - 55)
    else if is_between b'a' b'f' c
    then some (c - 87)
    else none

-- The code units of a code point.
unfoldable pub utf16 : ℕ → Text
utf16 c =
    if ltb c 0x10000
    then c ∷ []
    else (0xD800 + (c - 0x10000) / 0x400) ∷ (0xDC00 + (c - 0x10000) % 0x400) ∷ []

-- The decoder's state: how many continuation bytes are missing, the bits so far, and the least code
-- point that the sequence may stand for.
pub record Pending : Type 0 where
  pub missing : ℕ
  pub bits : ℕ
  pub least : ℕ

-- The first byte of a sequence: a character, or the state to go on from.
pub data Lead : Type 0 where
  ascii : ℕ → Lead
  multi : Pending → Lead
  invalid : Lead

unfoldable pub lead_byte : ℕ → Lead
lead_byte b =
    if ltb b 0x80
    then ascii b
    else if is_between 0xC0 0xDF b
    then multi (record { missing = 1; bits = b - 0xC0; least = 0x80 })
    else if is_between 0xE0 0xEF b
    then multi (record { missing = 2; bits = b - 0xE0; least = 0x800 })
    else if is_between 0xF0 0xF7 b
    then multi (record { missing = 3; bits = b - 0xF0; least = 0x10000 })
    else invalid

abbrev pub is_scalar : Pending → Bool
is_scalar q = leb q.least q.bits && (leb q.bits 0x10FFFF && not (is_surrogate q.bits))

-- One more byte of a sequence.
unfoldable pub continue_byte : ℕ → Pending → Option Pending
continue_byte b q =
    if is_between 0x80 0xBF b
    then some (record { missing = q.missing - 1; bits = q.bits * 64 + (b - 0x80); least = q.least })
    else none

unfoldable pub decode_from : Option Pending → Text → Option Text
decode_from none [] = some []
decode_from (some q) [] = none
decode_from none (c ∷ []) = if c == b'%' then none else some (c ∷ [])
decode_from none (c ∷ (x ∷ [])) =
    if c == b'%' then none else if x == b'%' then none else some (c ∷ x ∷ [])
decode_from none (c ∷ (x ∷ (y ∷ s))) = elim (c == b'%') [
  | false ↦ decode_from none (x ∷ (y ∷ s)) >>= λ rest. some (c ∷ rest)
  | true ↦ hex_value x >>= λ hi. hex_value y >>= λ lo. elim (lead_byte (hi * 16 + lo)) [
    | ascii b ↦ decode_from none s >>= λ rest. some (b ∷ rest)
    | multi q ↦ decode_from (some q) s
    | invalid ↦ none
  ]
]
decode_from (some q) (c ∷ []) = none
decode_from (some q) (c ∷ (x ∷ [])) = none
decode_from (some q) (c ∷ (x ∷ (y ∷ s))) = elim (c == b'%') [
  | false ↦ none
  | true ↦ hex_value x >>= λ hi. hex_value y >>= λ lo. continue_byte (hi * 16 + lo) q >>= λ q'.
      elim (q'.missing == 0) [
        | true ↦
            if is_scalar q'
            then (decode_from none s >>= λ rest. some (utf16 q'.bits ++ rest))
            else none
        | false ↦ decode_from (some q') s
      ]
]

unfoldable pub decode_component : Text → Option Text
decode_component s = decode_from none s
