-- ===== src/Browser/Base64.antt =====
-- `bytesToBase64Url` and `base64UrlToBytes` of browser-effects.ts, with the browser's `btoa` and `atob`.
pub mod Core
pub mod RoundTrip
use dotnet_web_api_startpack.Prelude.{
  ℕ, suc, ◌+◌, ◌-◌, ◌*◌, ◌/◌, ◌%◌, Text, lit, List, [], ◌∷◌, ◌++◌, map, Bool, true, false, not,
  Option, none, some, ◌>>=◌, ◌==◌, length, filter, get_or, replicate, if◌then◌else◌,
}
use dotnet_web_api_startpack.Uri.{one_of}
use dotnet_web_api_startpack.Browser.{index_of, strip_padding, bytes_of}

abbrev pub alphabet64 : Text
alphabet64 = lit "ABCDEFGHIJKLMNOPQRSTUVWXYZabcdefghijklmnopqrstuvwxyz0123456789+/"

abbrev pub symbol64 : ℕ → ℕ
symbol64 i = get_or alphabet64 i 0

-- `btoa` of a text whose units are bytes.
unfoldable pub btoa : List ℕ → Text
btoa [] = []
btoa (a ∷ []) = symbol64 (a / 4) ∷ symbol64 (a % 4 * 16) ∷ b'=' ∷ b'=' ∷ []
btoa (a ∷ (b ∷ [])) =
    symbol64 (a / 4) ∷ symbol64 (a % 4 * 16 + b / 16) ∷ symbol64 (b % 16 * 4) ∷ b'=' ∷ []
btoa (a ∷ (b ∷ (c ∷ rest))) =
    symbol64 (a / 4)
    ∷ symbol64 (a % 4 * 16 + b / 16)
    ∷ symbol64 (b % 16 * 4 + c / 64)
    ∷ symbol64 (c % 64)
    ∷ btoa rest

-- `text.replace(/from/g, to)` for single characters.
abbrev pub replace_all : ℕ → ℕ → Text → Text
replace_all from to = map (λ c. if c == from then to else c)

unfoldable pub bytes_to_base64_url : List ℕ → Text
bytes_to_base64_url bytes =
    strip_padding (replace_all b'/' b'_' (replace_all b'+' b'-' (btoa bytes)))

abbrev pub six_bits : ℕ → List ℕ
six_bits i = (i / 32 % 2) ∷ (i / 16 % 2) ∷ (i / 8 % 2) ∷ (i / 4 % 2) ∷ (i / 2 % 2) ∷ (i % 2) ∷ []

unfoldable pub bits64 : Text → Option (List ℕ)
bits64 [] = some []
bits64 (c ∷ s) = index_of c alphabet64 >>= λ i. bits64 s >>= λ rest. some (six_bits i ++ rest)

-- A padding character at the end is dropped.
unfoldable pub drop_pad : Text → Text
drop_pad [] = []
drop_pad (c ∷ []) = if c == b'=' then [] else c ∷ []
drop_pad (c ∷ (d ∷ s)) = c ∷ drop_pad (d ∷ s)

abbrev pub is_ascii_space : ℕ → Bool
is_ascii_space c = one_of (9 ∷ 10 ∷ 12 ∷ 13 ∷ 32 ∷ []) c

-- `atob`, as the bytes of its text; `none` is the exception on a text that is no Base64.
unfoldable pub atob : Text → Option (List ℕ)
atob text =
    let clean = filter (λ c. not (is_ascii_space c)) text in
    let s = if length clean % 4 == 0 then drop_pad (drop_pad clean) else clean in
    if length s % 4 == 1 then none else (bits64 s >>= λ bits. some (bytes_of bits))

-- `text.padEnd(width, "=")`
abbrev pub pad_end : ℕ → Text → Text
pad_end width text = text ++ replicate (width - length text) b'='

unfoldable pub base64_url_to_bytes : Text → Option (List ℕ)
base64_url_to_bytes value =
    atob
      (pad_end ((length value + 3) / 4 * 4) (replace_all b'_' b'/' (replace_all b'-' b'+' value)))
