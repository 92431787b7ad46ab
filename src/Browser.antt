-- ===== src/Browser.antt =====
-- `computeTotp` and `decodeBase32` of playground-ui/src/features/workbench/browser-effects.ts.
pub mod Code
pub mod Counter
pub mod Base32
pub mod Base64
pub mod Passkey
use dotnet_web_api_startpack.Prelude.{
  ℕ, zero, suc, ◌+◌, ◌-◌, ◌*◌, ◌/◌, ◌%◌, Text, lit, List, [], ◌∷◌, ◌++◌, Bool, true, false, ◌&&◌,
  not, Option, none, some, ◌>>=◌, ◌==◌, ltb, length, filter, get_or, replicate, if◌then◌else◌,
}
use dotnet_web_api_startpack.Template.{is_empty}
use dotnet_web_api_startpack.Search.{is_space}

abbrev pub alphabet : Text
alphabet = lit "ABCDEFGHIJKLMNOPQRSTUVWXYZ234567"

-- `text.indexOf(character)`, with `none` for -1.
unfoldable pub index_of : ℕ → Text → Option ℕ
index_of c [] = none
index_of c (d ∷ s) = elim (c == d) [ true ↦ some 0 | false ↦ index_of c s >>= λ i. some (suc i) ]

-- `value.replace(/=+$/g, "")`
unfoldable pub strip_padding : Text → Text
strip_padding [] = []
strip_padding (c ∷ s) =
    let rest = strip_padding s in if c == b'=' && is_empty rest then [] else c ∷ rest

-- `index.toString(2).padStart(5, "0")` of an index below 32.
abbrev pub five_bits : ℕ → List ℕ
five_bits i = (i / 16 % 2) ∷ (i / 8 % 2) ∷ (i / 4 % 2) ∷ (i / 2 % 2) ∷ (i % 2) ∷ []

-- The first loop; `none` is its Error.
unfoldable pub bits_of : Text → Option (List ℕ)
bits_of [] = some []
bits_of (c ∷ s) = index_of c alphabet >>= λ i. bits_of s >>= λ rest. some (five_bits i ++ rest)

-- The second loop: bits are taken by eight, the rest is dropped.
unfoldable pub bytes_of : List ℕ → List ℕ
bytes_of (a ∷ b ∷ c ∷ d ∷ e ∷ f ∷ g ∷ h ∷ rest) =
    (a * 128 + b * 64 + c * 32 + d * 16 + e * 8 + f * 4 + g * 2 + h) ∷ bytes_of rest
bytes_of _ = []

-- The bytes of the counter: the lowest goes into the last place, and so on to the first.
unfoldable pub fill_bytes : ℕ → ℕ → List ℕ → List ℕ
fill_bytes zero remaining bytes = bytes
fill_bytes (suc places) remaining bytes =
    fill_bytes places (remaining / 256) (remaining % 256 ∷ bytes)

abbrev pub counter_bytes : ℕ → List ℕ
counter_bytes counter = fill_bytes 8 counter []

-- `digest.at(-1) ?? 0`
unfoldable pub last_byte : List ℕ → ℕ
last_byte [] = 0
last_byte (b ∷ []) = b
last_byte (b ∷ (c ∷ bytes)) = last_byte (c ∷ bytes)

-- The 31 bits at the offset. The operands of `|` have no bit in common, since they are bytes.
abbrev pub truncated : List ℕ → ℕ
truncated digest =
    let offset = last_byte digest % 16 in
    get_or digest offset 0 % 128 * 16777216
    + get_or digest (offset + 1) 0 * 65536
    + get_or digest (offset + 2) 0 * 256
    + get_or digest (offset + 3) 0

-- `String(n)` of a number with at most so many digits.
unfoldable pub decimal : ℕ → ℕ → Text
decimal zero n = []
decimal (suc digits) n =
    let high = decimal digits (n / 10) in
    if ltb n 10 then (48 + n) ∷ [] else high ++ ((48 + n % 10) ∷ [])

-- `text.padStart(width, "0")`
abbrev pub pad_start : ℕ → Text → Text
pad_start width text = replicate (width - length text) b'0' ++ text

-- `upper` is `toUpperCase`; `sign key message` is the HMAC with SHA-1 of the browser, with `none` for
-- an exception.
module _ (upper : Text → Text) (sign : List ℕ → List ℕ → Option (List ℕ)) where
  unfoldable pub decode_base32 : Text → Option (List ℕ)
  decode_base32 value = do
    bits ← bits_of (filter (λ c. not (is_space c)) (strip_padding (upper value)))
    some (bytes_of bits)

  -- `computeTotp`, with the time in milliseconds.
  unfoldable pub compute_totp : Text → ℕ → Option Text
  compute_totp secret now = do
    key ← decode_base32 secret
    digest ← sign key (counter_bytes (now / 1000 / 30))
    some (pad_start 6 (decimal 6 (truncated digest % 1000000)))
