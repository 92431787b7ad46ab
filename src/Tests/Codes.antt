-- ===== src/Tests/Codes.antt =====
-- The codes of the authenticator, at small inputs.
use dotnet_web_api_startpack.Prelude.{
  ℕ, Text, lit, List, [], ◌∷◌, Option, some, none, ◌≡◌, ◌%◌, refl, arith, replicate,
}
use dotnet_web_api_startpack.Browser.{
  index_of, strip_padding, bits_of, bytes_of, truncated, decode_base32, compute_totp,
}
use dotnet_web_api_startpack.Browser.Code.{IsCode, compute_totp-IsCode}
use dotnet_web_api_startpack.Browser.Base32.{encode_base32, decode_base32-encode_base32}

-- A platform that leaves upper-case texts alone and signs with a fixed digest.
abbrev same_text : Text → Text
same_text t = t

abbrev digest : List ℕ
digest = replicate 19 0xFE

abbrev fixed_sign : List ℕ → List ℕ → Option (List ℕ)
fixed_sign key message = some digest

invalid : decode_base32 same_text fixed_sign (lit "ME1=") ≡ none
unfolding decode_base32 strip_padding bits_of index_of
invalid = refl

decode_base32-encode_base32_example :
    decode_base32 same_text fixed_sign (lit "MFRGG===") ≡ some (97 ∷ 98 ∷ 99 ∷ [])
unfolding encode_base32
decode_base32-encode_base32_example =
    decode_base32-encode_base32 same_text fixed_sign (97 ∷ 98 ∷ 99 ∷ []) 3 (ground arith) refl

compute_totp-IsCode_example :
    (code : Text) × (compute_totp same_text fixed_sign (lit "MFRGG") 1700000000000 ≡ some code)
    × IsCode code (truncated digest % 1000000)
unfolding decode_base32 strip_padding bits_of bytes_of index_of
compute_totp-IsCode_example =
    compute_totp-IsCode same_text fixed_sign (lit "MFRGG") 1700000000000 (97 ∷ 98 ∷ 99 ∷ []) digest
      refl refl
