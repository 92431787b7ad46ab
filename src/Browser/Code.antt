-- ===== src/Browser/Code.antt =====
-- The code that `computeTotp` gives.
use dotnet_web_api_startpack.Prelude.{
  ℕ, zero, suc, ◌+◌, ◌-◌, ◌*◌, ◌/◌, ◌%◌, ◌≤◌, ◌<◌, Text, List, [], ◌∷◌, ◌++◌, foldl, Option, some,
  ◌≡◌, refl, arith, All, length, ltb, replicate, Bool-cases, inl, inr, All-append, length-append,
}
use dotnet_web_api_startpack.Browser.{
  decode_base32, compute_totp, counter_bytes, truncated, decimal, pad_start,
}

-- The number that a text of decimal digits stands for.
abbrev pub number : Text → ℕ
number text = foldl (λ n c. n * 10 + (c - 48)) 0 text

abbrev pub IsDigit : ℕ → Type 0
IsDigit c = (48 ≤ c) × (c ≤ 57)

abbrev pub IsCode : Text → ℕ → Type 0
IsCode code n = (length code ≡ 6) × All IsDigit code × (number code ≡ n)

-- Ten to a power, by the recursion of `decimal`.
abbrev power : ℕ → ℕ
power zero = 1
power (suc d) = 10 * power d

number-snoc : (t : Text) (c : ℕ) → number (t ++ (c ∷ [])) ≡ number t * 10 + (c - 48)
number-snoc t c = foldl-snoc t 0
  where
    foldl-snoc :
        (t : Text) (n : ℕ)
        → foldl (λ n c. n * 10 + (c - 48)) n (t ++ (c ∷ []))
          ≡ foldl (λ n c. n * 10 + (c - 48)) n t * 10 + (c - 48)
    foldl-snoc [] n = refl
    foldl-snoc (d ∷ t) n = foldl-snoc t (n * 10 + (d - 48))

-- The text of a number that has enough digits.
abbrev IsDecimal : ℕ → ℕ → Text → Type 0
IsDecimal digits n t = (length t ≤ digits) × All IsDigit t × (number t ≡ n)

IsDecimal-short : (digits n : ℕ) → n < 10 → IsDecimal (suc digits) n ((48 + n) ∷ [])
IsDecimal-short digits n h = (omega arith, ((omega arith, omega arith), tt), omega arith)

decimal-IsDecimal : (digits n : ℕ) → n < power digits → IsDecimal digits n (decimal digits n)
unfolding decimal
decimal-IsDecimal zero n h = (omega arith, tt, omega arith)
decimal-IsDecimal (suc digits) n h =
    let (size, all, value) = decimal-IsDecimal digits (n / 10) (omega arith) in
    elim (Bool-cases (ltb n 10)) [
      | inl small ↦ rw (small, decimal) (IsDecimal-short digits n (ground arith))
      | inr big ↦
          rw (big, decimal)
            (
              omega (arith, size, length-append (decimal digits (n / 10)) ((48 + n % 10) ∷ [])),
              All-append IsDigit (decimal digits (n / 10)) _ all ((omega arith, omega arith), tt),
              omega (arith, value, number-snoc (decimal digits (n / 10)) (48 + n % 10)),
            )
    ]

zeros-IsDecimal :
    (k digits n : ℕ) (t : Text)
    → IsDecimal digits n t
    → (length (replicate k b'0' ++ t) ≡ k + length t)
      × All IsDigit (replicate k b'0' ++ t)
      × (number (replicate k b'0' ++ t) ≡ n)
zeros-IsDecimal zero digits n t (size, all, value) = (omega arith, all, value)
zeros-IsDecimal (suc k) digits n t d =
    let (size, all, value) = zeros-IsDecimal k digits n t d in
    (omega (arith, size), ((omega arith, omega arith), all), value)

padded-IsCode : (k n : ℕ) (t : Text) → IsDecimal k n t → k ≤ 6 → IsCode (pad_start 6 t) n
padded-IsCode k n t d h =
    let (size, all, value) = zeros-IsDecimal (6 - length t) k n t d in
    (omega (arith, size, d.0), all, value)

IsCode-decimal : (n : ℕ) → n < 1000000 → IsCode (pad_start 6 (decimal 6 n)) n
IsCode-decimal n h = padded-IsCode 6 n (decimal 6 n) (decimal-IsDecimal 6 n h) (omega arith)

module _ (upper : Text → Text) (sign : List ℕ → List ℕ → Option (List ℕ)) where
  -- If the secret can be decoded and the counter of the 30 seconds can be signed, the code is six
  -- decimal digits, and as a number it is the truncated digest modulo a million.
  pub compute_totp-IsCode :
      (secret : Text) (now : ℕ) (key digest : List ℕ)
      → decode_base32 upper sign secret ≡ some key
      → sign key (counter_bytes (now / 30000)) ≡ some digest
      → (code : Text) × (compute_totp upper sign secret now ≡ some code)
        × IsCode code (truncated digest % 1000000)
  unfolding compute_totp
  compute_totp-IsCode secret now key digest decoded signed =
      let same : now / 1000 / 30 ≡ now / 30000 = omega arith in
      (
        pad_start 6 (decimal 6 (truncated digest % 1000000)),
        rw (decoded, same, signed) refl,
        IsCode-decimal (truncated digest % 1000000) (omega arith),
      )
