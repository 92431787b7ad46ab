-- ===== src/Browser/Base32.antt =====
-- `decodeBase32` against the encoding of RFC 4648.
use dotnet_web_api_startpack.Prelude.{
  ℕ, zero, suc, ◌+◌, ◌*◌, ◌/◌, ◌%◌, ◌<◌, Text, List, [], ◌∷◌, ◌++◌, Bool, true, false, ◌&&◌, not,
  Option, none, some, ◌≡◌, refl, ap, ◌∙◌, map, arith, All, Bool-cases, subst, and_parts, inl, inr,
  ◌==◌, get_or, filter, replicate,
}
use dotnet_web_api_startpack.Search.{is_space}
use dotnet_web_api_startpack.Browser.{
  alphabet, index_of, strip_padding, five_bits, bits_of, bytes_of, decode_base32,
}

abbrev pub symbol : ℕ → ℕ
symbol i = get_or alphabet i 0

-- The encoding without padding: five bytes are eight symbols of five bits each, and the bits that the
-- last symbol of the text lacks are zero.
unfoldable pub encode_base32 : List ℕ → Text
encode_base32 [] = []
encode_base32 (a ∷ []) = symbol (a / 8) ∷ symbol (a % 8 * 4) ∷ []
encode_base32 (a ∷ (b ∷ [])) =
    symbol (a / 8) ∷ symbol (a % 8 * 4 + b / 64) ∷ symbol (b / 2 % 32) ∷ symbol (b % 2 * 16) ∷ []
encode_base32 (a ∷ (b ∷ (c ∷ []))) =
    symbol (a / 8)
    ∷ symbol (a % 8 * 4 + b / 64)
    ∷ symbol (b / 2 % 32)
    ∷ symbol (b % 2 * 16 + c / 16)
    ∷ symbol (c % 16 * 2)
    ∷ []
encode_base32 (a ∷ (b ∷ (c ∷ (d ∷ [])))) =
    symbol (a / 8)
    ∷ symbol (a % 8 * 4 + b / 64)
    ∷ symbol (b / 2 % 32)
    ∷ symbol (b % 2 * 16 + c / 16)
    ∷ symbol (c % 16 * 2 + d / 128)
    ∷ symbol (d / 4 % 32)
    ∷ symbol (d % 4 * 8)
    ∷ []
encode_base32 (a ∷ (b ∷ (c ∷ (d ∷ (e ∷ rest))))) =
    symbol (a / 8)
    ∷ symbol (a % 8 * 4 + b / 64)
    ∷ symbol (b / 2 % 32)
    ∷ symbol (b % 2 * 16 + c / 16)
    ∷ symbol (c % 16 * 2 + d / 128)
    ∷ symbol (d / 4 % 32)
    ∷ symbol (d % 4 * 8 + e / 32)
    ∷ symbol (e % 32)
    ∷ encode_base32 rest

-- The symbols are found at their own indices, and are neither the padding nor white space.
abbrev pub is_found : ℕ → Option ℕ → Bool
is_found i none = false
is_found i (some j) = i == j

abbrev pub all_below : ℕ → (ℕ → Bool) → Bool
all_below zero p = true
all_below (suc n) p = p n && all_below n p

pub below : (n : ℕ) (p : ℕ → Bool) (i : ℕ) → all_below n p ≡ true → i < n → p i ≡ true
below zero p i h lt = absurd (omega arith)
below (suc n) p i h lt = elim (Bool-cases (i == n)) [
  | inl same ↦ subst (λ j. p j ≡ true) (ground (arith, same)) (and_parts (p n) _ h).0
  | inr other ↦ below n p i (and_parts (p n) _ h).1 (ground (arith, other))
]

abbrev is_symbol : ℕ → Bool
is_symbol i =
    is_found i (index_of (symbol i) alphabet)
    && (not (symbol i == b'=') && not (is_space (symbol i)))

symbols-checked : all_below 32 is_symbol ≡ true
unfolding index_of
symbols-checked = refl

pub is_found-eq : (i : ℕ) (o : Option ℕ) → is_found i o ≡ true → o ≡ some i
is_found-eq i none e = absurd (ground arith)
is_found-eq i (some j) e = ground arith

index_of-symbol : (i : ℕ) → i < 32 → index_of (symbol i) alphabet ≡ some i
index_of-symbol i h =
    is_found-eq i (index_of (symbol i) alphabet)
      (and_parts _ _ (below 32 is_symbol i symbols-checked h)).0

bits_of-symbol :
    (i : ℕ) (s : Text) (bits : List ℕ)
    → i < 32
    → bits_of s ≡ some bits
    → bits_of (symbol i ∷ s) ≡ some (five_bits i ++ bits)
unfolding bits_of
bits_of-symbol i s bits h e = rw (index_of-symbol i h, e) refl

abbrev pub IsByte : ℕ → Type 0
IsByte b = b < 256

abbrev flat : List ℕ → List ℕ
flat [] = []
flat (i ∷ indices) = five_bits i ++ flat indices

bits_of-symbols :
    (indices : List ℕ) (s : Text) (bits : List ℕ)
    → All (λ i. i < 32) indices
    → bits_of s ≡ some bits
    → bits_of (map symbol indices ++ s) ≡ some (flat indices ++ bits)
bits_of-symbols [] s bits h e = e
bits_of-symbols (i ∷ indices) s bits (h, hs) e =
    bits_of-symbol i (map symbol indices ++ s) (flat indices ++ bits) h
      (bits_of-symbols indices s bits hs e)

pub cons-eq : {x y : ℕ} {xs ys : List ℕ} → x ≡ y → xs ≡ ys → x ∷ xs ≡ y ∷ ys
cons-eq e es = cc

-- A character that cleaning keeps.
abbrev IsClean : ℕ → Type 0
IsClean c = ((c == b'=') ≡ false) × (is_space c ≡ false)

pub not-true : (b : Bool) → not b ≡ true → b ≡ false
not-true b e = ground arith

symbol-IsClean : (i : ℕ) → i < 32 → IsClean (symbol i)
symbol-IsClean i h =
    let pad = symbol i == b'=' in
    let space = is_space (symbol i) in
    let found = is_found i (index_of (symbol i) alphabet) in
    let checked = below 32 is_symbol i symbols-checked h in
    let clean =
      and_parts (not pad) (not space) (and_parts found (not pad && not space) checked).1 in
    (not-true pad clean.0, not-true space clean.1)

symbols-IsClean :
    (indices : List ℕ) (s : Text)
    → All (λ i. i < 32) indices
    → All IsClean s
    → All IsClean (map symbol indices ++ s)
symbols-IsClean [] s h clean = clean
symbols-IsClean (i ∷ indices) s (h, hs) clean =
    (symbol-IsClean i h, symbols-IsClean indices s hs clean)

-- The bits of a text, the bytes that they are, and that cleaning keeps the text.
abbrev Reads : Text → List ℕ → Type 0
Reads s bytes = (bits : List ℕ) × (bits_of s ≡ some bits) × (bytes_of bits ≡ bytes) × All IsClean s

Reads-symbols :
    (indices : List ℕ) (s : Text) (bits bytes : List ℕ)
    → All (λ i. i < 32) indices
    → bits_of s ≡ some bits
    → All IsClean s
    → bytes_of (flat indices ++ bits) ≡ bytes
    → Reads (map symbol indices ++ s) bytes
Reads-symbols indices s bits bytes h read clean same = (
  flat indices ++ bits,
  bits_of-symbols indices s bits h read,
  same,
  symbols-IsClean indices s h clean,
)

encode_base32-Reads : (bytes : List ℕ) → All IsByte bytes → Reads (encode_base32 bytes) bytes
unfolding encode_base32 bits_of bytes_of
encode_base32-Reads [] h = ([], refl, refl, tt)
encode_base32-Reads (a ∷ []) (ha, h) =
    let indices = ((a / 8) ∷ (a % 8 * 4) ∷ []) in
    Reads-symbols indices [] [] _ (omega arith, (omega arith, tt)) refl tt
      (cons-eq (omega arith) refl)
encode_base32-Reads (a ∷ (b ∷ [])) (ha, (hb, h)) =
    let indices = ((a / 8) ∷ (a % 8 * 4 + b / 64) ∷ (b / 2 % 32) ∷ (b % 2 * 16) ∷ []) in
    Reads-symbols indices [] [] _ (omega arith, (omega arith, (omega arith, (omega arith, tt))))
      refl tt (cons-eq (omega arith) (cons-eq (omega arith) refl))
encode_base32-Reads (a ∷ (b ∷ (c ∷ []))) (ha, (hb, (hc, h))) =
    let indices =
      ((a / 8) ∷ (a % 8 * 4 + b / 64) ∷ (b / 2 % 32) ∷ (b % 2 * 16 + c / 16) ∷ (c % 16 * 2) ∷ []) in
    Reads-symbols indices [] [] _
      (omega arith, (omega arith, (omega arith, (omega arith, (omega arith, tt))))) refl tt
      (cons-eq (omega arith) (cons-eq (omega arith) (cons-eq (omega arith) refl)))
encode_base32-Reads (a ∷ (b ∷ (c ∷ (d ∷ [])))) (ha, (hb, (hc, (hd, h)))) =
    let indices =
      ((a / 8)
        ∷ (a % 8 * 4 + b / 64)
        ∷ (b / 2 % 32)
        ∷ (b % 2 * 16 + c / 16)
        ∷ (c % 16 * 2 + d / 128)
        ∷ (d / 4 % 32)
        ∷ (d % 4 * 8)
        ∷ []) in
    Reads-symbols indices [] [] _
      (
        omega arith,
        (
          omega arith,
          (omega arith, (omega arith, (omega arith, (omega arith, (omega arith, tt))))),
        ),
      )
      refl tt
      (cons-eq (omega arith)
        (cons-eq (omega arith) (cons-eq (omega arith) (cons-eq (omega arith) refl))))
encode_base32-Reads (a ∷ (b ∷ (c ∷ (d ∷ (e ∷ rest))))) (ha, (hb, (hc, (hd, (he, h))))) =
    let indices =
      ((a / 8)
        ∷ (a % 8 * 4 + b / 64)
        ∷ (b / 2 % 32)
        ∷ (b % 2 * 16 + c / 16)
        ∷ (c % 16 * 2 + d / 128)
        ∷ (d / 4 % 32)
        ∷ (d % 4 * 8 + e / 32)
        ∷ (e % 32)
        ∷ []) in
    let (bits, read, same, clean) = encode_base32-Reads rest h in
    Reads-symbols indices (encode_base32 rest) bits _
      (
        omega arith,
        (
          omega arith,
          (
            omega arith,
            (omega arith, (omega arith, (omega arith, (omega arith, (omega arith, tt))))),
          ),
        ),
      )
      read clean
      (cons-eq (omega arith) (
        cons-eq (omega arith)
          (cons-eq (omega arith) (cons-eq (omega arith) (cons-eq (omega arith) same)))))

strip_padding-pads : (k : ℕ) → strip_padding (replicate k b'=') ≡ []
unfolding strip_padding
strip_padding-pads zero = refl
strip_padding-pads (suc k) = ground (arith, strip_padding-pads k)

strip_padding-clean : (s : Text) (k : ℕ) → All IsClean s → strip_padding (s ++ replicate k b'=') ≡ s
unfolding strip_padding
strip_padding-clean [] k h = strip_padding-pads k
strip_padding-clean (c ∷ s) k ((pad, _), hs) =
    rw (strip_padding-clean s k hs, pad, strip_padding) refl

filter-clean : (s : Text) → All IsClean s → filter (λ c. not (is_space c)) s ≡ s
filter-clean [] h = refl
filter-clean (c ∷ s) ((_, space), hs) = rw (space, filter) (ap (λ r. c ∷ r) (filter-clean s hs))

module _ (upper : Text → Text) (sign : List ℕ → List ℕ → Option (List ℕ)) where
  -- The bytes that were encoded as RFC 4648 says, with any padding at the end, are decoded again, if
  -- `toUpperCase` leaves the text as it is.
  pub decode_base32-encode_base32 :
      (bytes : List ℕ) (k : ℕ)
      → All IsByte bytes
      → upper (encode_base32 bytes ++ replicate k b'=') ≡ encode_base32 bytes ++ replicate k b'='
      → decode_base32 upper sign (encode_base32 bytes ++ replicate k b'=') ≡ some bytes
  unfolding decode_base32
  decode_base32-encode_base32 bytes k h same =
      let (bits, read, back, clean) = encode_base32-Reads bytes h in
      let s = encode_base32 bytes in
      let kept = ap strip_padding same ∙ strip_padding-clean s k clean in
      let left = ap (filter (λ c. not (is_space c))) kept ∙ filter-clean s clean in
      rw (left, read, back) refl
