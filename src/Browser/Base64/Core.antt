-- ===== src/Browser/Base64/Core.antt =====
-- The text of Base64 without its padding, and what is known of it.
use dotnet_web_api_startpack.Prelude.{
  ℕ, ◌+◌, ◌*◌, ◌/◌, ◌%◌, ◌≤◌, ◌<◌, Text, List, [], ◌∷◌, ◌++◌, map, Bool, true, false, ◌&&◌, not,
  some, ◌≡◌, refl, ap, arith, All, and_parts, ◌==◌, length, replicate, if◌then◌else◌,
}
use dotnet_web_api_startpack.Browser.{index_of, bytes_of}
use dotnet_web_api_startpack.Browser.Base32.{
  below, is_found, all_below, is_found-eq, not-true, cons-eq, IsByte,
}
use dotnet_web_api_startpack.Browser.Base64.{
  alphabet64, symbol64, btoa, six_bits, bits64, is_ascii_space,
}

-- A symbol's forms in an address and back.
abbrev pub to_url : ℕ → ℕ
to_url c = let d = if c == b'+' then b'-' else c in if d == b'/' then b'_' else d

abbrev pub from_url : ℕ → ℕ
from_url c = let d = if c == b'-' then b'+' else c in if d == b'_' then b'/' else d

-- The checks of a character: it is no padding in either form, no space, and comes back.
abbrev is_plain : ℕ → Bool
is_plain c =
    not (to_url c == b'=')
    && (not (c == b'=') && (not (is_ascii_space c) && from_url (to_url c) == c))

abbrev is_symbol64 : ℕ → Bool
is_symbol64 i = is_found i (index_of (symbol64 i) alphabet64) && is_plain (symbol64 i)

symbols64-checked : all_below 64 is_symbol64 ≡ true
unfolding index_of
symbols64-checked = refl

pub record IsPlain (c : ℕ) : Type 0 where
  pub url_pad : (to_url c == b'=') ≡ false
  pub pad : (c == b'=') ≡ false
  pub space : is_ascii_space c ≡ false
  pub back : from_url (to_url c) ≡ c

IsPlain-checked : (c : ℕ) → is_plain c ≡ true → IsPlain c
IsPlain-checked c h =
    let (url_pad, h1) = and_parts (not (to_url c == b'=')) _ h in
    let (pad, h2) = and_parts (not (c == b'=')) _ h1 in
    let (space, back) = and_parts (not (is_ascii_space c)) (from_url (to_url c) == c) h2 in
    record {
      url_pad = not-true (to_url c == b'=') url_pad;
      pad = not-true (c == b'=') pad;
      space = not-true (is_ascii_space c) space;
      back = equal (from_url (to_url c)) c back;
    }
  where
    equal : (m n : ℕ) → (m == n) ≡ true → m ≡ n
    equal m n e = ground arith

symbol64-found : (i : ℕ) → i < 64 → index_of (symbol64 i) alphabet64 ≡ some i
symbol64-found i h =
    is_found-eq i (index_of (symbol64 i) alphabet64)
      (and_parts _ (is_plain (symbol64 i)) (below 64 is_symbol64 i symbols64-checked h)).0

symbol64-IsPlain : (i : ℕ) → i < 64 → IsPlain (symbol64 i)
symbol64-IsPlain i h =
    IsPlain-checked (symbol64 i)
      (and_parts (is_found i (index_of (symbol64 i) alphabet64)) _
        (below 64 is_symbol64 i symbols64-checked h)).1

-- The text without its padding, and the number of characters that are padded.
unfoldable pub core : List ℕ → Text
core [] = []
core (a ∷ []) = symbol64 (a / 4) ∷ symbol64 (a % 4 * 16) ∷ []
core (a ∷ (b ∷ [])) = symbol64 (a / 4) ∷ symbol64 (a % 4 * 16 + b / 16) ∷ symbol64 (b % 16 * 4) ∷ []
core (a ∷ (b ∷ (c ∷ rest))) =
    symbol64 (a / 4)
    ∷ symbol64 (a % 4 * 16 + b / 16)
    ∷ symbol64 (b % 16 * 4 + c / 64)
    ∷ symbol64 (c % 64)
    ∷ core rest

unfoldable pub pads : List ℕ → ℕ
pads [] = 0
pads (a ∷ []) = 2
pads (a ∷ (b ∷ [])) = 1
pads (a ∷ (b ∷ (c ∷ rest))) = pads rest

pub btoa-core : (bytes : List ℕ) → btoa bytes ≡ core bytes ++ replicate (pads bytes) b'='
unfolding btoa core pads
btoa-core [] = refl
btoa-core (a ∷ []) = refl
btoa-core (a ∷ (b ∷ [])) = refl
btoa-core (a ∷ (b ∷ (c ∷ rest))) =
    ap
      (λ t.
        symbol64 (a / 4)
        ∷ symbol64 (a % 4 * 16 + b / 16)
        ∷ symbol64 (b % 16 * 4 + c / 64)
        ∷ symbol64 (c % 64)
        ∷ t)
      (btoa-core rest)

flat64 : List ℕ → List ℕ
flat64 [] = []
flat64 (i ∷ indices) = six_bits i ++ flat64 indices

-- What is known of the text without padding.
pub record Holds (s : Text) (k : ℕ) (bytes : List ℕ) : Type 0 where
  pub bits : List ℕ
  pub read : bits64 s ≡ some bits
  pub same : bytes_of bits ≡ bytes
  pub plain : All IsPlain s
  pub full : (length s + k) % 4 ≡ 0
  pub few : k ≤ 2

bits64-symbols :
    (indices : List ℕ) (s : Text) (bits : List ℕ)
    → All (λ i. i < 64) indices
    → bits64 s ≡ some bits
    → bits64 (map symbol64 indices ++ s) ≡ some (flat64 indices ++ bits)
unfolding bits64 flat64
bits64-symbols [] s bits h e = e
bits64-symbols (i ∷ indices) s bits (h, hs) e =
    rw (symbol64-found i h, bits64-symbols indices s bits hs e, bits64) refl

IsPlain-symbols :
    (indices : List ℕ) (s : Text)
    → All (λ i. i < 64) indices
    → All IsPlain s
    → All IsPlain (map symbol64 indices ++ s)
IsPlain-symbols [] s h clean = clean
IsPlain-symbols (i ∷ indices) s (h, hs) clean =
    (symbol64-IsPlain i h, IsPlain-symbols indices s hs clean)

pub core-Holds : (bytes : List ℕ) → All IsByte bytes → Holds (core bytes) (pads bytes) bytes
unfolding core pads bytes_of bits64 flat64
core-Holds [] h = record {
  bits = [];
  read = refl;
  same = refl;
  plain = tt;
  full = refl;
  few = omega arith;
}
core-Holds (a ∷ []) (ha, h) =
    let indices = ((a / 4) ∷ (a % 4 * 16) ∷ []) in
    let low : All (λ i. i < 64) indices = (omega arith, (omega arith, tt)) in
    record {
      bits = flat64 indices ++ [];
      read = bits64-symbols indices [] [] low refl;
      same = (cons-eq (omega arith) refl);
      plain = IsPlain-symbols indices [] low tt;
      full = refl;
      few = omega arith;
    }
core-Holds (a ∷ (b ∷ [])) (ha, (hb, h)) =
    let indices = ((a / 4) ∷ (a % 4 * 16 + b / 16) ∷ (b % 16 * 4) ∷ []) in
    let low : All (λ i. i < 64) indices = (omega arith, (omega arith, (omega arith, tt))) in
    record {
      bits = flat64 indices ++ [];
      read = bits64-symbols indices [] [] low refl;
      same = (cons-eq (omega arith) (cons-eq (omega arith) refl));
      plain = IsPlain-symbols indices [] low tt;
      full = refl;
      few = omega arith;
    }
core-Holds (a ∷ (b ∷ (c ∷ rest))) (ha, (hb, (hc, h))) =
    let indices = ((a / 4) ∷ (a % 4 * 16 + b / 16) ∷ (b % 16 * 4 + c / 64) ∷ (c % 64) ∷ []) in
    let low : All (λ i. i < 64) indices =
      (omega arith, (omega arith, (omega arith, (omega arith, tt)))) in
    let r = core-Holds rest h in
    record {
      bits = flat64 indices ++ r.bits;
      read = bits64-symbols indices (core rest) r.bits low r.read;
      same = (cons-eq (omega arith) (cons-eq (omega arith) (cons-eq (omega arith) r.same)));
      plain = IsPlain-symbols indices (core rest) low r.plain;
      full = omega (arith, r.full);
      few = r.few;
    }
