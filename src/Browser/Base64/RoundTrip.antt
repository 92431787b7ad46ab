-- ===== src/Browser/Base64/RoundTrip.antt =====
-- `base64UrlToBytes` reads what `bytesToBase64Url` writes.
use dotnet_web_api_startpack.Prelude.{
  ℕ, zero, suc, ◌+◌, ◌-◌, ◌*◌, ◌/◌, ◌%◌, ◌≤◌, Text, List, [], ◌∷◌, ◌++◌, map, true, false, not,
  some, ◌≡◌, refl, sym, ap, ◌∙◌, arith, All, ◌==◌, length, length-append, filter, replicate,
  append_assoc, append-nil,
}
use dotnet_web_api_startpack.Browser.{strip_padding}
use dotnet_web_api_startpack.Browser.Base32.{IsByte}
use dotnet_web_api_startpack.Browser.Base64.{
  btoa, replace_all, bytes_to_base64_url, drop_pad, is_ascii_space, atob, pad_end,
  base64_url_to_bytes,
}
use dotnet_web_api_startpack.Browser.Base64.Core.{
  to_url, IsPlain, core, pads, btoa-core, Holds, core-Holds,
}

-- The two replacements, forth and back.
forth : (t : Text) → replace_all b'/' b'_' (replace_all b'+' b'-' t) ≡ map to_url t
forth [] = refl
forth (c ∷ t) = ap (λ r. to_url c ∷ r) (forth t)

back-forth :
    (t : Text) → All IsPlain t → replace_all b'_' b'/' (replace_all b'-' b'+' (map to_url t)) ≡ t
back-forth [] h = refl
back-forth (c ∷ t) (h, hs) =
    ap (λ d. d ∷ replace_all b'_' b'/' (replace_all b'-' b'+' (map to_url t))) h.back
    ∙ ap (λ r. c ∷ r) (back-forth t hs)

length-forth : (t : Text) → length (map to_url t) ≡ length t
length-forth [] = refl
length-forth (c ∷ t) = ap suc (length-forth t)

-- Padding in the address is stripped, and nothing else.
strip_padding-pads : (k : ℕ) → strip_padding (map to_url (replicate k b'=')) ≡ []
unfolding strip_padding
strip_padding-pads zero = refl
strip_padding-pads (suc k) = ground (arith, strip_padding-pads k)

strip_padding-forth :
    (t : Text) (k : ℕ)
    → All IsPlain t
    → strip_padding (map to_url (t ++ replicate k b'=')) ≡ map to_url t
unfolding strip_padding
strip_padding-forth [] k h = strip_padding-pads k
strip_padding-forth (c ∷ t) k (h, hs) =
    rw (strip_padding-forth t k hs, h.url_pad, strip_padding) refl

-- `atob` drops the padding, and finds no space.
drop_pad-snoc : (t : Text) → drop_pad (t ++ (b'=' ∷ [])) ≡ t
unfolding drop_pad
drop_pad-snoc [] = refl
drop_pad-snoc (c ∷ []) = refl
drop_pad-snoc (c ∷ (d ∷ t)) = ap (λ r. c ∷ r) (drop_pad-snoc (d ∷ t))

drop_pad-plain : (t : Text) → All IsPlain t → drop_pad t ≡ t
unfolding drop_pad
drop_pad-plain [] h = refl
drop_pad-plain (c ∷ []) (h, hs) = rw (h.pad, drop_pad) refl
drop_pad-plain (c ∷ (d ∷ t)) (h, hs) = ap (λ r. c ∷ r) (drop_pad-plain (d ∷ t) hs)

drop_pads :
    (t : Text) (k : ℕ) → All IsPlain t → k ≤ 2 → drop_pad (drop_pad (t ++ replicate k b'=')) ≡ t
drop_pads t zero h le =
    ap (λ r. drop_pad (drop_pad r)) (append-nil t)
    ∙ ap drop_pad (drop_pad-plain t h)
    ∙ drop_pad-plain t h
drop_pads t (suc zero) h le = ap drop_pad (drop_pad-snoc t) ∙ drop_pad-plain t h
drop_pads t (suc (suc zero)) h le =
    ap (λ r. drop_pad (drop_pad r)) (sym (append_assoc t (b'=' ∷ []) (b'=' ∷ [])))
    ∙ ap drop_pad (drop_pad-snoc (t ++ (b'=' ∷ [])))
    ∙ drop_pad-snoc t
drop_pads t (suc (suc (suc k))) h le = absurd (omega arith)

filter-pads : (k : ℕ) → filter (λ c. not (is_ascii_space c)) (replicate k b'=') ≡ replicate k b'='
filter-pads zero = refl
filter-pads (suc k) = ap (λ r. b'=' ∷ r) (filter-pads k)

filter-plain :
    (t : Text) (k : ℕ)
    → All IsPlain t
    → filter (λ c. not (is_ascii_space c)) (t ++ replicate k b'=') ≡ t ++ replicate k b'='
filter-plain [] k h = filter-pads k
filter-plain (c ∷ t) k (h, hs) = rw (h.space, filter) (ap (λ r. c ∷ r) (filter-plain t k hs))

length-replicate : (k c : ℕ) → length (replicate k c) ≡ k
length-replicate zero c = refl
length-replicate (suc k) c = ap suc (length-replicate k c)

atob-Holds :
    (s : Text) (k : ℕ) (bytes : List ℕ)
    → Holds s k bytes
    → atob (s ++ replicate k b'=') ≡ some bytes
unfolding atob
atob-Holds s k bytes r =
    let size = length-append s (replicate k b'=') in
    let count = length-replicate k b'=' in
    let all : (length (s ++ replicate k b'=') % 4 == 0) ≡ true =
      ground (arith, size, count, r.full) in
    let rest : (length s % 4 == 1) ≡ false = ground (arith, r.full, r.few) in
    rw (filter-plain s k r.plain, atob, all, drop_pads s k r.plain r.few, rest, r.read, r.same) refl

-- The bytes that were written in Base64 for addresses, without padding, are read again.
pub base64_url_to_bytes-bytes_to_base64_url :
    (bytes : List ℕ)
    → All IsByte bytes
    → base64_url_to_bytes (bytes_to_base64_url bytes) ≡ some bytes
unfolding bytes_to_base64_url base64_url_to_bytes
base64_url_to_bytes-bytes_to_base64_url bytes h =
    let r = core-Holds bytes h in
    let s = core bytes in
    let k = pads bytes in
    let written : bytes_to_base64_url bytes ≡ map to_url s =
      ap strip_padding (forth (btoa bytes) ∙ ap (map to_url) (btoa-core bytes))
      ∙ strip_padding-forth s k r.plain in
    let width : (length s + 3) / 4 * 4 - length s ≡ k = omega (arith, r.full, r.few) in
    ap base64_url_to_bytes written
    ∙ ap
        (λ n. atob (
          pad_end ((n + 3) / 4 * 4) (replace_all b'_' b'/' (replace_all b'-' b'+' (map to_url s)))))
        (length-forth s)
    ∙ ap (λ t. atob (pad_end ((length s + 3) / 4 * 4) t)) (back-forth s r.plain)
    ∙ ap (λ n. atob (s ++ replicate n b'=')) width
    ∙ atob-Holds s k bytes r
