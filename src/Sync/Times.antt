-- ===== src/Sync/Times.antt =====
-- Identical sources give identical files, whenever they were built.
use dotnet_web_api_startpack.Prelude.{
  ℕ, zero, suc, ◌+◌, ◌<◌, Text, lit, [], ◌∷◌, ◌++◌, true, Option, none, some, ◌≡◌, refl, sym, ap,
  ◌∙◌, arith, All, length, length-append, drop-append, starts_with, starts_with-append,
  append_assoc,
}
use dotnet_web_api_startpack.Sync.{
  prefix, suffix, is_digit, count_digits, match_digits, replace_times, normalized, has_time,
  synchronize,
}

abbrev pub AreDigits : Text → Type 0
AreDigits = All (λ c. is_digit c ≡ true)

-- The text of a time, before the rest of the page.
abbrev pub stamped : Text → Text → Text
stamped digits rest = prefix ++ (digits ++ (suffix ++ rest))

-- Two pages that differ in their times only.
pub data SameButTimes : Text → Text → Type 0 where
  done : SameButTimes [] []
  same :
      (c : ℕ) {s t : Text}
      → match_digits (c ∷ s) ≡ none
      → match_digits (c ∷ t) ≡ none
      → SameButTimes s t
      → SameButTimes (c ∷ s) (c ∷ t)
  time :
      (d e : Text) {s t : Text}
      → 0 < length d
      → 0 < length e
      → AreDigits d
      → AreDigits e
      → SameButTimes s t
      → SameButTimes (stamped d s) (stamped e t)

count-digits : (d rest : Text) → AreDigits d → count_digits (d ++ (suffix ++ rest)) ≡ length d
unfolding count_digits
count-digits [] rest h = refl
count-digits (c ∷ d) rest (h, hs) = rw (h, count_digits) (ap suc (count-digits d rest hs))

match-stamped :
    (d rest : Text) → 0 < length d → AreDigits d → match_digits (stamped d rest) ≡ some (length d)
unfolding match_digits starts_with
match-stamped d rest positive h =
    rw (count-digits d rest h, drop-append d (suffix ++ rest), starts_with-append suffix rest)
      (ground arith)

replace-skip : (s t : Text) → replace_times (length s) (s ++ t) ≡ replace_times zero t
unfolding replace_times
replace-skip [] t = refl
replace-skip (c ∷ s) t = replace-skip s t

-- The rest of a match is passed.
replace-rest :
    (d rest : Text)
    → replace_times (1 + length d + length suffix) (b':' ∷ (d ++ (suffix ++ rest)))
      ≡ replace_times zero rest
replace-rest d rest =
    let passed : Text = b':' ∷ (d ++ suffix) in
    let size : 1 + length d + length suffix ≡ length passed =
      omega (arith, length-append d suffix) in
    ap (λ n. replace_times n (b':' ∷ (d ++ (suffix ++ rest)))) size
    ∙ ap (λ t. replace_times (length passed) (b':' ∷ t)) (sym (append_assoc d suffix rest))
    ∙ replace-skip passed rest

-- A time becomes zero.
replace-stamped :
    (d rest : Text)
    → 0 < length d
    → AreDigits d
    → normalized (stamped d rest) ≡ prefix ++ (lit "0" ++ (suffix ++ normalized rest))
unfolding replace_times
replace-stamped d rest positive h =
    rw (match-stamped d rest positive h, replace_times)
      (ap (λ t. prefix ++ (lit "0" ++ (suffix ++ t))) (replace-rest d rest))

-- Two builds that differ in their times only give the same file.
pub normalized-SameButTimes : {s t : Text} → SameButTimes s t → normalized s ≡ normalized t
unfolding replace_times
normalized-SameButTimes done = refl
normalized-SameButTimes (same c {s} {t} hs ht r) =
    rw (hs, ht, replace_times) (ap (λ rest. c ∷ rest) (normalized-SameButTimes r))
normalized-SameButTimes (time d e {s} {t} pd pe hd he r) =
    replace-stamped d s pd hd
    ∙ ap (λ rest. prefix ++ (lit "0" ++ (suffix ++ rest))) (normalized-SameButTimes r)
    ∙ sym (replace-stamped e t pe he)

has_time-same : {s t : Text} → SameButTimes s t → has_time s ≡ has_time t
unfolding has_time
has_time-same done = refl
has_time-same (same c {s} {t} hs ht r) = rw (hs, ht, has_time) (has_time-same r)
has_time-same (time d e {s} {t} pd pe hd he r) =
    rw (match-stamped d s pd hd, match-stamped e t pe he, has_time) refl

-- Two builds whose pages differ in the times of their prerendering only, and have such a time, leave the
-- same index for the service, whatever was there before.
pub synchronize-SameButTimes :
    {s t : Text} (target : Option Text)
    → SameButTimes s t
    → has_time s ≡ true
    → synchronize (some s) target ≡ synchronize (some t) target
unfolding synchronize
synchronize-SameButTimes {s} {t} target r h =
    let h' = sym (has_time-same r) ∙ h in
    rw (h, h', synchronize)
      (ap (λ html. record { target_index = some html; succeeded = true })
        (normalized-SameButTimes r))
