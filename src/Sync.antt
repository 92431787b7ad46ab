-- ===== src/Sync.antt =====
-- playground-ui/scripts/sync-static.mjs: the copy of the built program that the service hands out, with
-- the times of its prerendering taken away.
pub mod Times
use dotnet_web_api_startpack.Prelude.{
  ℕ, zero, suc, ◌+◌, ◌<◌, Text, lit, List, [], ◌∷◌, ◌++◌, Bool, true, false, ◌&&◌, Option, none,
  some, ◌≡◌, refl, sym, ap, ◌∙◌, arith, All, length, drop, starts_with, if◌then◌else◌, ltb,
}
use dotnet_web_api_startpack.Uri.{is_between}

abbrev pub prefix : Text
prefix = lit "u:"

abbrev pub suffix : Text
suffix = lit ",s:\"success\",ssr:!0"

-- `\d`
abbrev pub is_digit : ℕ → Bool
is_digit = is_between b'0' b'9'

-- How many digits the text begins with.
unfoldable pub count_digits : Text → ℕ
count_digits [] = 0
count_digits (c ∷ s) = let rest = count_digits s in if is_digit c then suc rest else 0

-- The match of the pattern at the beginning of the text: the number of its digits.
unfoldable pub match_digits : Text → Option ℕ
match_digits text =
    let rest = drop (length prefix) text in
    let count = count_digits rest in
    if starts_with prefix text && (ltb 0 count && starts_with suffix (drop count rest))
    then some count
    else none

-- `html.replace(routeTimestamp, …)`: the number counts the characters of the last match that are still to
-- be passed.
unfoldable pub replace_times : ℕ → Text → Text
replace_times n [] = []
replace_times (suc n) (c ∷ s) = replace_times n s
replace_times zero (c ∷ s) = elim (match_digits (c ∷ s)) [
  | none ↦ c ∷ replace_times zero s
  | some count ↦ prefix ++ (lit "0" ++ (suffix ++ replace_times (1 + count + length suffix) s))
]

abbrev pub normalized : Text → Text
normalized html = replace_times zero html

-- `[...html.matchAll(routeTimestamp)]` is not empty.
unfoldable pub has_time : Text → Bool
has_time [] = false
has_time (c ∷ s) = elim (match_digits (c ∷ s)) [ none ↦ has_time s | some count ↦ true ]

-- What a run leaves as the index of the target, and whether it has ended without an exception.
pub record Synchronized : Type 0 where
  pub target_index : Option Text
  pub succeeded : Bool

-- The run, given the index that was built, if there is one, and the index of the target before: without
-- the first nothing is touched; a page without a time is copied as it is before the error.
unfoldable pub synchronize : (built target : Option Text) → Synchronized
synchronize none target = record { target_index = target; succeeded = false }
synchronize (some html) target =
    if has_time html
    then record { target_index = some (normalized html); succeeded = true }
    else record { target_index = some html; succeeded = false }
