-- ===== src/Prelude/Split.antt =====
-- `text.split(separator)` and `array.join(separator)` of the language's library.
use Prim.Native.Nat.{ℕ, zero, suc, ◌-◌}
use mathlib.Core.Path.{◌≡◌, refl, sym, ap, ◌∙◌}
use mathlib.Core.Logic.{◌≢◌}
use mathlib.Core.Bool.{true, false}
use mathlib.Core.List.{List, [], ◌∷◌, ◌++◌, append_assoc, append-nil}
use native.Mathlib.Omega.{arith}
use dotnet_web_api_startpack.Prelude.Lists.{length, All}
use dotnet_web_api_startpack.Prelude.Strings.{Text, starts_with, starts_with-append}

-- The number counts the units of the last separator that are still to be passed.
unfoldable pub split_from : (separator cur : Text) → ℕ → Text → List Text
split_from separator cur n [] = cur ∷ []
split_from separator cur (suc n) (c ∷ s) = split_from separator cur n s
split_from separator cur zero (c ∷ s) = elim (starts_with separator (c ∷ s)) [
  | true ↦ cur ∷ split_from separator [] (length separator - 1) s
  | false ↦ split_from separator (cur ++ (c ∷ [])) 0 s
]

unfoldable pub split : Text → Text → List Text
split separator s = split_from separator [] 0 s

unfoldable pub join : Text → List Text → Text
join separator [] = []
join separator (x ∷ []) = x
join separator (x ∷ (y ∷ rest)) = x ++ (separator ++ join separator (y ∷ rest))

module _ (a : ℕ) (tail : Text) where
  split_from-skip :
      (cur s t : Text)
      → split_from (a ∷ tail) cur (length s) (s ++ t) ≡ split_from (a ∷ tail) cur 0 t
  unfolding split_from
  split_from-skip cur [] t = refl
  split_from-skip cur (c ∷ s) t = split_from-skip cur s t

  split_from-plain :
      (cur s t : Text)
      → All (λ c. c ≢ a) s
      → split_from (a ∷ tail) cur 0 (s ++ t) ≡ split_from (a ∷ tail) (cur ++ s) 0 t
  unfolding split_from starts_with
  split_from-plain cur [] t h = ap (λ r. split_from (a ∷ tail) r 0 t) (sym (append-nil cur))
  split_from-plain cur (c ∷ s) t (h, hs) =
      ground (arith, append_assoc cur (c ∷ []) s, split_from-plain (cur ++ (c ∷ [])) s t hs)

  split_from-here :
      (cur t : Text)
      → split_from (a ∷ tail) cur 0 ((a ∷ tail) ++ t) ≡ cur ∷ split_from (a ∷ tail) [] 0 t
  unfolding split_from
  split_from-here cur t = ground (arith, starts_with-append (a ∷ tail) t, split_from-skip [] tail t)

  split_from-nil : (cur : Text) → split_from (a ∷ tail) cur 0 [] ≡ cur ∷ []
  unfolding split_from
  split_from-nil cur = refl

  -- Splitting what was joined gives the pieces back, if no piece holds the separator's first unit.
  pub split-join :
      (x : Text) (xs : List Text)
      → All (All (λ c. c ≢ a)) (x ∷ xs)
      → split (a ∷ tail) (join (a ∷ tail) (x ∷ xs)) ≡ x ∷ xs
  unfolding split join
  split-join x [] (h, _) =
      ap (split_from (a ∷ tail) [] 0) (sym (append-nil x))
      ∙ split_from-plain [] x [] h
      ∙ split_from-nil x
  split-join x (y ∷ rest) (h, hs) =
      split_from-plain [] x ((a ∷ tail) ++ join (a ∷ tail) (y ∷ rest)) h
      ∙ split_from-here x (join (a ∷ tail) (y ∷ rest))
      ∙ ap (λ r. x ∷ r) (split-join y rest hs)

  pub split-nil : split (a ∷ tail) [] ≡ [] ∷ []
  unfolding split split_from
  split-nil = refl
