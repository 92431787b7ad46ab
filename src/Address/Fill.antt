-- ===== src/Address/Fill.antt =====
-- What the loop over the path parameters does to a path that is written as fixed text and
-- placeholders, in the order of the parameters.
use dotnet_web_api_startpack.Prelude.{
  Text, lit, List, [], ◌∷◌, ◌++◌, Option, none, some, ◌>>=◌, All, All-append, ◌≡◌, ◌≢◌, refl, sym,
  ◌∙◌, ap, arith, append_assoc, Option-cases, inl, inr,
}
use dotnet_web_api_startpack.Types.{WorkbenchVariables, EndpointParameter}
use dotnet_web_api_startpack.Platform.{Platform}
use dotnet_web_api_startpack.Uri.{encode_component, is_unreserved}
use dotnet_web_api_startpack.Uri.Bounds.{IsUriSafe, encode_component-IsUriSafe}
use dotnet_web_api_startpack.Address.{placeholder, parameter_value, fill_path}
use dotnet_web_api_startpack.Address.Replace.{replace_first, replace_first-found}

pub data Segment : Type 0 where
  fixed param : Text → Segment

abbrev pub print : List Segment → Text
print [] = []
print (fixed t ∷ segments) = t ++ print segments
print (param name ∷ segments) = placeholder name ++ print segments

-- The fixed text has no brace, and the placeholders are the parameters, in order.
abbrev pub Fits : List Segment → List EndpointParameter → Type 0
Fits [] [] = Unit
Fits [] (_ ∷ _) = ⊥
Fits (fixed t ∷ segments) ps = All (λ c. (c ≢ b'{') × (c ≢ b'}')) t × Fits segments ps
Fits (param name ∷ segments) [] = ⊥
Fits (param name ∷ segments) (p ∷ ps) = (name ≡ p.name) × Fits segments ps

-- A property of the characters of every encoded value.
pub All-IsUriSafe {ℓ} :
    (P : _ → Type ℓ) (t : Text) → ((c : _) → IsUriSafe c → P c) → All IsUriSafe t → All P t
All-IsUriSafe P [] f h = tt
All-IsUriSafe P (c ∷ t) f (h, hs) = (f c h, All-IsUriSafe P t f hs)

pub IsUriSafe-ne_brace : (c : _) → IsUriSafe c → (c ≢ b'{') × (c ≢ b'}')
unfolding is_unreserved
IsUriSafe-ne_brace c h = (ground arith, ground arith)

IsUriSafe-ne_dollar : (c : _) → IsUriSafe c → c ≢ b'$'
unfolding is_unreserved
IsUriSafe-ne_dollar c h = ground arith

open_free : (t : Text) → All (λ c. (c ≢ b'{') × (c ≢ b'}')) t → All (λ c. c ≢ b'{') t
open_free [] h = tt
open_free (c ∷ t) (h, hs) = (h.0, open_free t hs)

ne_open : (t : Text) → All IsUriSafe t → All (λ c. c ≢ b'{') t
ne_open t safe = open_free t (All-IsUriSafe _ t IsUriSafe-ne_brace safe)

filled :
    (name name' done encoded rest : Text)
    → name ≡ name'
    → All (λ c. c ≢ b'{') done
    → All IsUriSafe encoded
    → replace_first (placeholder name') encoded (done ++ (placeholder name ++ rest))
      ≡ (done ++ encoded) ++ rest
filled name name' done encoded rest same free safe =
    ap (λ n. replace_first (placeholder name') encoded (done ++ (placeholder n ++ rest))) same
    ∙ replace_first-found b'{' (name' ++ lit "}") encoded done rest free
        (All-IsUriSafe _ encoded IsUriSafe-ne_dollar safe)
    ∙ sym (append_assoc done encoded rest)

module _ ⦃p : Platform⦄ (variables : WorkbenchVariables) (values : List (Text × Text)) where
  -- Each placeholder stands for the encoded value of its parameter.
  abbrev pub render : List Segment → List EndpointParameter → Option Text
  render [] ps = some []
  render (fixed t ∷ segments) ps = render segments ps >>= λ rest. some (t ++ rest)
  render (param name ∷ segments) [] = none
  render (param name ∷ segments) (p ∷ ps) =
      encode_component (parameter_value variables values p) >>= λ encoded.
      render segments ps >>= λ rest. some (encoded ++ rest)

  append-bind :
      (a b : Text) (o : Option Text)
      → (o >>= λ r. some ((a ++ b) ++ r)) ≡ ((o >>= λ r. some (b ++ r)) >>= λ r. some (a ++ r))
  append-bind a b none = refl
  append-bind a b (some r) = ap some (append_assoc a b r)

  fill_path-from :
      (segments : List Segment) (ps : List EndpointParameter) (done : Text)
      → Fits segments ps
      → All (λ c. c ≢ b'{') done
      → fill_path variables values ps (done ++ print segments)
        ≡ (render segments ps >>= λ rest. some (done ++ rest))
  unfolding fill_path
  fill_path-from [] [] done fits free = refl
  fill_path-from [] (p ∷ ps) done fits free = absurd fits
  fill_path-from (fixed t ∷ segments) ps done (clean, fits) free =
      ap (fill_path variables values ps) (sym (append_assoc done t (print segments)))
      ∙ fill_path-from segments ps (done ++ t) fits (All-append _ done t free (open_free t clean))
      ∙ append-bind done t (render segments ps)
  fill_path-from (param name ∷ segments) [] done fits free = absurd fits
  fill_path-from (param name ∷ segments) (p ∷ ps) done (same, fits) free =
      elim (Option-cases (encode_component (parameter_value variables values p))) [
        | inl fails ↦ rw fails refl
        | inr (encoded, e) ↦
            let safe = encode_component-IsUriSafe _ encoded e in
            let free' = All-append _ done encoded free (ne_open encoded safe) in
            rw e (
              ap (fill_path variables values ps) (filled name p.name done encoded _ same free safe)
              ∙ fill_path-from segments ps (done ++ encoded) fits free'
              ∙ append-bind done encoded (render segments ps))
      ]

  -- On a path of fixed text without braces and placeholders that are the parameters in order, the
  -- loop gives the fixed text with each placeholder replaced by its parameter's encoded value, and
  -- fails exactly when a value cannot be encoded.
  pub fill_path-print :
      (segments : List Segment) (ps : List EndpointParameter)
      → Fits segments ps
      → fill_path variables values ps (print segments) ≡ render segments ps
  fill_path-print segments ps fits =
      fill_path-from segments ps [] fits tt ∙ bind_some (render segments ps)
    where
      bind_some : (o : Option Text) → (o >>= λ rest. some rest) ≡ o
      bind_some none = refl
      bind_some (some r) = refl
