-- ===== src/Address/Query.antt =====
-- The query of `buildPath`: which parameters are sent, and which characters are written.
use dotnet_web_api_startpack.Prelude.{
  ℕ, Text, lit, List, [], ◌∷◌, ◌++◌, Bool, true, ◌&&◌, not, All, All-append, ◌≡◌, ◌≢◌, ◌⊎◌, inl,
  inr, refl, sym, ◌∙◌, arith, append_assoc, append-nil, Bool-cases, text_eq-false, set_key,
  starts_with, if◌then◌else◌, ◌==◌,
}
use dotnet_web_api_startpack.Types.{WorkbenchVariables, EndpointParameter}
use dotnet_web_api_startpack.Platform.{Platform}
use dotnet_web_api_startpack.Template.{is_empty}
use dotnet_web_api_startpack.Uri.{
  is_unreserved, one_of, is_alphanumeric, form_point, form_points, form_encode, form_pair,
  form_serialize, code_points,
}
use dotnet_web_api_startpack.Uri.Bounds.{IsUriSafe, percent_all-IsUriSafe}
use dotnet_web_api_startpack.Address.{parameter_value, collect_query}

abbrev pub HasDistinctNames : List EndpointParameter → Type 0
HasDistinctNames [] = Unit
HasDistinctNames (p ∷ ps) = All (λ q. q.name ≢ p.name) ps × HasDistinctNames ps

-- A value is sent if it is not empty and does not begin with an open template.
abbrev pub is_sent : Text → Bool
is_sent value = not (is_empty value) && not (starts_with (lit "{{") value)

set_key-new {ℓ} :
    {V : Type ℓ} (k : Text) (v : V) (m : List (Text × V))
    → All (λ kv. kv.0 ≢ k) m
    → set_key k v m ≡ m ++ ((k, v) ∷ [])
unfolding set_key
set_key-new k v [] h = refl
set_key-new k v ((j, w) ∷ m) (h, hs) = rw (text_eq-false j k h, set_key-new k v m hs)

module _ ⦃p : Platform⦄ (variables : WorkbenchVariables) (values : List (Text × Text)) where
  abbrev pub sent : List EndpointParameter → List (Text × Text)
  sent [] = []
  sent (parameter ∷ ps) =
      let value = parameter_value variables values parameter in
      let rest = sent ps in if is_sent value then (parameter.name, value) ∷ rest else rest

  abbrev Fresh : List EndpointParameter → List (Text × Text) → Type 0
  Fresh [] query = Unit
  Fresh (parameter ∷ ps) query = All (λ kv. kv.0 ≢ parameter.name) query × Fresh ps query

  Fresh-append :
      (k v : Text) (ps : List EndpointParameter) (query : List (Text × Text))
      → All (λ q. q.name ≢ k) ps
      → Fresh ps query
      → Fresh ps (query ++ ((k, v) ∷ []))
  Fresh-append k v [] query h f = tt
  Fresh-append k v (parameter ∷ ps) query (h, hs) (f, fs) =
      (All-append _ query ((k, v) ∷ []) f ((λ e. h (sym e)), tt), Fresh-append k v ps query hs fs)

  Fresh-nil : (ps : List EndpointParameter) → Fresh ps []
  Fresh-nil [] = tt
  Fresh-nil (p ∷ ps) = (tt, Fresh-nil ps)

  collect_query-append :
      (ps : List EndpointParameter) (query : List (Text × Text))
      → HasDistinctNames ps
      → Fresh ps query
      → collect_query variables values ps query ≡ query ++ sent ps
  unfolding collect_query
  collect_query-append [] query d f = sym (append-nil query)
  collect_query-append (parameter ∷ ps) query (d, ds) (f, fs) =
      let value = parameter_value variables values parameter in
      let pair : Text × Text = (parameter.name, value) in
      elim (Bool-cases (is_sent value)) [
        | inl goes ↦
            rw (goes, set_key-new parameter.name value query f)
              (collect_query-append ps (query ++ (pair ∷ [])) ds
                  (Fresh-append parameter.name value ps query d fs)
                ∙ append_assoc query (pair ∷ []) (sent ps))
        | inr stays ↦ rw stays (collect_query-append ps query ds fs)
      ]

  -- If the parameters' names are distinct, the query has exactly the parameters whose resolved value
  -- is not empty and does not begin with an open template, once each and in their order.
  pub collect_query-sent :
      (ps : List EndpointParameter)
      → HasDistinctNames ps
      → collect_query variables values ps [] ≡ sent ps
  collect_query-sent ps d = collect_query-append ps [] d (Fresh-nil ps)

-- The characters of a serialized query.
abbrev pub IsQuerySafe : ℕ → Type 0
IsQuerySafe c = IsUriSafe c ⊎ (one_of (lit "+=&") c ≡ true)

weaken : (t : Text) → All IsUriSafe t → All IsQuerySafe t
weaken [] h = tt
weaken (c ∷ t) (h, hs) = (inl h, weaken t hs)

kept : (c : ℕ) → is_alphanumeric c ≡ true → IsQuerySafe c
unfolding is_unreserved
kept c h = inl (inl (ground arith))

kept_mark : (c : ℕ) → one_of (lit "*-._") c ≡ true → IsQuerySafe c
unfolding is_unreserved
kept_mark c h = inl (inl (ground arith))

form_point-IsQuerySafe : (c : ℕ) → All IsQuerySafe (form_point c)
unfolding form_point
form_point-IsQuerySafe c = elim (Bool-cases (c == b' ')) [
  | inl space ↦ rw space (inr refl, tt)
  | inr other ↦ elim (Bool-cases (is_alphanumeric c)) [
    | inl letter ↦ rw (other, letter) (kept c letter, tt)
    | inr none_such ↦ elim (Bool-cases (one_of (lit "*-._") c)) [
      | inl mark ↦ rw (other, none_such, mark) (kept_mark c mark, tt)
      | inr rest ↦ rw (other, none_such, rest) (weaken _ (percent_all-IsUriSafe _))
    ]
  ]
]

form_points-IsQuerySafe : (cs : List ℕ) → All IsQuerySafe (form_points cs)
unfolding form_points
form_points-IsQuerySafe [] = tt
form_points-IsQuerySafe (c ∷ cs) =
    All-append IsQuerySafe (form_point c) _ (form_point-IsQuerySafe c) (form_points-IsQuerySafe cs)

form_pair-IsQuerySafe : (kv : Text × Text) → All IsQuerySafe (form_pair kv)
unfolding form_encode
form_pair-IsQuerySafe (k, v) =
    All-append IsQuerySafe (form_encode k) _ (form_points-IsQuerySafe (code_points k))
      (inr refl, form_points-IsQuerySafe (code_points v))

pub form_serialize-IsQuerySafe : (q : List (Text × Text)) → All IsQuerySafe (form_serialize q)
unfolding form_serialize
form_serialize-IsQuerySafe [] = tt
form_serialize-IsQuerySafe (kv ∷ []) = form_pair-IsQuerySafe kv
form_serialize-IsQuerySafe (kv ∷ (kv' ∷ rest)) =
    All-append IsQuerySafe (form_pair kv) _ (form_pair-IsQuerySafe kv)
      (inr refl, form_serialize-IsQuerySafe (kv' ∷ rest))
