-- ===== src/Catalog/Routes.antt =====
-- The paths of the catalog, what `buildPath` makes of them, and the rules that the entries keep.
use dotnet_web_api_startpack.Prelude.{
  and_parts, Text, List, [], ◌∷◌, ◌++◌, Bool, true, false, ◌&&◌, not, ◌≡◌, ◌≢◌, refl, arith, all,
  All, ◌==◌, text_eq, text_eq_iff,
}
use dotnet_web_api_startpack.Types.{EndpointDefinition, EndpointParameter}
use dotnet_web_api_startpack.Address.Fill.{Segment, fixed, param, print, Fits}
use dotnet_web_api_startpack.Address.Query.{HasDistinctNames}
use dotnet_web_api_startpack.Catalog.{endpoints}
use dotnet_web_api_startpack.Catalog.Ids.{IsListed, check_listed}

-- A path taken apart at its braces.
segments_from : Text → Text → List Segment
segments_from cur [] = fixed cur ∷ []
segments_from cur (c ∷ s) = elim (c == b'{') [
  | true ↦ fixed cur ∷ segments_from [] s
  | false ↦ elim (c == b'}') [
    | true ↦ param cur ∷ segments_from [] s
    | false ↦ segments_from (cur ++ (c ∷ [])) s
  ]
]

abbrev brace_free : Text → Bool
brace_free t = all (λ c. not (c == b'{') && not (c == b'}')) t

brace_free_sound : (t : Text) → brace_free t ≡ true → All (λ c. (c ≢ b'{') × (c ≢ b'}')) t
brace_free_sound [] h = tt
brace_free_sound (c ∷ t) h = (ground arith, brace_free_sound t (ground arith))

abbrev fits : List Segment → List EndpointParameter → Bool
fits [] [] = true
fits [] (_ ∷ _) = false
fits (fixed t ∷ segments) ps = brace_free t && fits segments ps
fits (param name ∷ segments) [] = false
fits (param name ∷ segments) (p ∷ ps) = text_eq name p.name && fits segments ps

fits_sound :
    (segments : List Segment) (ps : List EndpointParameter)
    → fits segments ps ≡ true
    → Fits segments ps
fits_sound [] [] h = tt
fits_sound [] (p ∷ ps) h = cc
fits_sound (fixed t ∷ segments) ps h =
    let (clean, rest) = and_parts _ _ h in (brace_free_sound t clean, fits_sound segments ps rest)
fits_sound (param name ∷ segments) [] h = cc
fits_sound (param name ∷ segments) (p ∷ ps) h =
    let (same, rest) = and_parts _ _ h in
    ((text_eq_iff name p.name).0 same, fits_sound segments ps rest)

abbrev distinct_names : List EndpointParameter → Bool
distinct_names [] = true
distinct_names (p ∷ ps) = all (λ q. not (text_eq q.name p.name)) ps && distinct_names ps

differ_sound :
    (name : Text) (ps : List EndpointParameter)
    → all (λ q. not (text_eq q.name name)) ps ≡ true
    → All (λ q. q.name ≢ name) ps
differ_sound name [] h = tt
differ_sound name (q ∷ ps) h =
    (ground (arith, text_eq_iff q.name name), differ_sound name ps (ground arith))

distinct_names_sound :
    (ps : List EndpointParameter) → distinct_names ps ≡ true → HasDistinctNames ps
distinct_names_sound [] h = tt
distinct_names_sound (p ∷ ps) h =
    let (d, ds) = and_parts _ _ h in (differ_sound p.name ps d, distinct_names_sound ps ds)

abbrev routed : EndpointDefinition → Bool
routed item =
    let segments = segments_from [] item.path in
    fits segments item.path_params
    && (text_eq item.path (print segments) && distinct_names item.query)

routed-endpoints : all routed endpoints ≡ true
unfolding endpoints text_eq segments_from
routed-endpoints = refl

-- How the path of a listed entry is made, with the facts about its parameters.
pub record IsRouted (item : EndpointDefinition) : Type 0 where
  pub segments : List Segment
  pub written : item.path ≡ print segments
  pub fitting : Fits segments item.path_params
  pub query_names : HasDistinctNames item.query

-- The placeholders of each path of the catalog are the path parameters of its entry, in order, and
-- its query parameters have distinct names.
pub IsListed-IsRouted : (item : EndpointDefinition) → IsListed item → IsRouted item
IsListed-IsRouted item listed =
    let segments = segments_from [] item.path in
    let (fit, rest) = and_parts _ _ (check_listed routed item routed-endpoints listed) in
    let (same, names) = and_parts _ _ rest in
    record {
      segments = segments;
      written = (text_eq_iff item.path (print segments)).0 same;
      fitting = fits_sound segments item.path_params fit;
      query_names = distinct_names_sound item.query names;
    }
