-- ===== src/Catalog/Paths.antt =====
-- What `buildPath` makes of the entries of the catalog.
use dotnet_web_api_startpack.Prelude.{
  ℕ, Text, List, [], ◌∷◌, some, ◌>>=◌, ◌≡◌, ◌≢◌, refl, subst, arith, inl, inr, All, All-append,
  bind-eq-some, some-injective,
}
use dotnet_web_api_startpack.Types.{
  EndpointDefinition, EndpointParameter, WorkbenchVariables, RequestDraft,
}
use dotnet_web_api_startpack.Platform.{Platform}
use dotnet_web_api_startpack.Uri.{form_serialize, encode_component}
use dotnet_web_api_startpack.Uri.Bounds.{encode_component-IsUriSafe}
use dotnet_web_api_startpack.Address.{build_path, with_query, parameter_value}
use dotnet_web_api_startpack.Address.Fill.{
  Segment, fixed, param, Fits, render, fill_path-print, All-IsUriSafe, IsUriSafe-ne_brace,
}
use dotnet_web_api_startpack.Address.Query.{
  sent, collect_query-sent, IsQuerySafe, form_serialize-IsQuerySafe,
}
use dotnet_web_api_startpack.Catalog.Ids.{IsListed}
use dotnet_web_api_startpack.Catalog.Routes.{IsListed-IsRouted}

abbrev pub HasNoBrace : Text → Type 0
HasNoBrace t = All (λ c. (c ≢ b'{') × (c ≢ b'}')) t

IsQuerySafe-ne_brace : (c : ℕ) → IsQuerySafe c → (c ≢ b'{') × (c ≢ b'}')
IsQuerySafe-ne_brace c (inl safe) = IsUriSafe-ne_brace c safe
IsQuerySafe-ne_brace c (inr mark) = (ground arith, ground arith)

query-HasNoBrace : (t : Text) → All IsQuerySafe t → HasNoBrace t
query-HasNoBrace [] h = tt
query-HasNoBrace (c ∷ t) (h, hs) = (IsQuerySafe-ne_brace c h, query-HasNoBrace t hs)

with_query-HasNoBrace :
    (path encoded : Text)
    → HasNoBrace path
    → HasNoBrace encoded
    → HasNoBrace (with_query path encoded)
with_query-HasNoBrace path [] h k = h
with_query-HasNoBrace path (c ∷ t) h k = All-append _ path _ h ((ground arith, ground arith), k)

module _ ⦃p : Platform⦄ (variables : WorkbenchVariables) where
  render-HasNoBrace :
      (values : List (Text × Text)) (segments : List Segment) (ps : List EndpointParameter)
      (path : Text)
      → Fits segments ps
      → render variables values segments ps ≡ some path
      → HasNoBrace path
  render-HasNoBrace values [] [] path fits h = subst HasNoBrace (some-injective _ _ h) tt
  render-HasNoBrace values [] (p ∷ ps) path fits h = absurd fits
  render-HasNoBrace values (fixed t ∷ segments) ps path (clean, fits) h =
      let (rest, rendered, same) = bind-eq-some (render variables values segments ps) _ h in
      subst HasNoBrace (some-injective _ _ same)
        (All-append _ t rest clean (render-HasNoBrace values segments ps rest fits rendered))
  render-HasNoBrace values (param name ∷ segments) [] path fits h = absurd fits
  render-HasNoBrace values (param name ∷ segments) (p ∷ ps) path (_, fits) h =
      let (encoded, e, h') =
        bind-eq-some (encode_component (parameter_value variables values p)) _ h in
      let (rest, rendered, same) = bind-eq-some (render variables values segments ps) _ h' in
      let clean =
        All-IsUriSafe _ encoded IsUriSafe-ne_brace (encode_component-IsUriSafe _ encoded e) in
      subst HasNoBrace (some-injective _ _ same)
        (All-append _ encoded rest clean (render-HasNoBrace values segments ps rest fits rendered))

  -- For an entry of the catalog, whatever the draft and the variables: the path is the entry's own
  -- text with each placeholder replaced by the encoded value of its parameter, followed by the
  -- serialized query of exactly the parameters whose value is sent; it fails exactly when a path
  -- value cannot be encoded.
  pub build_path-IsListed :
      (item : EndpointDefinition) (draft : RequestDraft) (listed : IsListed item)
      → build_path variables item draft ≡ (
          render variables draft.path_values
            (IsListed-IsRouted item listed).segments
            item.path_params
          >>= λ path.
              some
                (with_query path (form_serialize (sent variables draft.query_values item.query))))
  unfolding build_path
  build_path-IsListed item draft listed =
      let r = IsListed-IsRouted item listed in
      rw (collect_query-sent variables draft.query_values item.query r.query_names) (
        rw r.written (
          rw (fill_path-print variables draft.path_values r.segments item.path_params r.fitting)
            refl))

  -- The path that is built for an entry of the catalog has no brace left, whatever the draft and the
  -- variables hold.
  pub build_path-HasNoBrace :
      (item : EndpointDefinition) (draft : RequestDraft) (path : Text)
      → IsListed item
      → build_path variables item draft ≡ some path
      → HasNoBrace path
  build_path-HasNoBrace item draft path listed h =
      let r = IsListed-IsRouted item listed in
      let query = form_serialize (sent variables draft.query_values item.query) in
      let values = draft.path_values in
      let (filled, rendered, same) =
        bind-eq-some (render variables values r.segments item.path_params) _
          (rw (build_path-IsListed item draft listed) at h) in
      subst HasNoBrace (some-injective _ _ same) (
        with_query-HasNoBrace filled query
          (render-HasNoBrace values r.segments item.path_params filled r.fitting rendered)
          (query-HasNoBrace query
            (form_serialize-IsQuerySafe (sent variables draft.query_values item.query))))
