-- ===== src/Tests/Searches.antt =====
-- The filter of the catalog, at small inputs.
use dotnet_web_api_startpack.Prelude.{
  ℕ, Text, lit, [], ◌∷◌, map, some, ◌≡◌, ◌↔◌, refl, get_elem?, starts_with,
}
use dotnet_web_api_startpack.Types.{
  EndpointDefinition, EndpointGroup, EndpointGroupFilter, AppLocale, CatalogView, WorkbenchSearch,
}
use dotnet_web_api_startpack.Headers.{to_lower}
use dotnet_web_api_startpack.Catalog.{endpoints, endpoint_copy}
use dotnet_web_api_startpack.Catalog.Admin.{admin_audit}
use dotnet_web_api_startpack.Catalog.Ids.{IsListed}
use dotnet_web_api_startpack.Search.{includes, is_visible, visible, same_group, drop_spaces}
use dotnet_web_api_startpack.Search.Matches.{Matches, visible-Matches}

abbrev lower : AppLocale → Text → Text
lower locale = map to_lower

abbrev search : WorkbenchSearch
search = record {
  q = lit " Audit ";
  group = EndpointGroupFilter.only EndpointGroup.admin;
  view = CatalogView.comfortable;
}

shown :
    map (λ (item : EndpointDefinition). item.id) (visible lower AppLocale.en search)
    ≡ lit "admin-user-delete" ∷ lit "admin-audit" ∷ []
unfolding visible is_visible includes same_group drop_spaces endpoints endpoint_copy starts_with
shown = refl

visible-Matches_example :
    ((i : ℕ) × (get_elem? (visible lower AppLocale.en search) i ≡ some admin_audit))
    ↔ (IsListed admin_audit × Matches lower AppLocale.en search admin_audit)
visible-Matches_example = visible-Matches lower AppLocale.en search admin_audit
