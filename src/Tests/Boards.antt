-- ===== src/Tests/Boards.antt =====
-- What the panels show, at small inputs.
use dotnet_web_api_startpack.Prelude.{
  lit, [], ◌∷◌, some, ◌≡◌, refl, All, lookup, starts_with, split, split_from, join, text_eq, member,
}
use dotnet_web_api_startpack.Types.{
  EndpointDefinition, EndpointGroup, EndpointGroupFilter, AuthMode, AuthRequirement, CatalogView,
  WorkbenchSearch,
}
use dotnet_web_api_startpack.Headers.{
  Headers, is_some, is_unsafe, read_cookie, build_headers, redact_header,
}
use dotnet_web_api_startpack.Uri.{
  encode_component, encode_points, encode_point, code_points_from, is_unreserved,
}
use dotnet_web_api_startpack.Scenarios.{Scenario, AccountName, script}
use dotnet_web_api_startpack.Scenarios.Performance.{perform}
use dotnet_web_api_startpack.Guided.{registration, passkey_script}
use dotnet_web_api_startpack.Panels.Ready.{vault_header, build_headers-is_ready}
use dotnet_web_api_startpack.Panels.Identity.{is_ready}
use dotnet_web_api_startpack.Panels.Request.{preview}
use dotnet_web_api_startpack.Panels.Screen.{Location}
use dotnet_web_api_startpack.Panels.Links.{IsOpened}
use dotnet_web_api_startpack.Panels.Visits.{script-IsOpened}
use dotnet_web_api_startpack.Tests.Samples.{platform, page, closure, variables, sample_endpoint}
use dotnet_web_api_startpack.Tests.Endings.{reply}
use dotnet_web_api_startpack.Tests.Passkeys.{authenticator}

abbrev closed_endpoint : EndpointDefinition
closed_endpoint = record sample_endpoint { auth = AuthRequirement.auth }

build_headers-is_ready_example :
    (headers : Headers) × (build_headers closed_endpoint AuthMode.cookie variables (lit "a=1")
      ≡ some headers)
    × (is_some (lookup (vault_header AuthMode.cookie) headers) ≡ is_ready AuthMode.cookie variables)
unfolding read_cookie encode_component encode_points encode_point code_points_from is_unreserved
    split split_from starts_with is_unsafe member text_eq
build_headers-is_ready_example =
    build_headers-is_ready closed_endpoint AuthMode.cookie variables (lit "a=1") refl refl refl

-- The lines of the preview are set apart by a line feed.
preview_runs :
    preview ⦃p = platform⦄ ((lit "A", lit "1") ∷ (lit "B", lit "2") ∷ [])
    ≡ b'A' ∷ b':' ∷ b' ' ∷ b'1' ∷ 10 ∷ b'B' ∷ b':' ∷ b' ' ∷ b'2' ∷ []
unfolding preview join redact_header text_eq
preview_runs = refl

abbrev no_query : WorkbenchSearch
no_query = record {
  q = lit "  ";
  group = EndpointGroupFilter.only EndpointGroup.security;
  view = CatalogView.compact;
}

abbrev location : Location
location = record { endpoint_id = some (lit "health-live"); search = no_query }

script-IsOpened_example :
    All
      (IsOpened location)
      (perform ⦃p = platform⦄ closure
        (script ⦃p = platform⦄ [] AuthMode.cookie (Scenario.demo_login AccountName.user))
        (reply ∷ [])
        page).visits
    × All
        (IsOpened location)
        (perform ⦃p = platform⦄ closure
          (passkey_script ⦃p = platform⦄ authenticator registration sample_endpoint)
          (reply ∷ [])
          page).visits
script-IsOpened_example =
    script-IsOpened ⦃p = platform⦄ location closure [] (Scenario.demo_login AccountName.user)
      authenticator registration sample_endpoint (reply ∷ []) page
