-- ===== src/Panels/Screen.antt =====
-- The pages and their addresses, playground-ui/src/routes, and the keys of workbench-screen.tsx and
-- endpoint-detail.tsx under playground-ui/src/features/workbench.
use dotnet_web_api_startpack.Prelude.{
  Text, lit, Bool, ◌&&◌, ◌||◌, not, Option, none, some, or_else, text_eq,
}
use dotnet_web_api_startpack.Types.{EndpointDefinition, WorkbenchSearch}
use dotnet_web_api_startpack.Catalog.{endpoint_by_id}
use dotnet_web_api_startpack.Panels.Catalog.{SearchChange}

-- An address of the program: that of the catalog, or of an endpoint.
pub record Location : Type 0 where
  pub endpoint_id : Option Text
  pub search : WorkbenchSearch

pub data Page : Type 0 where
  catalog_page : Page
  detail_page : EndpointDefinition → Page
  not_found : Page

-- The routes: an endpoint that the catalog does not have is not found.
unfoldable pub open_page : Location → Page
open_page location = elim location.endpoint_id [
  | none ↦ catalog_page
  | some id ↦ elim (endpoint_by_id id) [ none ↦ not_found | some endpoint ↦ detail_page endpoint ]
]

-- `{ ...current, ...next }`
abbrev pub apply_change : SearchChange → WorkbenchSearch → WorkbenchSearch
apply_change change search = record {
  q = or_else change.q search.q;
  group = or_else change.group search.group;
  view = or_else change.view search.view;
}

-- `onSearchChange`, `onNavigateEndpoint` and `onBack`, of a page at a location.
unfoldable pub change_search : SearchChange → Location → Location
change_search change location = record location { search = apply_change change location.search }

unfoldable pub navigate_endpoint : Text → Location → Location
navigate_endpoint id location = record location { endpoint_id = some id }

unfoldable pub go_back : Location → Location
go_back location = record location { endpoint_id = none }

-- A key that is pressed, and whether an input has the focus.
pub record KeyPress : Type 0 where
  pub key : Text
  pub meta : Bool
  pub ctrl : Bool
  pub editable : Bool

-- `handleShortcut`: whether the key leads to the field of the search.
unfoldable pub focuses_search : KeyPress → Bool
focuses_search press = text_eq press.key (lit "/") && not press.editable

-- `handleKeyDown`: whether the key sends the request, and whether it leads back to the catalog.
unfoldable pub sends_request : KeyPress → Bool
sends_request press = (press.meta || press.ctrl) && text_eq press.key (lit "Enter")

unfoldable pub leads_back : KeyPress → Bool
leads_back press = text_eq press.key (lit "Escape")
