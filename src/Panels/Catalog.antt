-- ===== src/Panels/Catalog.antt =====
-- The list of endpoints in playground-ui/src/features/workbench/endpoint-catalog.tsx, around its filter.
use dotnet_web_api_startpack.Prelude.{
  ℕ, Text, lit, List, [], ◌∷◌, map, Bool, true, false, Option, none, some, filter, length, text_eq,
  if◌then◌else◌,
}
use dotnet_web_api_startpack.Types.{
  EndpointDefinition, EndpointGroup, EndpointGroupFilter, only, AuthRequirement, auth, recent,
  AppLocale, CatalogView, comfortable, compact, WorkbenchSearch, method_text,
}
use dotnet_web_api_startpack.Platform.{Platform}
use dotnet_web_api_startpack.Catalog.{endpoints, endpoint_copy}
use dotnet_web_api_startpack.Search.{same_group, visible}
use dotnet_web_api_startpack.Panels.{text}
use dotnet_web_api_startpack.Panels.Response.{number_text}

-- `GROUPS` of constants.ts
abbrev pub groups : List EndpointGroupFilter
groups =
    EndpointGroupFilter.all
    ∷ only EndpointGroup.operations
    ∷ only EndpointGroup.authentication
    ∷ only EndpointGroup.account
    ∷ only EndpointGroup.sessions
    ∷ only EndpointGroup.security
    ∷ only EndpointGroup.admin
    ∷ []

-- The number on the button of a group, of these endpoints.
unfoldable pub group_count : List EndpointDefinition → EndpointGroupFilter → ℕ
group_count items EndpointGroupFilter.all = length items
group_count items (only group) =
    length (filter (λ (item : EndpointDefinition). same_group item.group group) items)

abbrev pub is_comfortable : CatalogView → Bool
is_comfortable comfortable = true
is_comfortable compact = false

abbrev pub same_filter : EndpointGroupFilter → EndpointGroupFilter → Bool
same_filter EndpointGroupFilter.all EndpointGroupFilter.all = true
same_filter (only g) (only h) = same_group g h
same_filter _ _ = false

-- A change of the search; a part that is `none` stays.
pub record SearchChange : Type 0 where
  pub q : Option Text
  pub group : Option EndpointGroupFilter
  pub view : Option CatalogView

-- The handlers of the field, of the buttons of the groups and views, and of the button that clears.
abbrev pub type_query : Text → SearchChange
type_query q = record { q = some q; group = none; view = none }

abbrev pub choose_group : EndpointGroupFilter → SearchChange
choose_group group = record { q = none; group = some group; view = none }

abbrev pub choose_view : CatalogView → SearchChange
choose_view view = record { q = none; group = none; view = some view }

abbrev pub clear_filters : SearchChange
clear_filters = record { q = some []; group = some EndpointGroupFilter.all; view = none }

-- The button of a group.
pub record GroupButton : Type 0 where
  pub label : Text
  pub count : ℕ
  pub pressed : Bool
  pub change : SearchChange

-- One endpoint in the list; its description is shown in the comfortable view only.
pub record Card : Type 0 where
  pub id : Text
  pub current : Bool
  pub method : Text
  pub path : Text
  pub title : Text
  pub description : Option Text
  pub access : Text

pub record NoCards : Type 0 where
  pub title : Text
  pub description : Text
  pub clear_label : Text
  pub clear : SearchChange

pub data Cards : Type 0 where
  cards : List Card → Cards
  no_cards : NoCards → Cards

pub record CatalogPanel : Type 0 where
  pub heading : Text
  pub count : Text
  pub query : Text
  pub groups : List GroupButton
  pub cards : Cards

abbrev pub is_selected : Option Text → Text → Bool
is_selected none id = false
is_selected (some selected) id = text_eq selected id

module _ ⦃p : Platform⦄ where
  -- `groupLabel`
  unfoldable pub group_label : EndpointGroupFilter → Text
  group_label EndpointGroupFilter.all = text (lit "all_operations")
  group_label (only EndpointGroup.operations) = text (lit "group_operations")
  group_label (only EndpointGroup.authentication) = text (lit "group_authentication")
  group_label (only EndpointGroup.account) = text (lit "group_account")
  group_label (only EndpointGroup.sessions) = text (lit "group_sessions")
  group_label (only EndpointGroup.security) = text (lit "group_security")
  group_label (only EndpointGroup.admin) = text (lit "group_admin")

  -- `authLabel`
  unfoldable pub auth_label : AuthRequirement → Text
  auth_label AuthRequirement.public = text (lit "auth_public")
  auth_label auth = text (lit "auth_authenticated")
  auth_label recent = text (lit "auth_recent")
  auth_label AuthRequirement.admin = text (lit "auth_admin")

  abbrev pub group_button : WorkbenchSearch → EndpointGroupFilter → GroupButton
  group_button search group = record {
    label = group_label group;
    count = group_count endpoints group;
    pressed = same_filter search.group group;
    change = choose_group group;
  }

  abbrev pub card : Option Text → CatalogView → AppLocale → EndpointDefinition → Card
  card selected view locale item = record {
    id = item.id;
    current = is_selected selected item.id;
    method = method_text item.method;
    path = item.path;
    title = (endpoint_copy item locale).title;
    description =
        if is_comfortable view then some (endpoint_copy item locale).description else none;
    access = auth_label item.auth;
  }

  abbrev cards_of : Option Text → CatalogView → AppLocale → List EndpointDefinition → Cards
  cards_of selected view locale [] = no_cards (record {
    title = text (lit "no_endpoints_title");
    description = text (lit "no_endpoints_description");
    clear_label = text (lit "clear_filters");
    clear = clear_filters;
  })
  cards_of selected view locale (item ∷ items) =
      cards (map (card selected view locale) (item ∷ items))

  -- `EndpointCatalog`; `lower` is `toLocaleLowerCase`.
  unfoldable pub catalog_panel :
      (AppLocale → Text → Text) → AppLocale → Option Text → WorkbenchSearch → CatalogPanel
  catalog_panel lower locale selected search =
      let shown = visible lower locale search in
      record {
        heading = group_label search.group;
        count =
            p.message (lit "visible_endpoint_count")
              ((lit "count", number_text (length shown)) ∷ []);
        query = search.q;
        groups = map (group_button search) groups;
        cards = cards_of selected search.view locale shown;
      }
