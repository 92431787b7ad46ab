-- ===== src/Search.antt =====
-- The filter of the catalog in playground-ui/src/features/workbench/endpoint-catalog.tsx, and the
-- search of the address that search-schema.ts beside it reads.
pub mod Matches
use dotnet_web_api_startpack.Prelude.{
  ℕ, Text, lit, List, [], ◌∷◌, ◌++◌, Bool, true, false, ◌||◌, not, Option, none, some, filter,
  member, reverse, starts_with, text_eq, ◌==◌, leb, ◌&&◌, if◌then◌else◌,
}
use dotnet_web_api_startpack.Json.{Json, str}
use dotnet_web_api_startpack.Types.{
  EndpointDefinition, EndpointGroup, EndpointGroupFilter, only, AppLocale, CatalogView, comfortable,
  compact, WorkbenchSearch, method_text,
}
use dotnet_web_api_startpack.Template.{is_empty}
use dotnet_web_api_startpack.Uri.{is_between, one_of}
use dotnet_web_api_startpack.Catalog.{endpoints, endpoint_copy}

-- White space and line terminators, as `trim` takes them away.
abbrev pub is_space : ℕ → Bool
is_space c =
    is_between 9 13 c
    || (is_between 0x2000 0x200A c
        || one_of (32 ∷ 0xA0 ∷ 0x1680 ∷ 0x2028 ∷ 0x2029 ∷ 0x202F ∷ 0x205F ∷ 0x3000 ∷ 0xFEFF ∷ []) c)

unfoldable pub drop_spaces : Text → Text
drop_spaces [] = []
drop_spaces (c ∷ s) = elim (is_space c) [ true ↦ drop_spaces s | false ↦ c ∷ s ]

abbrev pub trim : Text → Text
trim s = reverse (drop_spaces (reverse (drop_spaces s)))

-- `text.includes(query)`
unfoldable pub includes : Text → Text → Bool
includes query [] = is_empty query
includes query (c ∷ s) = let rest = includes query s in starts_with query (c ∷ s) || rest

unfoldable pub same_group : EndpointGroup → EndpointGroup → Bool
same_group EndpointGroup.operations EndpointGroup.operations = true
same_group EndpointGroup.authentication EndpointGroup.authentication = true
same_group EndpointGroup.account EndpointGroup.account = true
same_group EndpointGroup.sessions EndpointGroup.sessions = true
same_group EndpointGroup.security EndpointGroup.security = true
same_group EndpointGroup.admin EndpointGroup.admin = true
same_group _ _ = false

abbrev pub in_group : EndpointGroupFilter → EndpointGroup → Bool
in_group EndpointGroupFilter.all group = true
in_group (only wanted) group = same_group group wanted

-- The text of an entry that is searched.
abbrev pub searched : AppLocale → EndpointDefinition → Text
searched locale item =
    method_text item.method
    ++ (lit " "
        ++ (item.path
            ++ (lit " "
                ++ ((endpoint_copy item locale).title
                    ++ (lit " " ++ (endpoint_copy item locale).description)))))

-- `lower` is `toLocaleLowerCase`.
module _ (lower : AppLocale → Text → Text) (locale : AppLocale) where
  abbrev pub query_of : WorkbenchSearch → Text
  query_of search = lower locale (trim search.q)

  -- The test of the filter.
  unfoldable pub is_visible : WorkbenchSearch → EndpointDefinition → Bool
  is_visible search item =
      if not (in_group search.group item.group)
      then false
      else if is_empty (query_of search)
      then true
      else includes (query_of search) (lower locale (searched locale item))

  unfoldable pub visible : WorkbenchSearch → List EndpointDefinition
  visible search = filter (is_visible search) endpoints

-- `workbenchSearchSchema`: a property that is missing or is no value of its type has its default. The
-- argument is what the address has for it.
abbrev pub parse_q : Option Json → Text
parse_q (some (str q)) = q
parse_q _ = []

unfoldable pub parse_group : Option Json → EndpointGroupFilter
parse_group (some (str t)) =
    if text_eq t (lit "operations")
    then only EndpointGroup.operations
    else if text_eq t (lit "authentication")
    then only EndpointGroup.authentication
    else if text_eq t (lit "account")
    then only EndpointGroup.account
    else if text_eq t (lit "sessions")
    then only EndpointGroup.sessions
    else if text_eq t (lit "security")
    then only EndpointGroup.security
    else if text_eq t (lit "admin")
    then only EndpointGroup.admin
    else EndpointGroupFilter.all
parse_group _ = EndpointGroupFilter.all

abbrev pub parse_view : Option Json → CatalogView
parse_view (some (str t)) = if text_eq t (lit "compact") then compact else comfortable
parse_view _ = comfortable

abbrev pub parse_search : (q group view : Option Json) → WorkbenchSearch
parse_search q group view = record {
  q = parse_q q;
  group = parse_group group;
  view = parse_view view;
}
