-- ===== src/Panels/Counts.antt =====
-- The numbers on the buttons of the groups.
use dotnet_web_api_startpack.Prelude.{
  ℕ, ◌+◌, Text, List, [], ◌∷◌, map, true, false, ◌≡◌, refl, ap, ◌∙◌, Bool, arith, Bool-cases, inl,
  inr, filter, length,
}
use dotnet_web_api_startpack.Types.{
  EndpointDefinition, EndpointGroup, EndpointGroupFilter, only, AppLocale, WorkbenchSearch,
}
use dotnet_web_api_startpack.Template.{is_empty}
use dotnet_web_api_startpack.Catalog.{endpoints}
use dotnet_web_api_startpack.Search.{same_group, in_group, query_of, is_visible, visible}
use dotnet_web_api_startpack.Panels.Catalog.{group_count}

abbrev pub sum : List ℕ → ℕ
sum [] = 0
sum (n ∷ ns) = n + sum ns

abbrev pub own_groups : List EndpointGroupFilter
own_groups =
    only EndpointGroup.operations
    ∷ only EndpointGroup.authentication
    ∷ only EndpointGroup.account
    ∷ only EndpointGroup.sessions
    ∷ only EndpointGroup.security
    ∷ only EndpointGroup.admin
    ∷ []

abbrev one_if : Bool → ℕ
one_if true = 1
one_if false = 0

count-cons :
    (item : EndpointDefinition) (items : List EndpointDefinition) (g : EndpointGroup)
    → group_count (item ∷ items) (only g)
      ≡ one_if (same_group item.group g) + group_count items (only g)
unfolding group_count
count-cons item items g = elim (Bool-cases (same_group item.group g)) [
  | inl e ↦ rw (e, group_count, filter) (omega arith)
  | inr e ↦ rw (e, group_count, filter) (omega arith)
]

-- A group is one of the six.
one_group :
    (h : EndpointGroup)
    → one_if (same_group h EndpointGroup.operations)
        + (one_if (same_group h EndpointGroup.authentication)
            + (one_if (same_group h EndpointGroup.account)
                + (one_if (same_group h EndpointGroup.sessions)
                    + (one_if (same_group h EndpointGroup.security)
                        + one_if (same_group h EndpointGroup.admin)))))
      ≡ 1
unfolding same_group
one_group h = ground arith

-- Every endpoint is counted on the button of exactly one group: for any list of endpoints, the numbers
-- of the six groups add up to the number on the button of all.
pub sum-group_count :
    (items : List EndpointDefinition)
    → sum (map (group_count items) own_groups) ≡ group_count items EndpointGroupFilter.all
unfolding group_count
sum-group_count [] = refl
sum-group_count (item ∷ items) =
    let more = count-cons item items in
    omega (
      arith,
      sum-group_count items,
      one_group item.group,
      more EndpointGroup.operations,
      more EndpointGroup.authentication,
      more EndpointGroup.account,
      more EndpointGroup.sessions,
      more EndpointGroup.security,
      more EndpointGroup.admin,
    )

filter-same :
    (p q : EndpointDefinition → Bool) (items : List EndpointDefinition)
    → ((item : EndpointDefinition) → p item ≡ q item)
    → filter p items ≡ filter q items
filter-same p q [] h = refl
filter-same p q (item ∷ items) h = elim (Bool-cases (q item)) [
  | inl e ↦ rw (h item ∙ e, e, filter) (ap (λ rest. item ∷ rest) (filter-same p q items h))
  | inr e ↦ rw (h item ∙ e, e, filter) (filter-same p q items h)
]

filter-true : (items : List EndpointDefinition) → filter (λ _. true) items ≡ items
filter-true [] = refl
filter-true (item ∷ items) = ap (λ rest. item ∷ rest) (filter-true items)

count-in_group :
    (items : List EndpointDefinition) (g : EndpointGroupFilter)
    → length (filter (λ (item : EndpointDefinition). in_group g item.group) items)
      ≡ group_count items g
unfolding group_count
count-in_group items EndpointGroupFilter.all = ap length (filter-true items)
count-in_group items (only g) = refl

module _ (lower : AppLocale → Text → Text) (locale : AppLocale) where
  is_visible-in_group :
      (search : WorkbenchSearch)
      → is_empty (query_of lower locale search) ≡ true
      → (item : EndpointDefinition)
      → is_visible lower locale search item ≡ in_group search.group item.group
  unfolding is_visible
  is_visible-in_group search e item = ground arith

  -- Where the query is empty, also after spaces at its ends are dropped, the heading of the list counts
  -- as many endpoints as the button of the chosen group.
  pub length-visible :
      (search : WorkbenchSearch)
      → is_empty (query_of lower locale search) ≡ true
      → length (visible lower locale search) ≡ group_count endpoints search.group
  unfolding visible
  length-visible search e =
      ap length (
        filter-same (is_visible lower locale search)
          (λ (item : EndpointDefinition). in_group search.group item.group) endpoints
          (is_visible-in_group search e))
      ∙ count-in_group endpoints search.group
