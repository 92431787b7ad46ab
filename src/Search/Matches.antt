-- ===== src/Search/Matches.antt =====
-- Which entries of the catalog a search shows.
use dotnet_web_api_startpack.Prelude.{
  ℕ, zero, suc, Text, List, [], ◌∷◌, ◌++◌, Bool, true, none, some, some-injective, ◌≡◌, ◌≢◌, ◌↔◌,
  ◌⊎◌, inl, inr, refl, sym, ap, ◌∙◌, arith, Bool-cases, get_elem?, filter, starts_with,
}
use dotnet_web_api_startpack.Types.{EndpointDefinition, WorkbenchSearch, AppLocale}
use dotnet_web_api_startpack.Template.{is_empty}
use dotnet_web_api_startpack.Catalog.{endpoints}
use dotnet_web_api_startpack.Catalog.Ids.{IsListed}
use dotnet_web_api_startpack.Search.{includes, in_group, searched, query_of, is_visible, visible}

-- The text stands somewhere in the other.
abbrev pub Occurs : Text → Text → Type 0
Occurs query t = (before after : Text) × (t ≡ before ++ (query ++ after))

starts_with-split :
    (query t : Text) → starts_with query t ≡ true → (after : Text) × (t ≡ query ++ after)
unfolding starts_with
starts_with-split [] t h = (t, refl)
starts_with-split (c ∷ query) [] h = absurd (ground arith)
starts_with-split (c ∷ query) (d ∷ t) h =
    let (after, same) = starts_with-split query t (ground arith) in (after, ground (arith, same))

starts_with-append_self : (query after : Text) → starts_with query (query ++ after) ≡ true
unfolding starts_with
starts_with-append_self [] after = refl
starts_with-append_self (c ∷ query) after = ground (arith, starts_with-append_self query after)

includes-Occurs : (query t : Text) → includes query t ≡ true → Occurs query t
unfolding includes
includes-Occurs [] [] h = ([], [], refl)
includes-Occurs (c ∷ query) [] h = absurd (ground arith)
includes-Occurs query (d ∷ t) h = elim (Bool-cases (starts_with query (d ∷ t))) [
  | inl here ↦ let (after, same) = starts_with-split query (d ∷ t) here in ([], after, same)
  | inr other ↦
      let (before, after, same) = includes-Occurs query t (ground (arith, h, other)) in
      (d ∷ before, after, ap (λ s. d ∷ s) same)
]

includes-append : (query before after : Text) → includes query (before ++ (query ++ after)) ≡ true
unfolding includes starts_with
includes-append [] [] [] = refl
includes-append [] [] (c ∷ after) = refl
includes-append (c ∷ query) [] after = ground (arith, starts_with-append_self (c ∷ query) after)
includes-append query (d ∷ before) after = ground (arith, includes-append query before after)

abbrev Stands {ℓ} : {A : Type ℓ} → A → List A → Type ℓ
Stands x xs = (i : ℕ) × (get_elem? xs i ≡ some x)

-- What stands in a filtered list.
Stands-cons {ℓ} :
    {A : Type ℓ} (p : A → Bool) (x y : A) (ys zs : List A) (i : ℕ)
    → p y ≡ true
    → (Stands x zs → Stands x ys × (p x ≡ true))
    → get_elem? (y ∷ zs) i ≡ some x
    → Stands x (y ∷ ys) × (p x ≡ true)
Stands-cons p x y ys zs zero good f h =
    let same = some-injective y x h in ((0, ap some same), ap p (sym same) ∙ good)
Stands-cons p x y ys zs (suc i) good f h =
    let ((j, found), good') = f (i, h) in ((suc j, found), good')

Stands-filter {ℓ} :
    {A : Type ℓ} (p : A → Bool) (x : A) (xs : List A)
    → Stands x (filter p xs)
    → Stands x xs × (p x ≡ true)
Stands-filter p x [] (i, h) = absurd (none_ne_some h)
  where
    none_ne_some : none ≢ some x
    none_ne_some e = cc
Stands-filter p x (y ∷ ys) (i, h) = elim (Bool-cases (p y)) [
  | inl good ↦
      Stands-cons p x y ys (filter p ys) i good (Stands-filter p x ys) (rw (good, filter) at h)
  | inr bad ↦
      let ((j, found), good) = Stands-filter p x ys (i, rw (bad, filter) at h) in
      ((suc j, found), good)
]

filter-Stands {ℓ} :
    {A : Type ℓ} (p : A → Bool) (x : A) (xs : List A) (i : ℕ)
    → get_elem? xs i ≡ some x
    → p x ≡ true
    → Stands x (filter p xs)
filter-Stands p x [] i h good = absurd (none_ne_some h)
  where
    none_ne_some : none ≢ some x
    none_ne_some e = cc
filter-Stands p x (y ∷ ys) zero h good =
    let same = some-injective y x h in rw (ap p same ∙ good, filter) (0, h)
filter-Stands p x (y ∷ ys) (suc i) h good =
    let (j, found) = filter-Stands p x ys i h good in
    elim (Bool-cases (p y)) [
      | inl keep ↦ rw (keep, filter) (suc j, found)
      | inr skip ↦ rw (skip, filter) (j, found)
    ]

module _ (lower : AppLocale → Text → Text) (locale : AppLocale) (search : WorkbenchSearch) where
  -- The entry is of the group that is searched, and the query is empty or occurs in its text.
  abbrev pub Matches : EndpointDefinition → Type 0
  Matches item =
      (in_group search.group item.group ≡ true)
      × ((query_of lower locale search ≡ [])
          ⊎ Occurs (query_of lower locale search) (lower locale (searched locale item)))

  is_visible-Matches :
      (item : EndpointDefinition) → is_visible lower locale search item ≡ true → Matches item
  unfolding is_visible
  is_visible-Matches item h = elim (Bool-cases (in_group search.group item.group)) [
    | inr other ↦ absurd (ground arith)
    | inl group ↦ elim (Bool-cases (is_empty (query_of lower locale search))) [
      | inl empty ↦ (group, inl (is_empty-nil _ empty))
      | inr query ↦ (
        group,
        inr (
            includes-Occurs (query_of lower locale search) (lower locale (searched locale item))
              (ground (arith, h, group, query))),
      )
    ]
  ]
    where
      is_empty-nil : (t : Text) → is_empty t ≡ true → t ≡ []
      is_empty-nil [] e = refl
      is_empty-nil (c ∷ t) e = absurd (ground arith)

  Matches-is_visible :
      (item : EndpointDefinition) → Matches item → is_visible lower locale search item ≡ true
  unfolding is_visible
  Matches-is_visible item (group, inl empty) = ground (arith, group, empty)
  Matches-is_visible item (group, inr (before, after, same)) =
      let query = query_of lower locale search in
      let found = ap (includes query) same ∙ includes-append query before after in
      ground (arith, group, found)

  -- The catalog shows exactly those of its entries that are of the group that is searched and in
  -- whose method, path, title or description, as one text in lower case, the trimmed query in lower
  -- case occurs, or all of the group if the query is empty.
  pub visible-Matches :
      (item : EndpointDefinition)
      → ((i : ℕ) × (get_elem? (visible lower locale search) i ≡ some item))
        ↔ (IsListed item × Matches item)
  unfolding visible
  visible-Matches item = (
    λ shown.
        let (listed, good) = Stands-filter (is_visible lower locale search) item endpoints shown in
        (listed, is_visible-Matches item good),
    λ ((i, listed), matches).
        filter-Stands (is_visible lower locale search) item endpoints i listed
          (Matches-is_visible item matches),
  )
