-- ===== src/Catalog/Ids.antt =====
-- The identifiers of the catalog, and the lookup by identifier.
use dotnet_web_api_startpack.Prelude.{
  ℕ, zero, suc, Text, List, [], ◌∷◌, Bool, true, ◌&&◌, not, some, ◌≡◌, ◌↔◌, refl, sym, arith,
  Bool-cases, inl, inr, get_elem?, find?, all, text_eq, text_eq_iff, text_eq_refl, some-injective,
  subst, ◌∙◌, ap,
}
use dotnet_web_api_startpack.Types.{EndpointDefinition}
use dotnet_web_api_startpack.Catalog.{endpoints, endpoint_by_id}

-- `item` stands in the catalog.
abbrev pub IsListed : EndpointDefinition → Type 0
IsListed item = (i : ℕ) × (get_elem? endpoints i ≡ some item)

-- A check of every entry, run once, holds of each listed entry.
all-get_elem? :
    (p : EndpointDefinition → Bool) (items : List EndpointDefinition) (i : ℕ)
    {item : EndpointDefinition}
    → all p items ≡ true
    → get_elem? items i ≡ some item
    → p item ≡ true
all-get_elem? p [] i h e = cc
all-get_elem? p (x ∷ xs) zero {item} h e = rw (← some-injective x item e) (ground arith)
all-get_elem? p (x ∷ xs) (suc i) h e = all-get_elem? p xs i (ground arith) e

pub check_listed :
    (p : EndpointDefinition → Bool) (item : EndpointDefinition)
    → all p endpoints ≡ true
    → IsListed item
    → p item ≡ true
check_listed p item h (i, e) = all-get_elem? p endpoints i h e

abbrev differ : EndpointDefinition → List EndpointDefinition → Bool
differ x xs = all (λ y. not (text_eq x.id y.id)) xs

abbrev distinct : List EndpointDefinition → Bool
distinct [] = true
distinct (x ∷ xs) = differ x xs && distinct xs

distinct-endpoints : distinct endpoints ≡ true
unfolding endpoints text_eq
distinct-endpoints = refl

find?-id :
    (items : List EndpointDefinition) (i : ℕ) {item : EndpointDefinition}
    → distinct items ≡ true
    → get_elem? items i ≡ some item
    → find? (λ y. text_eq y.id item.id) items ≡ some item
find?-id [] i d e = cc
find?-id (x ∷ xs) zero {item} d e =
    subst (λ y. find? (λ z. text_eq z.id y.id) (x ∷ xs) ≡ some y) (some-injective x item e)
      (ground (arith, text_eq_refl x.id))
find?-id (x ∷ xs) (suc i) {item} d e = ground (
  arith,
  all-get_elem? (λ y. not (text_eq x.id y.id)) xs i {item = item},
  find?-id xs i {item = item},
)

find?-sound :
    (id : Text) (items : List EndpointDefinition) {item : EndpointDefinition}
    → find? (λ y. text_eq y.id id) items ≡ some item
    → ((i : ℕ) × (get_elem? items i ≡ some item)) × (item.id ≡ id)
find?-sound id [] e = cc
find?-sound id (x ∷ xs) {item} e = elim (Bool-cases (text_eq x.id id)) [
  | inl same ↦
      let here = some-injective x item (rw (same, find?) at e) in
      (
        (0, ap some here),
        ap (λ (y : EndpointDefinition). y.id) (sym here) ∙ (text_eq_iff x.id id).0 same,
      )
  | inr other ↦
      let ((i, found), same) = find?-sound id xs (rw (other, find?) at e) in ((suc i, found), same)
]

-- The lookup by identifier finds an entry exactly when it stands in the catalog and has that
-- identifier; so no two entries share one.
pub endpoint_by_id-eq-some_iff :
    (id : Text) (item : EndpointDefinition)
    → (endpoint_by_id id ≡ some item) ↔ (IsListed item × (item.id ≡ id))
unfolding endpoint_by_id
endpoint_by_id-eq-some_iff id item = (
  find?-sound id endpoints,
  λ ((i, found), same). rw (← same) (find?-id endpoints i distinct-endpoints found),
)
