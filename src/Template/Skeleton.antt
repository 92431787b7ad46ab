-- ===== src/Template/Skeleton.antt =====
-- What `materialize` keeps of a JSON value and what it changes.
use mathlib.Core.List.{map-append}
use dotnet_web_api_startpack.Prelude.{Text, List, [], ◌∷◌, ◌++◌, map, ◌≡◌, refl, ap}
use dotnet_web_api_startpack.Json.{
  Json, null, bool, num, str, arr, obj, Items, nil, cons, Fields, end, field,
}
use dotnet_web_api_startpack.Types.{WorkbenchVariables}
use dotnet_web_api_startpack.Platform.{Platform}
use dotnet_web_api_startpack.Template.{
  resolve_template_string, materialize, materialize_items, materialize_fields,
}

unfoldable mutual
  -- The value with every string emptied: its nesting, keys, numbers and other constants.
  pub shape : Json → Json
  shape null = null
  shape (bool b) = bool b
  shape (num n) = num n
  shape (str s) = str []
  shape (arr vs) = arr (shape_items vs)
  shape (obj fs) = obj (shape_fields fs)

  pub shape_items : Items → Items
  shape_items nil = nil
  shape_items (cons x xs) = cons (shape x) (shape_items xs)

  pub shape_fields : Fields → Fields
  shape_fields end = end
  shape_fields (field key child fs) = field key (shape child) (shape_fields fs)

unfoldable mutual
  -- The strings of the value, keys left out, in the order in which they stand.
  pub leaves : Json → List Text
  leaves null = []
  leaves (bool b) = []
  leaves (num n) = []
  leaves (str s) = s ∷ []
  leaves (arr vs) = leaves_items vs
  leaves (obj fs) = leaves_fields fs

  pub leaves_items : Items → List Text
  leaves_items nil = []
  leaves_items (cons x xs) = leaves x ++ leaves_items xs

  pub leaves_fields : Fields → List Text
  leaves_fields end = []
  leaves_fields (field key child fs) = leaves child ++ leaves_fields fs

module _ ⦃p : Platform⦄ (v : WorkbenchVariables) where
  mutual
    unfolding materialize shape

    shape-keep : (j : Json) → shape (materialize v j) ≡ shape j
    shape-keep null = refl
    shape-keep (bool b) = refl
    shape-keep (num n) = refl
    shape-keep (str s) = refl
    shape-keep (arr vs) = ap arr (shape-keep_items vs)
    shape-keep (obj fs) = ap obj (shape-keep_fields fs)

    shape-keep_items : (vs : Items) → shape_items (materialize_items v vs) ≡ shape_items vs
    shape-keep_items nil = refl
    shape-keep_items (cons x xs) = rw (shape-keep x, shape-keep_items xs)

    shape-keep_fields : (fs : Fields) → shape_fields (materialize_fields v fs) ≡ shape_fields fs
    shape-keep_fields end = refl
    shape-keep_fields (field key child fs) = rw (shape-keep child, shape-keep_fields fs)

  mutual
    unfolding materialize leaves

    leaves-map : (j : Json) → leaves (materialize v j) ≡ map (resolve_template_string v) (leaves j)
    leaves-map null = refl
    leaves-map (bool b) = refl
    leaves-map (num n) = refl
    leaves-map (str s) = refl
    leaves-map (arr vs) = leaves-map_items vs
    leaves-map (obj fs) = leaves-map_fields fs

    leaves-map_items :
        (vs : Items)
        → leaves_items (materialize_items v vs) ≡ map (resolve_template_string v) (leaves_items vs)
    leaves-map_items nil = refl
    leaves-map_items (cons x xs) = rw (map-append, leaves-map x, leaves-map_items xs)

    leaves-map_fields :
        (fs : Fields)
        → leaves_fields (materialize_fields v fs)
          ≡ map (resolve_template_string v) (leaves_fields fs)
    leaves-map_fields end = refl
    leaves-map_fields (field key child fs) = rw (map-append, leaves-map child, leaves-map_fields fs)

  -- Materialising a JSON value keeps its nesting, keys, numbers, Booleans and nulls, and replaces
  -- each of its strings, in its place, by the string with its templates resolved.
  pub shape-leaves-materialize :
      (j : Json)
      → (shape (materialize v j) ≡ shape j)
        × (leaves (materialize v j) ≡ map (resolve_template_string v) (leaves j))
  shape-leaves-materialize j = (shape-keep j, leaves-map j)
