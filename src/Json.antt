-- ===== src/Json.antt =====
-- The values that `JSON.parse` gives, which types.ts and domain.ts call `unknown`.
-- An array's items and an object's properties are types of their own; the properties are the own
-- ones, in the order of `Object.entries`. A number is kept by its decimal text: no code of the
-- workbench computes with one.
use dotnet_web_api_startpack.Prelude.{Text, List, [], ◌∷◌, Bool}

mutual
  pub data Json : Type 0 where
    null : Json
    bool : Bool → Json
    num : Text → Json
    str : Text → Json
    arr : Items → Json
    obj : Fields → Json

  pub data Items : Type 0 where
    nil : Items
    cons : Json → Items → Items

  pub data Fields : Type 0 where
    end : Fields
    field : Text → Json → Fields → Fields

-- `Object.entries`, and the items of an array as a list
abbrev pub entries : Fields → List (Text × Json)
entries end = []
entries (field k v fs) = (k, v) ∷ entries fs

abbrev pub items : Items → List Json
items nil = []
items (cons v vs) = v ∷ items vs
