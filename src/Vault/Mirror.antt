-- ===== src/Vault/Mirror.antt =====
-- The session storage mirrors the variables that are kept in it.
use dotnet_web_api_startpack.Prelude.{
  Text, List, [], ◌∷◌, false, Option, none, some, ◌≡◌, arith, ◌==◌, lookup, lookup-set_key, text_eq,
  text_eq_iff, text_eq_refl, if◌then◌else◌,
}
use dotnet_web_api_startpack.Types.{WorkbenchVariables}
use dotnet_web_api_startpack.Constants.{StorageName, storage_key}
use dotnet_web_api_startpack.Vault.{Storage, remove_key, write_vault_value}
use dotnet_web_api_startpack.Vault.Variables.{VariableName, variable, with_variable, storage_name}
use dotnet_web_api_startpack.Vault.Places.{
  place, storage_key-eq, variable-with_variable, key_place-storage_name,
}

-- What the storage holds for a text: an empty one is not stored.
abbrev pub kept : Text → Option Text
kept [] = none
kept (c ∷ t) = some (c ∷ t)

-- The storage holds each variable that has a name in it.
abbrev pub Mirrors : WorkbenchVariables → Storage → Type 0
Mirrors v storage =
    (n : VariableName) (k : StorageName)
    → storage_name n ≡ some k
    → lookup (storage_key k) storage.entries ≡ kept (variable n v)

pub lookup-remove_key :
    (k j : Text) (m : List (Text × Text))
    → lookup j (remove_key k m) ≡ (if text_eq k j then none else lookup j m)
unfolding lookup remove_key
lookup-remove_key k j [] = ground arith
lookup-remove_key k j ((i, w) ∷ m) = ground (
  arith,
  text_eq_iff k j,
  text_eq_iff i k,
  text_eq_iff i j,
  text_eq_refl j,
  lookup-remove_key k j m,
)

-- A write that succeeds changes the entry of its own key only.
pub lookup-write_vault_value :
    (k : StorageName) (t : Text) (storage : Storage) {storage' : Storage} (j : Text)
    → write_vault_value k t storage ≡ some storage'
    → lookup j storage'.entries
      ≡ (if text_eq (storage_key k) j then kept t else lookup j storage.entries)
unfolding write_vault_value
lookup-write_vault_value k [] storage j h =
    ground (arith, lookup-remove_key (storage_key k) j storage.entries)
lookup-write_vault_value k (c ∷ t) storage j h =
    ground (arith, lookup-set_key (storage_key k) j (c ∷ t) storage.entries)

-- Setting a variable and writing it to the storage keeps the mirror.
pub with_variable-Mirrors :
    (v : WorkbenchVariables) (storage : Storage) {storage' : Storage} (n : VariableName)
    (k : StorageName) (t : Text)
    → storage_name n ≡ some k
    → Mirrors v storage
    → write_vault_value k t storage ≡ some storage'
    → Mirrors (with_variable n t v) storage'
with_variable-Mirrors v storage n k t named mirrors written m j named' = ground (
  arith,
  lookup-write_vault_value k t storage (storage_key j) written,
  storage_key-eq k j,
  variable-with_variable n m t v,
  key_place-storage_name n k named,
  key_place-storage_name m j named',
  mirrors m j named',
)

unnamed-ne :
    (n m : VariableName) {j : StorageName}
    → storage_name n ≡ none
    → storage_name m ≡ some j
    → (place n == place m) ≡ false
unfolding storage_name place
unnamed-ne VariableName.totp_code m h h' = ground arith
unnamed-ne n m h h' = ground arith

-- A variable that has no name in the storage is set without a write.
pub with_variable-Mirrors_unnamed :
    (v : WorkbenchVariables) (storage : Storage) (n : VariableName) (t : Text)
    → storage_name n ≡ none
    → Mirrors v storage
    → Mirrors (with_variable n t v) storage
with_variable-Mirrors_unnamed v storage n t unnamed mirrors m j named =
    ground (arith, variable-with_variable n m t v, unnamed-ne n m unnamed named, mirrors m j named)
