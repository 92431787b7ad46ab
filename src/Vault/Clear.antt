-- ===== src/Vault/Clear.antt =====
-- What `clearVaultStorage` removes.
use dotnet_web_api_startpack.Prelude.{
  Text, List, [], ◌∷◌, Bool, true, false, not, ◌&&◌, none, some, ◌≡◌, refl, arith, lookup, text_eq,
  if◌then◌else◌,
}
use dotnet_web_api_startpack.Constants.{StorageName, storage_names, storage_key, empty_variables}
use dotnet_web_api_startpack.Vault.{
  Storage, remove_key, is_auth_mode, clear_names, clear_vault_storage,
}
use dotnet_web_api_startpack.Vault.Variables.{VariableName, variable, storage_name}
use dotnet_web_api_startpack.Prelude.{◌||◌}
use dotnet_web_api_startpack.Vault.Mirror.{Mirrors, lookup-remove_key}

-- The keys that the loop removes.
abbrev pub cleared : List StorageName → Text → Bool
cleared [] j = false
cleared (k ∷ ks) j = (not (is_auth_mode k) && text_eq (storage_key k) j) || cleared ks j

lookup-clear_names :
    (ks : List StorageName) (storage : Storage) {storage' : Storage} (j : Text)
    → clear_names ks storage ≡ some storage'
    → lookup j storage'.entries ≡ (if cleared ks j then none else lookup j storage.entries)
unfolding clear_names
lookup-clear_names [] storage j h = ground arith
lookup-clear_names (k ∷ ks) storage {storage'} j h = ground (
  arith,
  lookup-clear_names ks storage {storage' = storage'} j,
  lookup-clear_names ks (record storage { entries = remove_key (storage_key k) storage.entries })
      {storage' = storage'} j,
  lookup-remove_key (storage_key k) j storage.entries,
)

-- Clearing the vault removes the workbench's own keys except the one of the mode, and leaves every
-- other key as it is.
pub lookup-clear_vault_storage :
    (storage : Storage) {storage' : Storage} (j : Text)
    → clear_vault_storage storage ≡ some storage'
    → lookup j storage'.entries
      ≡ (if cleared storage_names j then none else lookup j storage.entries)
unfolding clear_vault_storage
lookup-clear_vault_storage storage j h = lookup-clear_names storage_names storage j h

named-cleared :
    (n : VariableName) (k : StorageName)
    → storage_name n ≡ some k
    → cleared storage_names (storage_key k) ≡ true
unfolding storage_name storage_key text_eq
named-cleared VariableName.access_token k h = ground arith
named-cleared n k h = ground arith

pub variable-empty : (n : VariableName) → variable n empty_variables ≡ []
unfolding variable
variable-empty VariableName.access_token = refl
variable-empty n = refl

-- After a clearing that does not fail, the storage mirrors the empty variables.
pub clear_vault_storage-Mirrors :
    (storage : Storage) {storage' : Storage}
    → clear_vault_storage storage ≡ some storage'
    → Mirrors empty_variables storage'
clear_vault_storage-Mirrors storage h n k named = ground (
  arith,
  lookup-clear_vault_storage storage (storage_key k) h,
  named-cleared n k named,
  variable-empty n,
)
