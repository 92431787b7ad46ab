-- ===== src/Workbench/Reload.antt =====
-- The mode that `setAuthMode` of workbench-context.tsx stores, after a reload of the page.
use dotnet_web_api_startpack.Prelude.{Text, some, ◌≡◌, refl, arith, text_eq, false}
use dotnet_web_api_startpack.Types.{AuthMode, bearer}
use dotnet_web_api_startpack.Constants.{StorageName, storage_key, storage_names}
use dotnet_web_api_startpack.Vault.{
  Storage, StoredVault, write_vault_value, clear_vault_storage, read_vault, read_mode,
}
use dotnet_web_api_startpack.Vault.Mirror.{kept, lookup-write_vault_value}
use dotnet_web_api_startpack.Vault.Clear.{cleared, lookup-clear_vault_storage}
use dotnet_web_api_startpack.Workbench.State.{mode_text}

abbrev mode_key : Text
mode_key = storage_key StorageName.auth_mode

read_mode-kept : (mode : AuthMode) → read_mode (kept (mode_text mode)) ≡ mode
unfolding text_eq
read_mode-kept bearer = refl
read_mode-kept AuthMode.cookie = refl
read_mode-kept AuthMode.api_key = refl

mode_key-kept : cleared storage_names mode_key ≡ false
unfolding storage_key text_eq
mode_key-kept = refl

-- A mode that was stored is the mode that is read after a reload, also if the vault is cleared
-- between the two, where none of these fails.
pub read_vault-mode :
    (mode : AuthMode) (storage written emptied : Storage) (vault vault' : StoredVault)
    → write_vault_value StorageName.auth_mode (mode_text mode) storage ≡ some written
    → clear_vault_storage written ≡ some emptied
    → read_vault written ≡ some vault
    → read_vault emptied ≡ some vault'
    → (vault.mode ≡ mode) × (vault'.mode ≡ mode)
unfolding read_vault text_eq storage_key
read_vault-mode mode storage written emptied vault vault' writes clears reads reads' =
    let there =
      lookup-write_vault_value StorageName.auth_mode (mode_text mode) storage {storage' = written}
        mode_key writes in
    let after = lookup-clear_vault_storage written {storage' = emptied} mode_key clears in
    let kept_mode = read_mode-kept mode in
    let stays = mode_key-kept in
    (ground (arith, there, kept_mode), ground (arith, there, after, stays, kept_mode))
