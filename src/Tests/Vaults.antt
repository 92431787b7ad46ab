-- ===== src/Tests/Vaults.antt =====
-- The vault of domain.ts, at small inputs.
use dotnet_web_api_startpack.Prelude.{Text, lit, [], ◌∷◌, some, ◌≡◌, refl, arith, text_eq, lookup}
use dotnet_web_api_startpack.Types.{AuthMode}
use dotnet_web_api_startpack.Constants.{storage_key, empty_variables}
use dotnet_web_api_startpack.Vault.{
  Storage, StoredVault, remove_key, clear_names, clear_vault_storage, read_vault, merge_stored,
}
use dotnet_web_api_startpack.Vault.Variables.{VariableName, variable, storage_name}
use dotnet_web_api_startpack.Vault.Mirror.{Mirrors}
use dotnet_web_api_startpack.Vault.Clear.{lookup-clear_vault_storage}
use dotnet_web_api_startpack.Vault.Reload.{merge_stored-read_vault}
use dotnet_web_api_startpack.Tests.Samples.{storage, variables}

storage-Mirrors : Mirrors variables storage
unfolding storage_name storage_key lookup text_eq variable
storage-Mirrors VariableName.access_token k h = ground arith
storage-Mirrors n k h = ground arith

abbrev other_entry : Text × Text
other_entry = (lit "other", lit "kept")

abbrev mode_entry : Text × Text
mode_entry = (lit "startpack.workbench.authMode", lit "cookie")

abbrev cleared_storage : Storage
cleared_storage = record storage { entries = other_entry ∷ mode_entry ∷ [] }

storage-cleared : clear_vault_storage storage ≡ some cleared_storage
unfolding clear_vault_storage clear_names remove_key storage_key text_eq
storage-cleared = refl

lookup-clear_vault_storage_example :
    lookup (lit "startpack.workbench.authMode") cleared_storage.entries ≡ some (lit "cookie")
unfolding storage_key text_eq lookup
lookup-clear_vault_storage_example =
    lookup-clear_vault_storage storage {storage' = cleared_storage}
      (lit "startpack.workbench.authMode") storage-cleared

abbrev stored_vault : StoredVault
stored_vault = record {
  mode = AuthMode.cookie;
  access_token = lit "token";
  refresh_token = [];
  api_key = lit "ak_1";
  csrf_token = lit "csrf";
  totp_secret = [];
  mfa_ticket = [];
  credential_id = [];
  social_code = [];
  social_state = [];
}

storage-read : read_vault storage ≡ some stored_vault
unfolding read_vault storage_key lookup text_eq
storage-read = refl

merge_stored-read_vault_example :
    variable VariableName.api_key (merge_stored stored_vault empty_variables) ≡ lit "ak_1"
unfolding storage_name variable
merge_stored-read_vault_example =
    merge_stored-read_vault variables storage {vault = stored_vault} VariableName.api_key
      storage-Mirrors storage-read
