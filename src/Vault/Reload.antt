-- ===== src/Vault/Reload.antt =====
-- The vault survives a reload of the page.
use dotnet_web_api_startpack.Prelude.{Text, [], ◌∷◌, none, some, or_else, ◌≡◌, refl, arith}
use dotnet_web_api_startpack.Types.{WorkbenchVariables}
use dotnet_web_api_startpack.Constants.{StorageName, empty_variables}
use dotnet_web_api_startpack.Vault.{Storage, StoredVault, read_vault, merge_stored}
use dotnet_web_api_startpack.Vault.Variables.{VariableName, variable, storage_name}
use dotnet_web_api_startpack.Vault.Mirror.{Mirrors, kept}

or_else-kept : (t : Text) → or_else (kept t) [] ≡ t
or_else-kept [] = refl
or_else-kept (c ∷ t) = refl

-- What a variable is after a reload.
abbrev pub survivor : VariableName → WorkbenchVariables → Text
survivor n v = elim (storage_name n) [ none ↦ [] | some _ ↦ variable n v ]

-- If the storage mirrors the variables, a new page that starts with empty variables and merges what
-- it reads from the storage has every stored variable as it was; the others are empty.
pub merge_stored-read_vault :
    (v : WorkbenchVariables) (storage : Storage) {vault : StoredVault} (n : VariableName)
    → Mirrors v storage
    → read_vault storage ≡ some vault
    → variable n (merge_stored vault empty_variables) ≡ survivor n v
unfolding read_vault variable storage_name
merge_stored-read_vault v storage VariableName.access_token mirrors h =
    ground (
      arith,
      mirrors VariableName.access_token StorageName.access_token,
      or_else-kept v.access_token,
    )
merge_stored-read_vault v storage VariableName.refresh_token mirrors h = ground (
  arith,
  mirrors VariableName.refresh_token StorageName.refresh_token,
  or_else-kept v.refresh_token,
)
merge_stored-read_vault v storage VariableName.api_key mirrors h =
    ground (arith, mirrors VariableName.api_key StorageName.api_key, or_else-kept v.api_key)
merge_stored-read_vault v storage VariableName.csrf_token mirrors h =
    ground
      (arith, mirrors VariableName.csrf_token StorageName.csrf_token, or_else-kept v.csrf_token)
merge_stored-read_vault v storage VariableName.totp_secret mirrors h =
    ground
      (arith, mirrors VariableName.totp_secret StorageName.totp_secret, or_else-kept v.totp_secret)
merge_stored-read_vault v storage VariableName.mfa_ticket mirrors h =
    ground
      (arith, mirrors VariableName.mfa_ticket StorageName.mfa_ticket, or_else-kept v.mfa_ticket)
merge_stored-read_vault v storage VariableName.credential_id mirrors h = ground (
  arith,
  mirrors VariableName.credential_id StorageName.credential_id,
  or_else-kept v.credential_id,
)
merge_stored-read_vault v storage VariableName.social_code mirrors h =
    ground
      (arith, mirrors VariableName.social_code StorageName.social_code, or_else-kept v.social_code)
merge_stored-read_vault v storage VariableName.social_state mirrors h =
    ground (
      arith,
      mirrors VariableName.social_state StorageName.social_state,
      or_else-kept v.social_state,
    )
merge_stored-read_vault v storage n mirrors h = ground arith
