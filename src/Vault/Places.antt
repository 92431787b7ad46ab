-- ===== src/Vault/Places.antt =====
-- The keys of the session storage are distinct, and the variables are read back one by one.
use dotnet_web_api_startpack.Prelude.{
  ℕ, Text, some, ◌≡◌, sym, ap, arith, ◌==◌, text_eq, some-injective, if◌then◌else◌,
}
use dotnet_web_api_startpack.Types.{WorkbenchVariables}
use dotnet_web_api_startpack.Constants.{StorageName, storage_key}
use dotnet_web_api_startpack.Vault.Variables.{VariableName, variable, with_variable, storage_name}

-- A place for each variable, which its name in the storage shares.
unfoldable pub place : VariableName → ℕ
place VariableName.access_token = 0
place VariableName.refresh_token = 1
place VariableName.api_key = 2
place VariableName.csrf_token = 3
place VariableName.totp_secret = 4
place VariableName.totp_code = 5
place VariableName.mfa_ticket = 6
place VariableName.credential_id = 7
place VariableName.social_code = 8
place VariableName.social_state = 9
place VariableName.verification_token = 10
place VariableName.password_reset_token = 11

unfoldable pub key_place : StorageName → ℕ
key_place StorageName.access_token = 0
key_place StorageName.refresh_token = 1
key_place StorageName.api_key = 2
key_place StorageName.csrf_token = 3
key_place StorageName.totp_secret = 4
key_place StorageName.auth_mode = 12
key_place StorageName.mfa_ticket = 6
key_place StorageName.credential_id = 7
key_place StorageName.social_code = 8
key_place StorageName.social_state = 9

pub storage_key-eq :
    (j k : StorageName) → text_eq (storage_key j) (storage_key k) ≡ (key_place j == key_place k)
unfolding storage_key key_place text_eq
storage_key-eq StorageName.access_token k = ground arith
storage_key-eq j k = ground arith

pub variable-with_variable :
    (n m : VariableName) (t : Text) (v : WorkbenchVariables)
    → variable m (with_variable n t v) ≡ (if place n == place m then t else variable m v)
unfolding variable with_variable place
variable-with_variable VariableName.access_token m t v = ground arith
variable-with_variable n m t v = ground arith

pub key_place-storage_name :
    (n : VariableName) (k : StorageName) → storage_name n ≡ some k → key_place k ≡ place n
unfolding storage_name key_place place
key_place-storage_name VariableName.access_token k h = ap key_place (sym (some-injective _ _ h))
key_place-storage_name n k h = ground arith
