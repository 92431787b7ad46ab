-- ===== src/Vault/Variables.antt =====
-- The names of the workbench's variables, `keyof WorkbenchVariables`, and their places in the storage.
use dotnet_web_api_startpack.Prelude.{Text, Option, none, some}
use dotnet_web_api_startpack.Types.{WorkbenchVariables}
use dotnet_web_api_startpack.Constants.{StorageName}

pub data VariableName : Type 0 where
  access_token refresh_token api_key csrf_token totp_secret totp_code : VariableName
  mfa_ticket credential_id social_code social_state : VariableName
  verification_token password_reset_token : VariableName

-- `variables[name]`
unfoldable pub variable : VariableName → WorkbenchVariables → Text
variable access_token v = v.access_token
variable refresh_token v = v.refresh_token
variable api_key v = v.api_key
variable csrf_token v = v.csrf_token
variable totp_secret v = v.totp_secret
variable totp_code v = v.totp_code
variable mfa_ticket v = v.mfa_ticket
variable credential_id v = v.credential_id
variable social_code v = v.social_code
variable social_state v = v.social_state
variable verification_token v = v.verification_token
variable password_reset_token v = v.password_reset_token

-- `{ ...current, [name]: value }`
unfoldable pub with_variable : VariableName → Text → WorkbenchVariables → WorkbenchVariables
with_variable access_token t v = record v { access_token = t }
with_variable refresh_token t v = record v { refresh_token = t }
with_variable api_key t v = record v { api_key = t }
with_variable csrf_token t v = record v { csrf_token = t }
with_variable totp_secret t v = record v { totp_secret = t }
with_variable totp_code t v = record v { totp_code = t }
with_variable mfa_ticket t v = record v { mfa_ticket = t }
with_variable credential_id t v = record v { credential_id = t }
with_variable social_code t v = record v { social_code = t }
with_variable social_state t v = record v { social_state = t }
with_variable verification_token t v = record v { verification_token = t }
with_variable password_reset_token t v = record v { password_reset_token = t }

-- `name in STORAGE_KEYS`, with the name there.
unfoldable pub storage_name : VariableName → Option StorageName
storage_name access_token = some StorageName.access_token
storage_name refresh_token = some StorageName.refresh_token
storage_name api_key = some StorageName.api_key
storage_name csrf_token = some StorageName.csrf_token
storage_name totp_secret = some StorageName.totp_secret
storage_name totp_code = none
storage_name mfa_ticket = some StorageName.mfa_ticket
storage_name credential_id = some StorageName.credential_id
storage_name social_code = some StorageName.social_code
storage_name social_state = some StorageName.social_state
storage_name verification_token = none
storage_name password_reset_token = none
