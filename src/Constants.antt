-- ===== src/Constants.antt =====
-- playground-ui/src/features/workbench/constants.ts
use dotnet_web_api_startpack.Prelude.{Text, lit, List, [], ◌∷◌}
use dotnet_web_api_startpack.Types.{WorkbenchVariables}

-- `DEMO`, its nested objects as records
pub record DemoAccount : Type 0 where
  pub id : Text
  pub email : Text
  pub password : Text

pub record Demo : Type 0 where
  pub admin : DemoAccount
  pub user : DemoAccount
  pub admin_role_id : Text
  pub user_role_id : Text
  pub session_id : Text
  pub api_key_id : Text
  pub account_id : Text
  pub api_key : Text

abbrev pub demo : Demo
demo = record {
  admin = record {
    id = lit "0198f3a0-0000-7000-8001-000000000001";
    email = lit "admin@localhost.dev";
    password = lit "Dev_Admin_Password_1!";
  };
  user = record {
    id = lit "0198f3a0-0000-7000-8001-000000000002";
    email = lit "user@localhost.dev";
    password = lit "Dev_User_Password_1!";
  };
  admin_role_id = lit "0198f3a0-0000-7000-8000-000000000001";
  user_role_id = lit "0198f3a0-0000-7000-8000-000000000002";
  session_id = lit "0198f3a0-0000-7000-8001-000000000101";
  api_key_id = lit "0198f3a0-0000-7000-8001-000000000301";
  account_id = lit "0198f3a0-0000-7000-8001-000000000401";
  api_key = lit "ak_demoAdmin01_Dev_Demo_Api_Key_Only_Local_2026";
}

-- `SESSION_ISSUING_ENDPOINTS`
abbrev pub session_issuing_endpoints : List Text
session_issuing_endpoints =
    lit "auth-login"
    ∷ lit "auth-login-mfa"
    ∷ lit "social-callback"
    ∷ lit "passkey-auth-complete"
    ∷ []

-- The names of `STORAGE_KEYS`, in the order of the object's properties.
pub data StorageName : Type 0 where
  access_token refresh_token api_key csrf_token auth_mode totp_secret mfa_ticket : StorageName
  credential_id social_code social_state : StorageName

abbrev pub storage_names : List StorageName
storage_names =
    access_token ∷ refresh_token ∷ api_key ∷ csrf_token ∷ auth_mode ∷ totp_secret ∷ mfa_ticket
    ∷ credential_id ∷ social_code ∷ social_state ∷ []

-- `STORAGE_KEYS[name]`
unfoldable pub storage_key : StorageName → Text
storage_key access_token = lit "startpack.workbench.accessToken"
storage_key refresh_token = lit "startpack.workbench.refreshToken"
storage_key api_key = lit "startpack.workbench.apiKey"
storage_key csrf_token = lit "startpack.workbench.csrfToken"
storage_key auth_mode = lit "startpack.workbench.authMode"
storage_key totp_secret = lit "startpack.workbench.totpSecret"
storage_key mfa_ticket = lit "startpack.workbench.mfaTicket"
storage_key credential_id = lit "startpack.workbench.credentialId"
storage_key social_code = lit "startpack.workbench.socialCode"
storage_key social_state = lit "startpack.workbench.socialState"

-- `EMPTY_VARIABLES`
abbrev pub empty_variables : WorkbenchVariables
empty_variables = record {
  access_token = [];
  refresh_token = [];
  api_key = [];
  csrf_token = [];
  totp_secret = [];
  totp_code = [];
  mfa_ticket = [];
  credential_id = [];
  social_code = [];
  social_state = [];
  verification_token = [];
  password_reset_token = [];
}
