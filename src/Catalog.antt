-- ===== src/Catalog.antt =====
-- The array `ENDPOINTS` and its readers, playground-ui/src/features/workbench/catalog.ts. The
-- entries stand in a module for each group.
pub mod Entry
pub mod Ids
pub mod Routes
pub mod Paths
pub mod Rules
mod Operations
pub mod Authentication
pub mod Account
mod Sessions
pub mod Security
pub mod Admin
use dotnet_web_api_startpack.Prelude.{
  Text, lit, List, [], ◌∷◌, Option, ◌||◌, find?, text_eq, if◌then◌else◌,
}
use dotnet_web_api_startpack.Types.{
  EndpointDefinition, EndpointCopy, LocalizedCopy, AppLocale, en, de, tr,
}
use Operations.{health_live, health_ready, jwks}
use Authentication.{
  auth_register, auth_login, auth_login_mfa, auth_refresh, auth_logout, auth_csrf, social_authorize,
  social_callback, email_send, email_confirm, password_request, password_confirm,
}
use Account.{users_me, users_update, users_delete, users_password, users_accounts, users_unlink}
use Sessions.{sessions_list, sessions_revoke, sessions_revoke_others}
use Security.{
  mfa_enroll, mfa_confirm, mfa_disable, mfa_recovery, passkey_registration_options,
  passkey_registration_complete, passkey_auth_options, passkey_auth_complete, passkeys_list,
  passkey_delete, api_key_create, api_keys_list, api_key_revoke,
}
use Admin.{
  admin_users_list, admin_user_get, admin_user_update, admin_user_delete, admin_role_grant,
  admin_role_revoke, admin_sessions_revoke, admin_audit,
}

unfoldable pub endpoints : List EndpointDefinition
endpoints =
    health_live ∷ health_ready ∷ jwks ∷ auth_register ∷ auth_login ∷ auth_login_mfa ∷ auth_refresh
    ∷ auth_logout ∷ auth_csrf ∷ social_authorize ∷ social_callback ∷ email_send ∷ email_confirm
    ∷ password_request ∷ password_confirm ∷ users_me ∷ users_update ∷ users_delete ∷ users_password
    ∷ users_accounts ∷ users_unlink ∷ sessions_list ∷ sessions_revoke ∷ sessions_revoke_others
    ∷ mfa_enroll ∷ mfa_confirm ∷ mfa_disable ∷ mfa_recovery ∷ passkey_registration_options
    ∷ passkey_registration_complete ∷ passkey_auth_options ∷ passkey_auth_complete ∷ passkeys_list
    ∷ passkey_delete ∷ api_key_create ∷ api_keys_list ∷ api_key_revoke ∷ admin_users_list
    ∷ admin_user_get ∷ admin_user_update ∷ admin_user_delete ∷ admin_role_grant ∷ admin_role_revoke
    ∷ admin_sessions_revoke ∷ admin_audit ∷ []

-- `endpointById`
unfoldable pub endpoint_by_id : Text → Option EndpointDefinition
endpoint_by_id id = find? (λ item. text_eq item.id id) endpoints

-- `endpointCopy`
unfoldable pub endpoint_copy : EndpointDefinition → AppLocale → LocalizedCopy
endpoint_copy item en = item.copy.en
endpoint_copy item de = item.copy.de
endpoint_copy item tr = item.copy.tr

-- `normalizeLocale`
unfoldable pub normalize_locale : Text → AppLocale
normalize_locale locale =
    if text_eq locale (lit "de") then de else if text_eq locale (lit "tr") then tr else en
