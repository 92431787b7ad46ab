-- ===== src/Vault.antt =====
-- `readVault`, `writeVaultValue` and `clearVaultStorage` of
-- playground-ui/src/features/workbench/domain.ts, with the browser's session storage.
pub mod Variables
pub mod Places
pub mod Mirror
pub mod Clear
pub mod Reload
use dotnet_web_api_startpack.Prelude.{
  ℕ, ◌+◌, Text, lit, List, [], ◌∷◌, Bool, true, false, Option, none, some, or_else, leb, length,
  lookup, set_key, text_eq, if◌then◌else◌,
}
use dotnet_web_api_startpack.Types.{WorkbenchVariables, AuthMode, bearer, cookie, api_key}
use dotnet_web_api_startpack.Constants.{StorageName, storage_names, storage_key}
use dotnet_web_api_startpack.Template.{is_empty}

-- `sessionStorage`: where it is blocked, every call throws; a value that does not fit below the limit
-- is refused with an exception, and nothing is stored.
pub record Storage : Type 0 where
  pub entries : List (Text × Text)
  pub blocked : Bool
  pub limit : ℕ

abbrev pub size : List (Text × Text) → ℕ
size [] = 0
size ((k, v) ∷ rest) = length k + (length v + size rest)

unfoldable pub remove_key : Text → List (Text × Text) → List (Text × Text)
remove_key k [] = []
remove_key k ((j, v) ∷ m) = let rest = remove_key k m in if text_eq j k then rest else (j, v) ∷ rest

-- `getItem`, `setItem` and `removeItem`; `none` is the exception.
abbrev pub get_item : Text → Storage → Option (Option Text)
get_item k storage = if storage.blocked then none else some (lookup k storage.entries)

abbrev pub set_item : Text → Text → Storage → Option Storage
set_item k v storage =
    if storage.blocked
    then none
    else if leb (size (set_key k v storage.entries)) storage.limit
    then some (record storage { entries = set_key k v storage.entries })
    else none

abbrev pub remove_item : Text → Storage → Option Storage
remove_item k storage =
    if storage.blocked
    then none
    else some (record storage { entries = remove_key k storage.entries })

-- `writeVaultValue`; `none` is the BrowserStorageError.
unfoldable pub write_vault_value : StorageName → Text → Storage → Option Storage
write_vault_value name value storage =
    if is_empty value
    then remove_item (storage_key name) storage
    else set_item (storage_key name) value storage

abbrev pub is_auth_mode : StorageName → Bool
is_auth_mode StorageName.auth_mode = true
is_auth_mode _ = false

-- The loop of `clearVaultStorage` over the entries of `STORAGE_KEYS`.
unfoldable pub clear_names : List StorageName → Storage → Option Storage
clear_names [] storage = some storage
clear_names (name ∷ rest) storage = elim (is_auth_mode name) [
  | true ↦ clear_names rest storage
  | false ↦ elim (remove_item (storage_key name) storage) [
    | none ↦ none
    | some storage' ↦ clear_names rest storage'
  ]
]

unfoldable pub clear_vault_storage : Storage → Option Storage
clear_vault_storage storage = clear_names storage_names storage

-- The result of `readVault`: the mode, and the variables that are stored.
pub record StoredVault : Type 0 where
  pub mode : AuthMode
  pub access_token : Text
  pub refresh_token : Text
  pub api_key : Text
  pub csrf_token : Text
  pub totp_secret : Text
  pub mfa_ticket : Text
  pub credential_id : Text
  pub social_code : Text
  pub social_state : Text

abbrev pub read_mode : Option Text → AuthMode
read_mode none = bearer
read_mode (some t) =
    if text_eq t (lit "cookie")
    then cookie
    else if text_eq t (lit "apiKey")
    then AuthMode.api_key
    else bearer

-- `getItem(STORAGE_KEYS[name]) || ""`
abbrev pub stored : StorageName → Storage → Text
stored name storage = or_else (lookup (storage_key name) storage.entries) []

unfoldable pub read_vault : Storage → Option StoredVault
read_vault storage =
    if storage.blocked
    then none
    else some (record {
      mode = read_mode (lookup (storage_key StorageName.auth_mode) storage.entries);
      access_token = stored StorageName.access_token storage;
      refresh_token = stored StorageName.refresh_token storage;
      api_key = stored StorageName.api_key storage;
      csrf_token = stored StorageName.csrf_token storage;
      totp_secret = stored StorageName.totp_secret storage;
      mfa_ticket = stored StorageName.mfa_ticket storage;
      credential_id = stored StorageName.credential_id storage;
      social_code = stored StorageName.social_code storage;
      social_state = stored StorageName.social_state storage;
    })

-- `{ ...current, ...storedVariables }`
abbrev pub merge_stored : StoredVault → WorkbenchVariables → WorkbenchVariables
merge_stored vault current = record current {
  access_token = vault.access_token;
  refresh_token = vault.refresh_token;
  api_key = vault.api_key;
  csrf_token = vault.csrf_token;
  totp_secret = vault.totp_secret;
  mfa_ticket = vault.mfa_ticket;
  credential_id = vault.credential_id;
  social_code = vault.social_code;
  social_state = vault.social_state;
}
