-- ===== src/Catalog/Security.antt =====
-- The entries of the group `security` in `ENDPOINTS`, playground-ui/src/features/workbench/catalog.ts.
use dotnet_web_api_startpack.Prelude.{lit, some, [], ◌∷◌, true}
use dotnet_web_api_startpack.Json.{str, arr, obj, nil, cons, end, field}
use dotnet_web_api_startpack.Types.{
  EndpointDefinition, EndpointGroup, AuthRequirement, get, post, delete, totp, passkey_register,
  passkey_auth,
}
use dotnet_web_api_startpack.Constants.{demo}
use dotnet_web_api_startpack.Catalog.Entry.{endpoint, copy, no_options}

abbrev pub mfa_enroll : EndpointDefinition
mfa_enroll =
    endpoint (lit "mfa-enroll") post (lit "/api/v1/mfa/totp/enroll")
      (copy "Start TOTP enrollment"
        "Creates a Base32 secret and otpauth URI; the workbench calculates a live code."
        "TOTP-Einrichtung starten"
        "Erzeugt Base32-Secret und otpauth-URI; die Workbench berechnet einen Live-Code."
        "TOTP kaydını başlat"
        "Yeni Base32 secret ve otpauth URI üretir; workbench canlı kodu otomatik hesaplar.")
      EndpointGroup.security AuthRequirement.auth (record no_options { special = some totp })

abbrev pub mfa_confirm : EndpointDefinition
mfa_confirm =
    endpoint (lit "mfa-confirm") post (lit "/api/v1/mfa/totp/confirm")
      (copy "Confirm TOTP enrollment"
        "Verifies the live code, enables MFA, and returns ten one-time recovery codes."
        "TOTP-Einrichtung bestätigen"
        "Prüft den Live-Code, aktiviert MFA und liefert zehn einmalige Recovery-Codes."
        "TOTP kaydını doğrula"
        "Canlı kodu doğrular, MFA'yı etkinleştirir ve 10 tek kullanımlık recovery code döndürür.")
      EndpointGroup.security AuthRequirement.auth
      (record no_options {
        body = some (obj (field (lit "code") (str (lit "{{totpCode}}")) end));
        special = some totp;
      })

abbrev pub mfa_disable : EndpointDefinition
mfa_disable =
    endpoint (lit "mfa-disable") delete (lit "/api/v1/mfa/totp")
      (copy "Disable TOTP"
        "Deletes the MFA credential and recovery codes after recent authentication."
        "TOTP deaktivieren"
        "Löscht nach aktueller Authentifizierung MFA-Credential und Recovery-Codes." "TOTP'yi kapat"
        "Yakın zamanda giriş şartıyla MFA credential ve recovery code'ları siler.")
      EndpointGroup.security AuthRequirement.recent (record no_options { destructive = true })

abbrev pub mfa_recovery : EndpointDefinition
mfa_recovery =
    endpoint (lit "mfa-recovery") post (lit "/api/v1/mfa/recovery-codes/regenerate")
      (copy "Regenerate recovery codes"
        "Invalidates the previous batch and returns new codes that are shown once."
        "Recovery-Codes neu erzeugen"
        "Macht den alten Satz ungültig und liefert neue, einmal sichtbare Codes."
        "Recovery code'ları yenile"
        "Önceki batch'i geçersiz kılar ve yalnızca bir kez gösterilen yeni kodlar döndürür.")
      EndpointGroup.security AuthRequirement.recent (record no_options { destructive = true })

abbrev pub passkey_registration_options : EndpointDefinition
passkey_registration_options =
    endpoint (lit "passkey-registration-options") post (lit "/api/v1/passkeys/registration/options")
      (copy "Create passkey registration options"
        "Stores a one-time challenge and returns WebAuthn creation options."
        "Passkey-Registrierungsoptionen"
        "Speichert eine einmalige Challenge und liefert WebAuthn-Erstellungsoptionen."
        "Passkey kayıt seçenekleri"
        "Sunucuda tek kullanımlık challenge saklar ve WebAuthn creation options döndürür.")
      EndpointGroup.security AuthRequirement.auth
      (record no_options {
        body = some (obj (field (lit "label") (str (lit "Workbench passkey")) end));
        special = some passkey_register;
      })

abbrev pub passkey_registration_complete : EndpointDefinition
passkey_registration_complete =
    endpoint (lit "passkey-registration-complete") post
      (lit "/api/v1/passkeys/registration/complete")
      (copy "Complete passkey registration"
        "Verifies navigator.credentials.create() and stores the public credential."
        "Passkey-Registrierung abschließen"
        "Prüft navigator.credentials.create() und speichert das öffentliche Credential."
        "Passkey kaydını tamamla"
        "navigator.credentials.create() çıktısını doğrular ve public credential'ı kaydeder.")
      EndpointGroup.security AuthRequirement.auth
      (record no_options {
        body = some (
            obj (
              field (lit "attestationResponse") (obj end)
                (field (lit "label") (str (lit "Workbench passkey")) end)));
      })

abbrev pub passkey_auth_options : EndpointDefinition
passkey_auth_options =
    endpoint (lit "passkey-auth-options") post (lit "/api/v1/passkeys/authentication/options")
      (copy "Create passkey sign-in options" "Creates an anonymous WebAuthn assertion challenge."
        "Passkey-Anmeldeoptionen" "Erzeugt eine anonyme WebAuthn-Assertion-Challenge."
        "Passkey giriş seçenekleri" "Anonymous WebAuthn assertion challenge üretir.")
      EndpointGroup.security AuthRequirement.public
      (record no_options { body = some (obj end); special = some passkey_auth })

abbrev pub passkey_auth_complete : EndpointDefinition
passkey_auth_complete =
    endpoint (lit "passkey-auth-complete") post (lit "/api/v1/passkeys/authentication/complete")
      (copy "Sign in with a passkey"
        "Verifies the assertion signature and counter, then starts a session."
        "Mit Passkey anmelden" "Prüft Assertion-Signatur und Zähler und startet eine Sitzung."
        "Passkey ile giriş yap" "Assertion imzasını ve sayacını doğrular, yeni oturum açar.")
      EndpointGroup.security AuthRequirement.public
      (record no_options { body = some (obj (field (lit "assertionResponse") (obj end) end)) })

abbrev pub passkeys_list : EndpointDefinition
passkeys_list =
    endpoint (lit "passkeys-list") get (lit "/api/v1/passkeys")
      (copy "List passkeys" "Returns credential ID, label, and last use without key material."
        "Passkeys auflisten"
        "Liefert Credential-ID, Bezeichnung und letzte Nutzung ohne Schlüsselmaterial."
        "Passkey'leri listele"
        "Credential id, etiket ve son kullanım bilgisini döndürür; anahtar materyali taşımaz.")
      EndpointGroup.security AuthRequirement.auth no_options

abbrev pub passkey_delete : EndpointDefinition
passkey_delete =
    endpoint (lit "passkey-delete") delete (lit "/api/v1/passkeys/{credentialId}")
      (copy "Remove a passkey" "Deletes the Base64url credential ID within the caller's account."
        "Passkey entfernen" "Löscht die Base64url-Credential-ID im Konto des Aufrufers."
        "Passkey'i kaldır" "Base64url credential id'yi çağıran kullanıcı kapsamında siler.")
      EndpointGroup.security AuthRequirement.auth
      (record no_options {
        path_params = record { name = (lit "credentialId"); value = (lit "{{credentialId}}") } ∷ [];
        destructive = true;
      })

abbrev pub api_key_create : EndpointDefinition
api_key_create =
    endpoint (lit "api-key-create") post (lit "/api/v1/api-keys")
      (copy "Create an API key"
        "Shows the secret once; scopes cannot exceed the user's permissions." "API-Key erstellen"
        "Zeigt das Secret einmal; Scopes dürfen die Benutzerrechte nicht überschreiten."
        "API key oluştur"
        "Secret'ı yalnızca bu yanıtta gösterir; kapsamlar kullanıcının izinlerini aşamaz.")
      EndpointGroup.security AuthRequirement.auth
      (record no_options {
        body = some (
            obj (
              field (lit "name") (str (lit "Local automation")) (
                field (lit "scopes")
                  (arr (cons (str (lit "users:read:any")) (cons (str (lit "audit:read")) nil)))
                  (field (lit "expiresAt") (str (lit "2027-12-31T00:00:00Z")) end))));
      })

abbrev pub api_keys_list : EndpointDefinition
api_keys_list =
    endpoint (lit "api-keys-list") get (lit "/api/v1/api-keys")
      (copy "List API keys" "Returns prefix, scopes, use, and revocation data without secrets."
        "API-Keys auflisten" "Liefert Prefix, Scopes, Nutzung und Widerruf ohne Secrets."
        "API key'leri listele"
        "Secret olmadan prefix, kapsam, kullanım ve iptal bilgilerini döndürür.")
      EndpointGroup.security AuthRequirement.auth no_options

abbrev pub api_key_revoke : EndpointDefinition
api_key_revoke =
    endpoint (lit "api-key-revoke") delete (lit "/api/v1/api-keys/{keyId}")
      (copy "Revoke an API key"
        "Irreversibly revokes the credential while retaining its audit record." "API-Key widerrufen"
        "Widerruft das Credential endgültig und behält den Audit-Datensatz." "API key'i iptal et"
        "Credential'ı geri döndürülemez biçimde iptal eder; audit bağlantısı için satırı korur.")
      EndpointGroup.security AuthRequirement.auth
      (record no_options {
        path_params = record { name = (lit "keyId"); value = demo.api_key_id } ∷ [];
        destructive = true;
      })
