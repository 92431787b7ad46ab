-- ===== src/Catalog/Account.antt =====
-- The entries of the group `account` in `ENDPOINTS`, playground-ui/src/features/workbench/catalog.ts.
use dotnet_web_api_startpack.Prelude.{lit, some, [], ◌∷◌, true}
use dotnet_web_api_startpack.Json.{str, obj, end, field}
use dotnet_web_api_startpack.Types.{
  EndpointDefinition, EndpointGroup, AuthRequirement, get, put, patch, delete,
}
use dotnet_web_api_startpack.Constants.{demo}
use dotnet_web_api_startpack.Catalog.Entry.{endpoint, copy, no_options}

abbrev pub users_me : EndpointDefinition
users_me =
    endpoint (lit "users-me") get (lit "/api/v1/users/me")
      (copy "Get my profile"
        "Resolves identity from the token subject and returns roles and security posture."
        "Mein Profil abrufen"
        "Löst die Identität aus dem Token-Subject auf und liefert Rollen und Sicherheitsstatus."
        "Profilimi getir"
        "Kimliği token'daki subject'ten çözer; roller ve güvenlik duruşunu döndürür.")
      EndpointGroup.account AuthRequirement.auth no_options

abbrev pub users_update : EndpointDefinition
users_update =
    endpoint (lit "users-update") patch (lit "/api/v1/users/me")
      (copy "Update my profile" "Updates only the display name." "Mein Profil aktualisieren"
        "Aktualisiert ausschließlich den Anzeigenamen." "Profilimi güncelle"
        "Yalnızca display name alanını günceller.")
      EndpointGroup.account AuthRequirement.auth
      (record no_options {
        body = some (obj (field (lit "displayName") (str (lit "Workbench User")) end));
      })

abbrev pub users_delete : EndpointDefinition
users_delete =
    endpoint (lit "users-delete") delete (lit "/api/v1/users/me")
      (copy "Delete my account"
        "Irreversibly deletes the account and credentials; requires recent sign-in."
        "Mein Konto löschen"
        "Löscht Konto und Zugangsdaten endgültig; aktuelle Anmeldung erforderlich." "Hesabımı sil"
        "Hesabı ve tüm kimlik bilgilerini geri alınamaz biçimde siler; yakın zamanda giriş gerekir.")
      EndpointGroup.account AuthRequirement.recent (record no_options { destructive = true })

abbrev pub users_password : EndpointDefinition
users_password =
    endpoint (lit "users-password") put (lit "/api/v1/users/me/password")
      (copy "Change my password" "Verifies the current password and revokes sibling sessions."
        "Mein Passwort ändern" "Prüft das aktuelle Passwort und widerruft parallele Sitzungen."
        "Parolamı değiştir" "Mevcut parolayı doğrular, kardeş oturumları iptal eder.")
      EndpointGroup.account AuthRequirement.auth
      (record no_options {
        body = some (
            obj (
              field (lit "currentPassword") (str demo.user.password)
                (field (lit "newPassword") (str (lit "N3w!River-Stone-Cobalt-82")) end)));
        destructive = true;
      })

abbrev pub users_accounts : EndpointDefinition
users_accounts =
    endpoint (lit "users-accounts") get (lit "/api/v1/users/me/accounts")
      (copy "List linked accounts"
        "Returns local IDs and provider data for Google and GitHub links."
        "Verknüpfte Konten auflisten"
        "Liefert lokale IDs und Provider-Daten für Google- und GitHub-Verknüpfungen."
        "Bağlı hesapları listele"
        "Google/GitHub bağlantılarının yerel id ve provider bilgisini döndürür.")
      EndpointGroup.account AuthRequirement.auth no_options

abbrev pub users_unlink : EndpointDefinition
users_unlink =
    endpoint (lit "users-unlink") delete (lit "/api/v1/users/me/accounts/{accountId}")
      (copy "Unlink a social account" "Prevents removing the last available sign-in method."
        "Social-Konto trennen" "Verhindert das Entfernen der letzten Anmeldemethode."
        "Sosyal hesabı ayır" "Son giriş yöntemini kaldırmaya izin vermez.")
      EndpointGroup.account AuthRequirement.auth
      (record no_options {
        path_params = record { name = (lit "accountId"); value = demo.account_id } ∷ [];
        destructive = true;
      })
