-- ===== src/Catalog/Admin.antt =====
-- The entries of the group `admin` in `ENDPOINTS`, playground-ui/src/features/workbench/catalog.ts.
use dotnet_web_api_startpack.Prelude.{lit, some, [], ◌∷◌, true}
use dotnet_web_api_startpack.Json.{str, obj, bool, end, field}
use dotnet_web_api_startpack.Types.{
  EndpointDefinition, EndpointGroup, AuthRequirement, get, post, patch, delete,
}
use dotnet_web_api_startpack.Constants.{demo}
use dotnet_web_api_startpack.Catalog.Entry.{endpoint, copy, no_options}

abbrev pub admin_users_list : EndpointDefinition
admin_users_list =
    endpoint (lit "admin-users-list") get (lit "/api/v1/admin/users")
      (copy "List users" "A paginated, searchable, and filterable administration view."
        "Benutzer auflisten" "Paginierte, durchsuchbare und filterbare Administrationsansicht."
        "Kullanıcıları listele" "Sayfalı, aranabilir, filtrelenebilir yönetim görünümü.")
      EndpointGroup.admin AuthRequirement.admin
      (record no_options {
        query =
            record { name = (lit "page"); value = (lit "1") }
            ∷ record { name = (lit "pageSize"); value = (lit "20") }
            ∷ record { name = (lit "sort"); value = (lit "createdAt:desc") }
            ∷ record { name = (lit "search"); value = (lit "") }
            ∷ record { name = (lit "role"); value = (lit "") }
            ∷ record { name = (lit "emailVerified"); value = (lit "") }
            ∷ record { name = (lit "locked"); value = (lit "") }
            ∷ [];
      })

abbrev pub admin_user_get : EndpointDefinition
admin_user_get =
    endpoint (lit "admin-user-get") get (lit "/api/v1/admin/users/{userId}")
      (copy "Get user details" "Returns roles, providers, lockout, and active sessions."
        "Benutzerdetails abrufen" "Liefert Rollen, Provider, Lockout und aktive Sitzungen."
        "Kullanıcı detayını getir"
        "Roller, bağlı provider'lar, lockout ve aktif oturumlarla tam görünüm.")
      EndpointGroup.admin AuthRequirement.admin
      (record no_options {
        path_params = record { name = (lit "userId"); value = demo.user.id } ∷ [];
      })

abbrev pub admin_user_update : EndpointDefinition
admin_user_update =
    endpoint (lit "admin-user-update") patch (lit "/api/v1/admin/users/{userId}")
      (copy "Update a user" "Patches display name, verification status, or lockout reset."
        "Benutzer aktualisieren" "Ändert Anzeigename, Bestätigungsstatus oder Lockout-Reset."
        "Kullanıcıyı güncelle"
        "Display name, doğrulama durumu veya lockout temizleme alanlarını patch eder.")
      EndpointGroup.admin AuthRequirement.admin
      (record no_options {
        path_params = record { name = (lit "userId"); value = demo.user.id } ∷ [];
        body = some (
            obj (
              field (lit "displayName") (str (lit "Reviewed User"))
                (field (lit "emailVerified") (bool true) (field (lit "unlock") (bool true) end))));
      })

abbrev pub admin_user_delete : EndpointDefinition
admin_user_delete =
    endpoint (lit "admin-user-delete") delete (lit "/api/v1/admin/users/{userId}")
      (copy "Delete a user" "Deletes the user and credentials while preserving the audit trail."
        "Benutzer löschen"
        "Löscht Benutzer und Credentials, während der Audit-Trail erhalten bleibt."
        "Kullanıcıyı sil"
        "Kullanıcıyı ve credential'larını siler; audit trail yaşamaya devam eder.")
      EndpointGroup.admin AuthRequirement.admin
      (record no_options {
        path_params = record { name = (lit "userId"); value = demo.user.id } ∷ [];
        destructive = true;
      })

abbrev pub admin_role_grant : EndpointDefinition
admin_role_grant =
    endpoint (lit "admin-role-grant") post (lit "/api/v1/admin/users/{userId}/roles")
      (copy "Grant a role" "Assigns a fixed role ID; it takes effect after the next token issue."
        "Rolle vergeben" "Weist eine feste Rollen-ID zu; wirksam nach der nächsten Token-Ausgabe."
        "Rol ver" "Sabit rol id'sini kullanıcıya atar; yeni token issuance sonrası etkili olur.")
      EndpointGroup.admin AuthRequirement.admin
      (record no_options {
        path_params = record { name = (lit "userId"); value = demo.user.id } ∷ [];
        body = some (obj (field (lit "roleId") (str demo.admin_role_id) end));
        destructive = true;
      })

abbrev pub admin_role_revoke : EndpointDefinition
admin_role_revoke =
    endpoint (lit "admin-role-revoke") delete (lit "/api/v1/admin/users/{userId}/roles/{roleId}")
      (copy "Revoke a role" "Removes the grant; it takes effect after the next token issue."
        "Rolle widerrufen" "Entfernt die Zuweisung; wirksam nach der nächsten Token-Ausgabe."
        "Rolü geri al" "Rol grant'ını kaldırır; yeni token issuance sonrası etkili olur.")
      EndpointGroup.admin AuthRequirement.admin
      (record no_options {
        path_params =
            record { name = (lit "userId"); value = demo.user.id }
            ∷ record { name = (lit "roleId"); value = demo.admin_role_id }
            ∷ [];
        destructive = true;
      })

abbrev pub admin_sessions_revoke : EndpointDefinition
admin_sessions_revoke =
    endpoint (lit "admin-sessions-revoke") delete (lit "/api/v1/admin/users/{userId}/sessions")
      (copy "Revoke a user's sessions" "Revokes every active session for incident response."
        "Benutzersitzungen widerrufen"
        "Widerruft für Incident Response alle aktiven Sitzungen des Benutzers."
        "Kullanıcının oturumlarını kapat"
        "Incident response için hedef kullanıcının tüm aktif oturumlarını iptal eder.")
      EndpointGroup.admin AuthRequirement.admin
      (record no_options {
        path_params = record { name = (lit "userId"); value = demo.user.id } ∷ [];
        destructive = true;
      })

abbrev pub admin_audit : EndpointDefinition
admin_audit =
    endpoint (lit "admin-audit") get (lit "/api/v1/admin/audit-logs")
      (copy "Query the audit trail"
        "Returns fixture and runtime security events as a paginated result." "Audit-Trail abfragen"
        "Liefert Fixture- und Laufzeit-Sicherheitsereignisse paginiert." "Audit trail sorgula"
        "Hazır fixture kayıtlarını ve çalışma sırasında oluşan güvenlik olaylarını sayfalı döndürür.")
      EndpointGroup.admin AuthRequirement.admin
      (record no_options {
        query =
            record { name = (lit "page"); value = (lit "1") }
            ∷ record { name = (lit "pageSize"); value = (lit "20") }
            ∷ record { name = (lit "sort"); value = (lit "occurredAt:desc") }
            ∷ record { name = (lit "userId"); value = (lit "") }
            ∷ record { name = (lit "eventType"); value = (lit "") }
            ∷ record { name = (lit "from"); value = (lit "") }
            ∷ record { name = (lit "to"); value = (lit "") }
            ∷ record { name = (lit "correlationId"); value = (lit "") }
            ∷ [];
      })
