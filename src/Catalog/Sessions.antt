-- ===== src/Catalog/Sessions.antt =====
-- The entries of the group `sessions` in `ENDPOINTS`, playground-ui/src/features/workbench/catalog.ts.
use dotnet_web_api_startpack.Prelude.{lit, [], ◌∷◌, true}
use dotnet_web_api_startpack.Types.{EndpointDefinition, EndpointGroup, AuthRequirement, get, delete}
use dotnet_web_api_startpack.Constants.{demo}
use dotnet_web_api_startpack.Catalog.Entry.{endpoint, copy, no_options}

abbrev pub sessions_list : EndpointDefinition
sessions_list =
    endpoint (lit "sessions-list") get (lit "/api/v1/sessions")
      (copy "List my sessions" "Shows two fixture sessions and sessions created by sign-in."
        "Meine Sitzungen auflisten"
        "Zeigt zwei Fixture-Sitzungen und durch Anmeldung erzeugte Sitzungen."
        "Oturumlarımı listele"
        "Hazır iki fixture oturumu ve girişle oluşan güncel oturumu gösterir.")
      EndpointGroup.sessions AuthRequirement.auth no_options

abbrev pub sessions_revoke : EndpointDefinition
sessions_revoke =
    endpoint (lit "sessions-revoke") delete (lit "/api/v1/sessions/{sessionId}")
      (copy "Revoke a session" "Searches only within the caller's sessions; foreign IDs return 404."
        "Sitzung widerrufen" "Sucht nur in den Sitzungen des Aufrufers; fremde IDs liefern 404."
        "Bir oturumu iptal et"
        "Yalnızca çağıranın oturum uzayında arar; diğer kullanıcı id'leri 404 döner.")
      EndpointGroup.sessions AuthRequirement.auth
      (record no_options {
        path_params = record { name = (lit "sessionId"); value = demo.session_id } ∷ [];
        destructive = true;
      })

abbrev pub sessions_revoke_others : EndpointDefinition
sessions_revoke_others =
    endpoint (lit "sessions-revoke-others") delete (lit "/api/v1/sessions")
      (copy "Revoke every other session"
        "Keeps the calling session and closes every other active session."
        "Alle anderen Sitzungen widerrufen"
        "Behält die aufrufende Sitzung und schließt alle anderen aktiven Sitzungen."
        "Diğer tüm oturumları iptal et"
        "İsteği yapan oturumu koruyup diğer aktif oturumları kapatır.")
      EndpointGroup.sessions AuthRequirement.auth (record no_options { destructive = true })
