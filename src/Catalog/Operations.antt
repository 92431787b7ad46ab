-- ===== src/Catalog/Operations.antt =====
-- The entries of the group `operations` in `ENDPOINTS`, playground-ui/src/features/workbench/catalog.ts.
use dotnet_web_api_startpack.Prelude.{lit}
use dotnet_web_api_startpack.Types.{EndpointDefinition, EndpointGroup, AuthRequirement, get}
use dotnet_web_api_startpack.Catalog.Entry.{endpoint, copy, no_options}

abbrev pub health_live : EndpointDefinition
health_live =
    endpoint (lit "health-live") get (lit "/health/live")
      (copy "Liveness check" "A lightweight, database-independent process probe." "Liveness prüfen"
        "Leichter, datenbankunabhängiger Prozess-Probe." "Liveness kontrolü"
        "İşlem ayakta mı? Veritabanından bağımsız, hafif probe.")
      EndpointGroup.operations AuthRequirement.public no_options

abbrev pub health_ready : EndpointDefinition
health_ready =
    endpoint (lit "health-ready") get (lit "/health/ready")
      (copy "Readiness check" "Checks whether the API and PostgreSQL are ready for traffic."
        "Readiness prüfen" "Prüft, ob API und PostgreSQL für Traffic bereit sind."
        "Readiness kontrolü" "API ve PostgreSQL trafiğe hazır mı?")
      EndpointGroup.operations AuthRequirement.public no_options

abbrev pub jwks : EndpointDefinition
jwks =
    endpoint (lit "jwks") get (lit "/.well-known/jwks.json")
      (copy "Public signing keys" "Returns active and retiring ES256 keys in JWKS format."
        "Öffentliche Signaturschlüssel"
        "Liefert aktive und auslaufende ES256-Schlüssel im JWKS-Format." "Public signing keys"
        "Aktif ve retiring ES256 anahtarlarını JWKS biçiminde döndürür.")
      EndpointGroup.operations AuthRequirement.public no_options
