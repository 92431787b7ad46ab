-- ===== src/Guided/Totp.antt =====
-- What filling in a one-time code does to the request.
use dotnet_web_api_startpack.Json.{Json}
use dotnet_web_api_startpack.Platform.{Platform}
