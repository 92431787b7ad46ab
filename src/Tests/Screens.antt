-- ===== src/Tests/Screens.antt =====
-- The scenarios of the screen, at small answers.
use dotnet_web_api_startpack.Prelude.{
  lit, [], ◌∷◌, false, none, some, ◌≡◌, lookup, text_eq, starts_with,
}
use dotnet_web_api_startpack.Json.{obj, str, field, end}
use dotnet_web_api_startpack.Types.{AuthMode, ApiResult}
use dotnet_web_api_startpack.Workbench.Capture.{get_property}
use dotnet_web_api_startpack.Scenarios.{
  Scenario, AccountName, Provider, script, play, run_social_script,
}
use dotnet_web_api_startpack.Scenarios.Modes.{InMode, script-InMode}
use dotnet_web_api_startpack.Scenarios.Outcomes.{paths, paths-run_social}
use dotnet_web_api_startpack.Tests.Samples.{platform, sample_result}

abbrev authorized : ApiResult
authorized = record sample_result {
  json_data = obj (field (lit "authorizationUrl") (str (lit "http://provider/x")) end);
}

abbrev refused : ApiResult
refused = record sample_result { status = 401; ok = false }

script-InMode_example : InMode none (
    play
      (script ⦃p = platform⦄
        (lit "http://localhost")
        AuthMode.cookie
        (Scenario.demo_login AccountName.admin))
      (some sample_result ∷ none ∷ []))
script-InMode_example =
    script-InMode ⦃p = platform⦄ (lit "http://localhost") AuthMode.cookie
      (Scenario.demo_login AccountName.admin) (some sample_result ∷ none ∷ [])

paths-run_social_example :
    paths (
      play
        (run_social_script ⦃p = platform⦄ (lit "http://localhost") Provider.github)
        (some authorized ∷ none ∷ []))
    ≡ some (lit "/api/v1/auth/social/github/authorize") ∷ some (lit "/callback?code=c&state=s") ∷ []
unfolding get_property lookup text_eq starts_with
paths-run_social_example =
    paths-run_social ⦃p = platform⦄ (lit "http://localhost") Provider.github (some authorized) none
