-- ===== src/Tests/Reloads.antt =====
-- A page of workbench-context.tsx whose storage has room, and its reload.
use dotnet_web_api_startpack.Prelude.{
  ℕ, lit, List, [], ◌∷◌, All, ◌≡◌, true, false, refl, sym, ap, lookup,
}
use dotnet_web_api_startpack.Types.{AuthMode}
use dotnet_web_api_startpack.Fetch.{success}
use dotnet_web_api_startpack.Vault.{Storage}
use dotnet_web_api_startpack.Vault.Variables.{VariableName}
use dotnet_web_api_startpack.Vault.Mirror.{kept}
use dotnet_web_api_startpack.Vault.Clear.{variable-empty}
use dotnet_web_api_startpack.Workbench.State.{initial, Workbench}
use dotnet_web_api_startpack.Workbench.Session.{Event, run}
use dotnet_web_api_startpack.Workbench.Durable.{IsMirrored, lim}
use dotnet_web_api_startpack.Workbench.Durable.Runs.{
  is_later, room_of, room_of-IsAmple, IsReloaded, run-IsReloaded,
}
use dotnet_web_api_startpack.Tests.Samples.{platform, closure, options}
use dotnet_web_api_startpack.Tests.Tokens.{login_result}

abbrev fresh_storage : Storage
fresh_storage = record { entries = []; blocked = false; limit = 0 }

abbrev fresh_page : Workbench
fresh_page = initial fresh_storage

fresh_page-IsMirrored : IsMirrored fresh_page
unfolding lookup
fresh_page-IsMirrored = record {
  opened = refl;
  mirrors = λ m k named. ap kept (sym (variable-empty m));
}

-- A login, a change of the mode and a token that the user types.
abbrev login_events : List Event
login_events =
    Event.start closure options (lit "a=1")
    ∷ Event.finish 0 (success login_result) (lit "a=1")
    ∷ Event.mode AuthMode.cookie
    ∷ Event.variable VariableName.csrf_token (lit "csrf")
    ∷ []

login_events-later : All (λ e. is_later e ≡ true) login_events
login_events-later = (refl, (refl, (refl, (refl, tt))))

abbrev room : ℕ
room = room_of ⦃p = platform⦄ login_events fresh_page login_events-later fresh_page-IsMirrored

run-IsReloaded_example :
    IsReloaded ⦃p = platform⦄ (run ⦃p = platform⦄ login_events (lim room fresh_page))
run-IsReloaded_example =
    run-IsReloaded ⦃p = platform⦄ login_events fresh_page room login_events-later
      fresh_page-IsMirrored
      (room_of-IsAmple ⦃p = platform⦄ login_events fresh_page login_events-later
        fresh_page-IsMirrored)
