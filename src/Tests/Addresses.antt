-- ===== src/Tests/Addresses.antt =====
-- `buildPath` and the catalog, at small inputs.
use dotnet_web_api_startpack.Prelude.{
  Text, lit, List, [], ◌∷◌, some, ◌≡◌, refl, text_eq, lookup, starts_with, set_key, ◌>>=◌,
}
use dotnet_web_api_startpack.Types.{EndpointParameter, RequestDraft}
use dotnet_web_api_startpack.Template.{
  is_word, word, template_name, replacement, replace_from, resolve_template_string,
}
use dotnet_web_api_startpack.Uri.{
  code_points_from, percent_all, utf8, hex_digit, form_serialize, form_encode, form_points,
  form_point,
}
use dotnet_web_api_startpack.Address.{
  fill_path, collect_query, build_path, parameter_value, with_query,
}
use dotnet_web_api_startpack.Address.Fill.{render}
use dotnet_web_api_startpack.Address.Query.{sent}
use dotnet_web_api_startpack.Catalog.{endpoints}
use dotnet_web_api_startpack.Catalog.Admin.{admin_audit}
use dotnet_web_api_startpack.Catalog.Ids.{IsListed}
use dotnet_web_api_startpack.Catalog.Routes.{IsListed-IsRouted}
use dotnet_web_api_startpack.Catalog.Paths.{HasNoBrace, build_path-IsListed, build_path-HasNoBrace}
use dotnet_web_api_startpack.Tests.Samples.{platform, variables}

abbrev parameters : List EndpointParameter
parameters =
    record { name = lit "a"; value = lit "{{apiKey}}" }
    ∷ record { name = lit "b"; value = lit "x" }
    ∷ []

-- The draft gives one of the two values.
abbrev given : List (Text × Text)
given = (lit "b", lit "u/{a}") ∷ []

-- The draft of the audit entry in the tests of domain.ts.
abbrev audit_draft : RequestDraft
audit_draft = record {
  path_values = [];
  query_values =
      (lit "page", lit "1")
      ∷ (lit "pageSize", lit "20")
      ∷ (lit "sort", lit "occurredAt:desc")
      ∷ (lit "userId", lit "a user/id")
      ∷ (lit "eventType", [])
      ∷ (lit "from", [])
      ∷ (lit "to", [])
      ∷ (lit "correlationId", [])
      ∷ [];
  body_text = [];
}

abbrev audit_path : Text
audit_path =
    lit "/api/v1/admin/audit-logs?page=1&pageSize=20&sort=occurredAt%3Adesc&userId=a+user%2Fid"

audit-IsListed : IsListed admin_audit
unfolding endpoints
audit-IsListed = (44, refl)

audit-path : build_path ⦃p = platform⦄ variables admin_audit audit_draft ≡ some audit_path
unfolding build_path fill_path collect_query set_key form_serialize form_encode form_points
    form_point parameter_value lookup text_eq resolve_template_string replace_from template_name
    word is_word starts_with replacement code_points_from percent_all utf8 hex_digit
audit-path = refl

build_path-IsListed_example : build_path ⦃p = platform⦄ variables admin_audit audit_draft ≡ (
    render ⦃p = platform⦄ variables audit_draft.path_values
      (IsListed-IsRouted admin_audit audit-IsListed).segments
      admin_audit.path_params
    >>= λ path. some (
        with_query path (
          form_serialize
            (sent ⦃p = platform⦄ variables audit_draft.query_values admin_audit.query))))
build_path-IsListed_example =
    build_path-IsListed ⦃p = platform⦄ variables admin_audit audit_draft audit-IsListed

build_path-HasNoBrace_example : HasNoBrace audit_path
build_path-HasNoBrace_example =
    build_path-HasNoBrace ⦃p = platform⦄ variables admin_audit audit_draft audit_path audit-IsListed
      audit-path
