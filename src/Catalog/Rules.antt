-- ===== src/Catalog/Rules.antt =====
-- The rules that the entries of the catalog keep.
use dotnet_web_api_startpack.Prelude.{
  Bool, true, false, ◌&&◌, not, Option, none, some, ◌≡◌, refl, arith, all,
}
use dotnet_web_api_startpack.Json.{Json}
use dotnet_web_api_startpack.Types.{
  EndpointDefinition, EndpointGroup, AuthRequirement, HttpMethod, get, post, put, patch, delete,
}
use dotnet_web_api_startpack.Catalog.{endpoints}
use dotnet_web_api_startpack.Catalog.Ids.{IsListed, check_listed}

-- What a method asks of an entry.
abbrev method_rule : HttpMethod → Bool → Option Json → Bool
method_rule get destructive none = not destructive
method_rule get destructive (some _) = false
method_rule delete destructive none = destructive
method_rule delete destructive (some _) = false
method_rule post destructive body = true
method_rule put destructive body = true
method_rule patch destructive body = true

abbrev is_admin_group : EndpointGroup → Bool
is_admin_group EndpointGroup.admin = true
is_admin_group _ = false

abbrev access_rule : Bool → AuthRequirement → Bool → Bool
access_rule admin_group AuthRequirement.admin destructive = admin_group
access_rule admin_group AuthRequirement.recent destructive = not admin_group && destructive
access_rule admin_group AuthRequirement.auth destructive = not admin_group
access_rule admin_group AuthRequirement.public destructive = not admin_group

abbrev consistent : EndpointDefinition → Bool
consistent item =
    method_rule item.method item.destructive item.body
    && access_rule (is_admin_group item.group) item.auth item.destructive

consistent-endpoints : all consistent endpoints ≡ true
unfolding endpoints
consistent-endpoints = refl

pub record IsConsistent (item : EndpointDefinition) : Type 0 where
  pub reads : item.method ≡ get → (item.destructive ≡ false) × (item.body ≡ none)
  pub deletes : item.method ≡ delete → (item.destructive ≡ true) × (item.body ≡ none)
  pub admin : item.group ≡ EndpointGroup.admin → item.auth ≡ AuthRequirement.admin
  pub only_admin : item.auth ≡ AuthRequirement.admin → item.group ≡ EndpointGroup.admin
  pub recent : item.auth ≡ AuthRequirement.recent → item.destructive ≡ true

-- In the catalog a GET has no body and is not marked destructive, every DELETE is marked destructive
-- and has no body, the group `admin` is exactly the entries that need the administrator, and what
-- needs a recent sign-in is marked destructive.
pub IsListed-IsConsistent : (item : EndpointDefinition) → IsListed item → IsConsistent item
IsListed-IsConsistent item listed =
    let rule = check_listed consistent item consistent-endpoints listed in
    record {
      reads = ground arith;
      deletes = ground arith;
      admin = ground arith;
      only_admin = ground arith;
      recent = ground arith;
    }
