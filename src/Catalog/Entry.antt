-- ===== src/Catalog/Entry.antt =====
-- The helpers `copy` and `endpoint` of playground-ui/src/features/workbench/catalog.ts.
use dotnet_web_api_startpack.Prelude.{Text, String, lit, List, [], Bool, false, Option, none}
use dotnet_web_api_startpack.Json.{Json}
use dotnet_web_api_startpack.Types.{
  HttpMethod, EndpointGroup, AuthRequirement, EndpointCopy, EndpointDefinition, EndpointParameter,
  SpecialAction,
}

-- `EndpointOptions`: an option that an entry leaves out has the value that `endpoint` gives it.
pub record EndpointOptions : Type 0 where
  pub body : Option Json
  pub path_params : List EndpointParameter
  pub query : List EndpointParameter
  pub destructive : Bool
  pub special : Option SpecialAction

abbrev pub no_options : EndpointOptions
no_options = record {
  body = none;
  path_params = [];
  query = [];
  destructive = false;
  special = none;
}

abbrev pub copy :
    (en_title en_description de_title de_description tr_title tr_description : String)
    → EndpointCopy
copy en_title en_description de_title de_description tr_title tr_description = record {
  en = record { title = lit en_title; description = lit en_description };
  de = record { title = lit de_title; description = lit de_description };
  tr = record { title = lit tr_title; description = lit tr_description };
}

abbrev pub endpoint :
    Text
    → HttpMethod
    → Text
    → EndpointCopy
    → EndpointGroup
    → AuthRequirement
    → EndpointOptions
    → EndpointDefinition
endpoint id method path endpoint_copy group requirement options = record {
  id = id;
  method = method;
  path = path;
  copy = endpoint_copy;
  group = group;
  auth = requirement;
  body = options.body;
  path_params = options.path_params;
  query = options.query;
  destructive = options.destructive;
  special = options.special;
}
