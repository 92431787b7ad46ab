-- ===== src/Types.antt =====
-- playground-ui/src/features/workbench/types.ts: the data of the workbench. A union of string
-- literals is a data type with a constructor for each literal, an optional property an `Option`.
use dotnet_web_api_startpack.Prelude.{ℕ, Text, lit, List, Bool, Option}
use dotnet_web_api_startpack.Json.{Json}

pub data HttpMethod : Type 0 where
  get post put patch delete : HttpMethod

pub data EndpointGroup : Type 0 where
  operations authentication account sessions security admin : EndpointGroup

pub data EndpointGroupFilter : Type 0 where
  all : EndpointGroupFilter
  only : EndpointGroup → EndpointGroupFilter

pub data AuthRequirement : Type 0 where
  public auth recent admin : AuthRequirement

pub data AuthMode : Type 0 where
  bearer cookie api_key : AuthMode

pub data CatalogView : Type 0 where
  comfortable compact : CatalogView

pub data PanelTab : Type 0 where
  request response : PanelTab

pub data SpecialAction : Type 0 where
  social totp passkey_register passkey_auth : SpecialAction

pub data AppLocale : Type 0 where
  en de tr : AppLocale

pub record LocalizedCopy : Type 0 where
  pub title : Text
  pub description : Text

pub record EndpointCopy : Type 0 where
  pub en : LocalizedCopy
  pub de : LocalizedCopy
  pub tr : LocalizedCopy

pub record EndpointParameter : Type 0 where
  pub name : Text
  pub value : Text

-- A `body` of `none` is the `null` of the source.
pub record EndpointDefinition : Type 0 where
  pub id : Text
  pub method : HttpMethod
  pub path : Text
  pub copy : EndpointCopy
  pub group : EndpointGroup
  pub auth : AuthRequirement
  pub body : Option Json
  pub path_params : List EndpointParameter
  pub query : List EndpointParameter
  pub destructive : Bool
  pub special : Option SpecialAction

pub record WorkbenchVariables : Type 0 where
  pub access_token : Text
  pub refresh_token : Text
  pub api_key : Text
  pub csrf_token : Text
  pub totp_secret : Text
  pub totp_code : Text
  pub mfa_ticket : Text
  pub credential_id : Text
  pub social_code : Text
  pub social_state : Text
  pub verification_token : Text
  pub password_reset_token : Text

pub record RequestDraft : Type 0 where
  pub path_values : List (Text × Text)
  pub query_values : List (Text × Text)
  pub body_text : Text

-- `json_data` is the property `data`; the headers are a list of pairs.
pub record ApiResult : Type 0 where
  pub status : ℕ
  pub status_text : Text
  pub ok : Bool
  pub raw : Text
  pub json_data : Json
  pub elapsed_ms : ℕ
  pub headers : List (Text × Text)

pub data Tone : Type 0 where
  neutral error : Tone

pub record ToastMessage : Type 0 where
  pub id : ℕ
  pub title : Text
  pub description : Text
  pub tone : Tone

pub data Health : Type 0 where
  checking healthy unhealthy : Health

pub record ServiceStatus : Type 0 where
  pub state : Health
  pub operation_count : Option ℕ

pub record WorkbenchSearch : Type 0 where
  pub q : Text
  pub group : EndpointGroupFilter
  pub view : CatalogView

-- The literals that a method stands for.
abbrev pub method_text : HttpMethod → Text
method_text get = lit "GET"
method_text post = lit "POST"
method_text put = lit "PUT"
method_text patch = lit "PATCH"
method_text delete = lit "DELETE"
