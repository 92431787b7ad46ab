-- ===== src/Panels.antt =====
-- What the components under playground-ui/src/features/workbench show and offer, as data: texts, values
-- of fields, buttons and whether they are enabled. Class names and icons are left out.
pub mod Identity
pub mod Ready
pub mod Request
pub mod Response
pub mod Toasts
pub mod Header
pub mod Catalog
pub mod Counts
pub mod Screen
pub mod Links
pub mod Visits
use dotnet_web_api_startpack.Prelude.{Text, lit, [], Bool, true, false}
use dotnet_web_api_startpack.Types.{neutral, error}
use dotnet_web_api_startpack.Platform.{Platform}
use dotnet_web_api_startpack.Workbench.Session.{Event}

pub record Button : Type 0 where
  pub label : Text
  pub enabled : Bool

-- A labelled text with its value.
pub record Field : Type 0 where
  pub label : Text
  pub value : Text

-- A link, to an endpoint of the catalog or to an address.
pub data Target : Type 0 where
  endpoint_page : (id : Text) → Target
  address : Text → Target

pub record Link : Type 0 where
  pub label : Text
  pub target : Target

module _ ⦃p : Platform⦄ where
  abbrev pub text : Text → Text
  text key = p.message key []

  -- The toast after `copyText`, which says whether the clipboard has taken the text.
  abbrev pub copy_toast : Bool → Event
  copy_toast written = elim written [
    | true ↦ Event.toast (text (lit "copied")) (text (lit "copied_description")) neutral
    | false ↦
        Event.toast (text (lit "clipboard_denied")) (text (lit "clipboard_denied_description"))
          error
  ]
