-- ===== src/Panels/Header.antt =====
-- playground-ui/src/features/workbench/app-header.tsx and playground-ui/src/components/LocaleSwitcher.tsx
use dotnet_web_api_startpack.Prelude.{
  Text, lit, List, [], ◌∷◌, ◌++◌, map, Option, none, some, or_else, lookup,
}
use dotnet_web_api_startpack.Platform.{Platform}
use dotnet_web_api_startpack.Workbench.Session.{Event}
use dotnet_web_api_startpack.Panels.{Link, address, text}

-- `getMailpitUrl`: the address of the page with http, the port of Mailpit, and nothing after its host;
-- the host name is `none` where there is no window.
unfoldable pub mailpit_url : Option Text → Text
mailpit_url none = lit "http://localhost:8025/"
mailpit_url (some host) = lit "http://" ++ (host ++ lit ":8025/")

pub record AppHeader : Type 0 where
  pub title : Text
  pub description : Text
  pub origin_label : Text
  pub origin : Text
  pub placeholder : Text
  pub links : List Link

-- The field of the address calls this at each change, and when it is left.
abbrev pub edit_origin : Text → Event
edit_origin value = Event.api_base value

-- `LANGUAGE_NAMES`
abbrev pub language_names : List (Text × Text)
language_names =
    (lit "en", lit "English") ∷ (lit "de", lit "Deutsch") ∷ (lit "tr", lit "Türkçe") ∷ []

-- The items of the selection of the language; `upper` is `toUpperCase`.
abbrev pub locale_items : (upper : Text → Text) → (locales : List Text) → List (Text × Text)
locale_items upper locales =
    map (λ (l : Text). (l, or_else (lookup l language_names) (upper l))) locales

-- `onValueChange` of the selection: the locale to set, if there is one.
abbrev pub chosen_locale : Option Text → Option Text
chosen_locale none = none
chosen_locale (some []) = none
chosen_locale (some (c ∷ s)) = some (c ∷ s)

module _ ⦃p : Platform⦄ where
  -- `AppHeader`
  unfoldable pub app_header : (api_base : Text) → (host : Option Text) → AppHeader
  app_header api_base host = record {
    title = text (lit "app_title");
    description = text (lit "app_description");
    origin_label = text (lit "api_origin");
    origin = api_base;
    placeholder = lit "https://localhost:5001";
    links =
        record { label = text (lit "open_mailpit"); target = address (mailpit_url host) }
        ∷ record {
          label = text (lit "open_openapi");
          target = address (api_base ++ lit "/openapi/v1.json");
        }
        ∷ [];
  }
