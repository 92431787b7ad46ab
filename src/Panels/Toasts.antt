-- ===== src/Panels/Toasts.antt =====
-- playground-ui/src/features/workbench/toast-region.tsx
use dotnet_web_api_startpack.Prelude.{Text, lit, List, map}
use dotnet_web_api_startpack.Types.{ToastMessage, Tone, neutral, error}
use dotnet_web_api_startpack.Platform.{Platform}
use dotnet_web_api_startpack.Workbench.Session.{Event}
use dotnet_web_api_startpack.Panels.{text}

-- A toast with its role, and what its button does.
pub record ShownToast : Type 0 where
  pub role : Text
  pub title : Text
  pub description : Text
  pub dismiss_label : Text
  pub dismiss : Event

abbrev pub toast_role : Tone → Text
toast_role error = lit "alert"
toast_role neutral = lit "status"

module _ ⦃p : Platform⦄ where
  -- `ToastRegion`
  unfoldable pub toast_region : List ToastMessage → List ShownToast
  toast_region toasts =
      map
        (λ (toast : ToastMessage). record {
          role = toast_role toast.tone;
          title = toast.title;
          description = toast.description;
          dismiss_label = text (lit "toast_dismiss");
          dismiss = Event.dismiss toast.id;
        })
        toasts
