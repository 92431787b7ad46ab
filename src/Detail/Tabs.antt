-- ===== src/Detail/Tabs.antt =====
-- Which tab of the endpoint panel is open.
use dotnet_web_api_startpack.Prelude.{ℕ, Option, none, some, ◌≡◌, ◌≢◌, arith}
use dotnet_web_api_startpack.Types.{PanelTab}
use dotnet_web_api_startpack.Detail.{Detail, active_tab, choose_tab}

-- The tab that the user has chosen is open as long as the response stays the same one, and a response
-- that is another one than at the choice opens the tab of the response, whatever was chosen.
pub active_tab-choose_tab :
    (result : Option ℕ) (next : ℕ) (choice : PanelTab) (d : Detail)
    → result ≢ some next
    → (active_tab result (choose_tab result choice d) ≡ choice)
      × (active_tab (some next) (choose_tab result choice d) ≡ PanelTab.response)
unfolding active_tab choose_tab
active_tab-choose_tab none next choice d h = ground arith
active_tab-choose_tab (some r) next choice d h = ground arith
