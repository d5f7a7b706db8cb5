-- ===== src/Tests/Refresh.antt =====
-- Runs of the refresh, alone and with other calls in between.
use mcp_plugin.Plugin.Registry.Fetch.{fetch_tools, fetch_connected, list_or_fall_back}
use mcp_plugin.Base.Tests.{◌≡◌, refl, true, false, some, [], ◌∷◌}
use mcp_plugin.Base.Text.{codes}
use mcp_plugin.Config.Expand.{ServerConfig}
use mcp_plugin.Plugin.Types.{Registry}
use mcp_plugin.Plugin.Registry.Build.{
  build, finish, add_servers, add_server, add_fetched, add_live, add_tools, add_tool, add_texts,
}
use mcp_plugin.Plugin.Handler.Refresh.{
  Handler, set_registry, capabilities, refresh_capabilities, coalesces, unconfigured, is_nil,
  fully_live,
}
use mcp_plugin.Plugin.Handler.Refresh.Outcomes.{IsRefreshed, refresh_capabilities-IsRefreshed}
use mcp_plugin.Plugin.Handler.Refresh.System.{System, started, Reach, here, next, configured, begun}
use mcp_plugin.Plugin.Handler.Refresh.Single.{IsSingle, Reach-IsSingle}
use mcp_plugin.Plugin.Handler.Refresh.Sound.{HasConsistent, Reach-HasConsistent}
use mcp_plugin.Plugin.Handler.Refresh.Stale.{refresh_undoes_configure}
use mcp_plugin.Tests.World.{crm, host}

abbrev live : Registry
live = (build host [] (crm ∷ []) true).0

abbrev down : Registry
down = (build host [] (crm ∷ []) false).0

abbrev configured_handler : Handler
configured_handler = record { registry = some live; server_cfgs = crm ∷ []; refreshing = false }

refresh_capabilities-IsRefreshed_example :
    ((refresh_capabilities host [] configured_handler false).0
      ≡ capabilities (refresh_capabilities host [] configured_handler false).1)
    × IsRefreshed configured_handler
        (refresh_capabilities host [] configured_handler false).1
        (build host [] (crm ∷ []) false).0
refresh_capabilities-IsRefreshed_example =
    refresh_capabilities-IsRefreshed host [] configured_handler false

abbrev configured_system : System
configured_system = record { handler = configured_handler; tasks = [] }

reached : Reach host [] (started configured_handler configured_system)
unfolding set_registry coalesces unconfigured is_nil
reached = next (next here (configured (crm ∷ []) live (true, refl) (λ e. cc))) (begun refl)

Reach-IsSingle_example : IsSingle (started configured_handler configured_system)
Reach-IsSingle_example = Reach-IsSingle host [] reached

Reach-HasConsistent_example :
    HasConsistent (started configured_handler configured_system).handler.registry
Reach-HasConsistent_example = Reach-HasConsistent host [] reached

abbrev erp : ServerConfig
erp = record crm { server = codes "erp" }

refresh_undoes_configure_example : Reach host [] (record {
  handler = record { registry = some live; server_cfgs = erp ∷ []; refreshing = false };
  tasks = [];
})
unfolding fully_live build finish add_servers add_server add_fetched fetch_tools fetch_connected
    list_or_fall_back add_live add_tools add_tool add_texts is_nil
refresh_undoes_configure_example =
    refresh_undoes_configure host [] (crm ∷ []) (erp ∷ []) live (build host [] (erp ∷ []) true).0
      (true, refl) (true, refl) (λ e. cc) (λ e. cc) refl
