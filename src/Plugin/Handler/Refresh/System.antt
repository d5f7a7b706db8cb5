-- ===== src/Plugin/Handler/Refresh/System.antt =====
-- Calls of the handler that run concurrently: each step is a part of a call that holds the lock, and
-- the steps of different calls follow one another in any order.
use mcp_plugin.Base.Tests.{◌≡◌, ◌≢◌, true, false, some, List, [], ◌∷◌, ◌++◌}
use mcp_plugin.Base.Text.{Text}
use mcp_plugin.Config.Expand.{ServerConfig}
use mcp_plugin.Plugin.Types.{Registry}
use mcp_plugin.Plugin.Upstream.{Host}
use mcp_plugin.Plugin.Registry.Build.{build}
use mcp_plugin.Plugin.Registry.Live.{reconnect, strip_offline}
use mcp_plugin.Plugin.Handler.Refresh.{
  Handler, new_handler, set_registry, coalesces, refresh_commit, refresh_end,
}

-- Where a running `RefreshCapabilities` is: in its `Build`, or before its deferred part.
pub data Phase : Type 0 where
  building : List ServerConfig → Phase
  clearing : Phase

pub record System : Type 0 where
  pub handler : Handler
  pub tasks : List Phase

abbrev pub initial : System
initial = record { handler = new_handler; tasks = [] }

abbrev pub started : Handler → System → System
started h s = record {
  handler = record h { refreshing = true };
  tasks = building h.server_cfgs ∷ s.tasks;
}

module _ {W : Type 0} (host : Host W) (cache_dir : Text) where
  -- Some state of the world in which `Build` gives this registry.
  abbrev pub IsBuilt : List ServerConfig → Registry → Type 0
  IsBuilt cfgs r = (w : W) × ((build host cache_dir cfgs w).0 ≡ r)

  pub data Step (s : System) : System → Type 0 where
    -- `Configure`, or `SetRegistry` of the bootstrap
    configured :
        (cfgs : List ServerConfig) (r : Registry)
        → IsBuilt cfgs r
        → cfgs ≢ []
        → Step s (record s { handler = set_registry r cfgs s.handler })
    begun : coalesces s.handler ≡ false → Step s (started s.handler s)
    committed :
        (before after : List Phase) (cfgs : List ServerConfig) (r : Registry)
        → s.tasks ≡ before ++ building cfgs ∷ after
        → IsBuilt cfgs r
        → Step s
            (record { handler = refresh_commit r s.handler; tasks = before ++ clearing ∷ after })
    cleared :
        (before after : List Phase)
        → s.tasks ≡ before ++ clearing ∷ after
        → Step s (record { handler = refresh_end s.handler; tasks = before ++ after })
    -- a reconnect, in `Execute` or in the background
    reconnected :
        (r : Registry) (cfg : ServerConfig) (w : W)
        → s.handler.registry ≡ some r
        → Step s (record s {
          handler = record (s.handler) { registry = some (reconnect host cfg r w).1 };
        })
    -- the end of a background reconnect
    stripped :
        (r : Registry) (server : Text)
        → s.handler.registry ≡ some r
        → Step s
            (record s { handler = record (s.handler) { registry = some (strip_offline server r) } })

  pub data Reach : System → Type 0 where
    here : Reach initial
    next : {s t : System} → Reach s → Step s t → Reach t
