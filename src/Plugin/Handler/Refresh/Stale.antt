-- ===== src/Plugin/Handler/Refresh/Stale.antt =====
-- A refresh that overlaps a configuration.
use mathlib.Core.Path.{subst}
use mcp_plugin.Base.Tests.{◌≡◌, refl, ◌≢◌, true, false, some, List, [], ◌∷◌}
use mcp_plugin.Base.Text.{Text}
use mcp_plugin.Config.Expand.{ServerConfig}
use mcp_plugin.Plugin.Types.{Registry}
use mcp_plugin.Plugin.Upstream.{Host}
use mcp_plugin.Plugin.Handler.Refresh.{
  Handler, new_handler, set_registry, coalesces, fully_live, refresh_commit, refresh_end, is_nil,
  unconfigured,
}
use mcp_plugin.Plugin.Handler.Refresh.System.{
  clearing, System, IsBuilt, configured, begun, committed, cleared, Reach, here, next,
}

commit_live :
    (r : Registry) (h : Handler)
    → fully_live r ≡ true
    → refresh_commit r h ≡ record h { registry = some r }
unfolding refresh_commit
commit_live r h live = rw live

-- The handler when the second configuration has overtaken a running refresh.
abbrev overtaken : List ServerConfig → Registry → Handler
overtaken second r' = record { registry = some r'; server_cfgs = second; refreshing = true }

idle :
    (cfgs : List ServerConfig) (r : Registry)
    → cfgs ≢ []
    → coalesces (set_registry r cfgs new_handler) ≡ false
unfolding coalesces unconfigured is_nil set_registry
idle [] r n = absurd (n refl)
idle (c ∷ cs) r n = refl

-- After the commit, before the deferred part.
abbrev build_done : Handler → System
build_done h = record { handler = h; tasks = clearing ∷ [] }

module _ {W : Type 0} (host : Host W) (cache_dir : Text) where
  -- Let every server of a first configuration answer. If the host configures the plugin anew while a
  -- refresh builds from the first configuration, the refresh ends by putting the registry of the
  -- first configuration back, though the second is the one that is stored.
  pub refresh_undoes_configure :
      (first second : List ServerConfig) (r r' : Registry)
      → IsBuilt host cache_dir first r
      → IsBuilt host cache_dir second r'
      → first ≢ []
      → second ≢ []
      → fully_live r ≡ true
      → Reach host cache_dir (record {
        handler = record { registry = some r; server_cfgs = second; refreshing = false };
        tasks = [];
      })
  unfolding set_registry refresh_end
  refresh_undoes_configure [] second r r' b b' n n' live = absurd (n refl)
  refresh_undoes_configure (c ∷ cs) second r r' b b' n n' live =
      next
        (subst (λ h. Reach host cache_dir (build_done h)) (commit_live r (overtaken second r') live)
          (next
            (next (next (next here (configured (c ∷ cs) r b n)) (begun (idle (c ∷ cs) r n)))
              (configured second r' b' n'))
            (committed [] [] (c ∷ cs) r refl b)))
        (cleared [] [] refl)
