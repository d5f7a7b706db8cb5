-- ===== src/Plugin/Handler/Refresh/Sound.antt =====
-- Every registry that the handler ever has is consistent.
use mcp_plugin.Base.Tests.{inl, inr, Option, none, some, List, Bool-cases}
use mathlib.Core.Path.{subst}
use mcp_plugin.Base.Text.{Text}
use mcp_plugin.Config.Expand.{ServerConfig}
use mcp_plugin.Plugin.Types.{Registry}
use mcp_plugin.Plugin.Upstream.{Host}
use mcp_plugin.Plugin.Registry.Build.Consistent.{IsConsistent, build-IsConsistent}
use mcp_plugin.Plugin.Registry.Live.Reconnect.{reconnect-IsConsistent, strip_offline-IsConsistent}
use mcp_plugin.Plugin.Handler.Refresh.{
  Handler, set_registry, fully_live, refresh_commit, refresh_end,
}
use mcp_plugin.Plugin.Handler.Refresh.System.{
  System, IsBuilt, Step, configured, begun, committed, cleared, reconnected, stripped, Reach, here,
  next,
}

abbrev pub HasConsistent : Option Registry → Type 0
HasConsistent none = Unit
HasConsistent (some r) = IsConsistent r

module _ {W : Type 0} (host : Host W) (cache_dir : Text) where
  IsBuilt-IsConsistent :
      (cfgs : List ServerConfig) (r : Registry) → IsBuilt host cache_dir cfgs r → IsConsistent r
  IsBuilt-IsConsistent cfgs r (w, is) =
      subst IsConsistent is (build-IsConsistent host cache_dir cfgs w)

  commit-HasConsistent :
      (r : Registry) (h : Handler)
      → IsConsistent r
      → HasConsistent h.registry
      → HasConsistent (refresh_commit r h).registry
  unfolding refresh_commit
  commit-HasConsistent r h new old = elim (Bool-cases (fully_live r)) [
    | inl live ↦ rw live new
    | inr degraded ↦ rw degraded old
  ]

  Step-HasConsistent :
      {s t : System}
      → Step host cache_dir s t
      → HasConsistent s.handler.registry
      → HasConsistent t.handler.registry
  Step-HasConsistent (configured cfgs r b n) c =
      unfold set_registry in IsBuilt-IsConsistent cfgs r b
  Step-HasConsistent (begun free) c = c
  Step-HasConsistent {s} (committed before after cfgs r e b) c =
      commit-HasConsistent r s.handler (IsBuilt-IsConsistent cfgs r b) c
  Step-HasConsistent (cleared before after e) c = unfold refresh_end in c
  Step-HasConsistent (reconnected r cfg w e) c =
      reconnect-IsConsistent host cfg r w (subst HasConsistent e c)
  Step-HasConsistent (stripped r server e) c =
      strip_offline-IsConsistent server r (subst HasConsistent e c)

  -- Whatever calls of the handler and background reconnects interleave, its registry, once it has
  -- one, announces exactly the actions that `Execute` finds, names them for their server and tool,
  -- and has clients for all but those of offline servers.
  pub Reach-HasConsistent : {s : System} → Reach host cache_dir s → HasConsistent s.handler.registry
  Reach-HasConsistent here = tt
  Reach-HasConsistent (next r st) = Step-HasConsistent st (Reach-HasConsistent r)
