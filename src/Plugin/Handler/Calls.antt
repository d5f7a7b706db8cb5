-- ===== src/Plugin/Handler/Calls.antt =====
-- plugin/handler.go: the calls that the host makes of one handler, one after another.
pub mod Runs
pub mod Owned
use mcp_plugin.Base.Tests.{Option, List, [], ◌∷◌}
use mcp_plugin.Base.Text.{Text}
use mcp_plugin.Plugin.Upstream.{Host}
use mcp_plugin.Plugin.Handler.Execute
use mcp_plugin.Plugin.Handler.Execute.{Request}
use mcp_plugin.Plugin.Handler.Refresh
use mcp_plugin.Plugin.Handler.Refresh.{Handler}

-- The methods of the handler.
pub data Call : Type 0 where
  configure : Text → Call
  capabilities : Call
  refresh_capabilities : Call
  execute : Request → Call

module _ {W : Type 0} (host : Host W) (getenv : Text → Text) (cache_dir : Text) where
  -- What a call leaves of the handler and of the rest; `Execute` changes the handler's registry.
  unfoldable pub answer : Call → Handler → W → Handler × W
  answer (configure config_json) h w =
      let (r, h', w') = Refresh.configure host cache_dir getenv config_json h w in (h', w')
  answer capabilities h w = (h, w)
  answer refresh_capabilities h w =
      let (caps, h', w') = Refresh.refresh_capabilities host cache_dir h w in (h', w')
  answer (execute req) h w =
      let (response, registry, w') = Execute.execute host req h.registry w in
      (record h { registry = registry }, w')

  unfoldable pub answer_all : List Call → Handler × W → Handler × W
  answer_all [] s = s
  answer_all (call ∷ calls) s = answer_all calls (answer call s.0 s.1)
