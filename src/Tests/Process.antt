-- ===== src/Tests/Process.antt =====
-- Runs of the process, with one server in its environment, and of the reading of its configuration.
use mcp_plugin.Config.Expand.{expand_headers}
use mcp_plugin.Base.Tests.{Bool, true, false, ◌≡◌, refl, some, [], ◌∷◌, if◌then◌else◌, ok}
use mcp_plugin.Base.Text.{Text, codes, ◌==◌}
use mcp_plugin.Config.Parse.{cache_dir, no_server, parse, load, decode_servers}
use mcp_plugin.Config.Agree.{as_config, parse-load}
use mcp_plugin.Json.Decode.{Scanner, arr, obj, decode_list, decode_each, decode_struct, set_fields}
use mcp_plugin.Plugin.Upstream.{Host}
use mcp_plugin.Plugin.Registry.Build.{build}
use mcp_plugin.Plugin.Handler.Refresh.{Handler, set_registry, new_handler}
use mcp_plugin.Plugin.Handler.Refresh.System.{Reach}
use mcp_plugin.Plugin.Handler.Calls.{capabilities, refresh_capabilities, answer_all}
use mcp_plugin.Plugin.Handler.Calls.Runs.{idle}
use mcp_plugin.Main.{bootstrap, bootstrap_with}
use mcp_plugin.Main.Bootstrap.{bootstrap-Reach}
use mcp_plugin.Tests.World

-- A scanner of the text "all", a configuration of one server without a name, and of its parts.
abbrev scanner : Scanner
scanner s =
    if s == codes "all"
    then some (obj ((codes "servers", codes "list") ∷ []))
    else if s == codes "list"
    then some (arr (codes "one" ∷ []))
    else some (obj [])

abbrev host : Host Bool
host = record (World.host) { shape = scanner }

abbrev getenv : Text → Text
getenv name = if name == codes "OPENTALON_MCP_SERVERS" then codes "list" else []

parse-load_example : parse scanner getenv (codes "all") ≡ as_config (load scanner getenv)
unfolding ◌==◌
parse-load_example = parse-load scanner getenv (codes "all") (λ e. absurd (cc e)) refl

abbrev served_handler : Handler
served_handler = set_registry (build host [] (no_server ∷ []) false).0 (no_server ∷ []) new_handler

served : (bootstrap host getenv false).0 ≡ ok served_handler
unfolding bootstrap ◌==◌ bootstrap_with load decode_servers decode_list decode_each decode_struct
    set_fields expand_headers cache_dir
served = refl

bootstrap-Reach_example : Reach host [] (
    idle
      (answer_all host getenv []
        (refresh_capabilities ∷ capabilities ∷ [])
        (served_handler, true)).0)
unfolding cache_dir ◌==◌
bootstrap-Reach_example =
    bootstrap-Reach host getenv (refresh_capabilities ∷ capabilities ∷ []) served_handler false true
      served
