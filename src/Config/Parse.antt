-- ===== src/Config/Parse.antt =====
-- config/config.go: `Parse`, `Load` and `CacheDir`.
use mcp_plugin.Base.Tests.{Option, none, some, List, [], if◌then◌else◌, Result, ok, err, ◌>>=◌}
use mcp_plugin.Base.Text.{Text, codes, ◌==◌}
use mcp_plugin.Json.Decode.{
  Scanner, is_field, decode_string, decode_map, decode_list, decode_struct,
}
use mcp_plugin.Config.Expand.{ServerConfig, expand_headers}

-- `PluginConfig`
pub record PluginConfig : Type 0 where
  pub servers : List ServerConfig

abbrev pub no_server : ServerConfig
no_server = record { server = []; url = []; headers = []; context_headers = [] }

module _ (shape : Scanner) where
  unfoldable pub set_server_field : Text → Text → ServerConfig → Option ServerConfig
  set_server_field key raw c =
      if is_field key (codes "server")
      then (do s ← decode_string shape c.server raw; some (record c { server = s }))
      else if is_field key (codes "url")
      then (do s ← decode_string shape c.url raw; some (record c { url = s }))
      else if is_field key (codes "headers")
      then (do
        m ← decode_map shape (decode_string shape []) c.headers raw
        some (record c { headers = m }))
      else if is_field key (codes "context_headers")
      then (do
        m ← decode_map shape (decode_string shape []) c.context_headers raw
        some (record c { context_headers = m }))
      else some c

  unfoldable pub decode_servers : Text → Option (List ServerConfig)
  decode_servers = decode_list shape (decode_struct shape set_server_field no_server)

  unfoldable pub set_config_field : Text → Text → PluginConfig → Option PluginConfig
  set_config_field key raw c =
      if is_field key (codes "servers")
      then (do cfgs ← decode_servers raw; some (record { servers = cfgs }))
      else some c

  module _ (getenv : Text → Text) where
    -- `Parse`
    unfoldable pub parse : Text → Result PluginConfig
    parse config_json =
        elim (decode_struct shape set_config_field (record { servers = [] }) config_json) [
          | none ↦ err (codes "parse config")
          | some cfg ↦ ok (record { servers = expand_headers getenv cfg.servers })
        ]

    -- `Load`
    unfoldable pub load : Result (List ServerConfig)
    load =
        let raw = getenv (codes "OPENTALON_MCP_SERVERS") in
        if raw == []
        then err (codes "OPENTALON_MCP_SERVERS not set")
        else elim (decode_servers raw) [
          | none ↦ err (codes "parse OPENTALON_MCP_SERVERS")
          | some cfgs ↦ ok (expand_headers getenv cfgs)
        ]

    -- `CacheDir`
    unfoldable pub cache_dir : Text
    cache_dir = getenv (codes "OPENTALON_MCP_CACHE_DIR")
