-- ===== src/Plugin/Registry/Fetch.antt =====
-- plugin/registry.go: `fetchTools` and the cache of tool lists.
pub mod Cache
pub mod Owned
use mcp_plugin.Base.Tests.{
  ℕ, Option, none, some, List, [], ◌∷◌, ◌++◌, nat_eq, if◌then◌else◌, ◌>>=◌, Result, ok, err,
}
use mcp_plugin.Base.Text.{Text, codes}
use mcp_plugin.Json.Decode.{Scanner, is_field, decode_string, decode_list, decode_struct}
use mcp_plugin.Config.Expand.{ServerConfig}
use mcp_plugin.Mcp.Types.Tools.{Tool, no_tool, set_tool_field}
use mcp_plugin.Plugin.Upstream.{Upstream, Host}

module _ {W : Type 0} (up : Upstream W) where
  unfoldable pub listed : Result (List Tool) → ℕ → W → Result (List Tool × ℕ) × W
  listed (ok tools) client w = (ok (tools, client), w)
  listed (err e) client w = (err (codes "list tools: " ++ e), w)

  -- After `FallbackSSE`: the second `ListTools`.
  unfoldable pub list_again : Option Text → Text → ℕ → W → Result (List Tool × ℕ) × W
  list_again (some sse_err) e client w =
      (err (codes "list tools: " ++ (e ++ (codes " (SSE fallback: " ++ (sse_err ++ codes ")")))), w)
  list_again none e client w = let (r, w') = up.list_tools client w in listed r client w'

  -- After the first `ListTools`.
  unfoldable pub list_or_fall_back : Result (List Tool) → ℕ → W → Result (List Tool × ℕ) × W
  list_or_fall_back (ok tools) client w = (ok (tools, client), w)
  list_or_fall_back (err e) client w =
      let (failed, w') = up.fallback_sse client w in
      let fallen = list_again failed e client w' in
      if up.is_streamable client w then fallen else (err (codes "list tools: " ++ e), w)

  unfoldable pub fetch_connected : Result ℕ → W → Result (List Tool × ℕ) × W
  fetch_connected (err e) w = (err (codes "connect: " ++ e), w)
  fetch_connected (ok client) w =
      let (r, w') = up.list_tools client w in list_or_fall_back r client w'

  -- `fetchTools`
  unfoldable pub fetch_tools : ServerConfig → W → Result (List Tool × ℕ) × W
  fetch_tools cfg w = let (r, w') = up.connect cfg w in fetch_connected r w'

-- The name in `cacheFile`: every '/' is replaced. The directory is kept apart; since the name has
-- no '/' and is not "..", `filepath.Join` leaves it whole.
unfoldable pub safe_name : Text → Text
safe_name [] = []
safe_name (c ∷ s) = (if nat_eq c b'/' then b'_' else c) ∷ safe_name s

unfoldable pub cache_file : Text → Text
cache_file server = safe_name server ++ codes ".json"

-- `cachedServer`
pub record CachedServer : Type 0 where
  pub server : Text
  pub tools : List Tool

unfoldable pub set_cached_field : Scanner → Text → Text → CachedServer → Option CachedServer
set_cached_field shape key raw c =
    if is_field key (codes "server")
    then (do s ← decode_string shape c.server raw; some (record c { server = s }))
    else if is_field key (codes "tools")
    then (do
      ts ← decode_list shape (decode_struct shape (set_tool_field shape) no_tool) raw
      some (record c { tools = ts }))
    else some c

module _ {W : Type 0} (host : Host W) where
  unfoldable pub write_cached : Option Text → Text → Text → List Tool → W → Option Text × W
  write_cached (some e) dir server tools w = (some e, w)
  write_cached none dir server tools w = elim (host.encode_cached server tools) [
    | err e ↦ (some e, w)
    | ok text ↦ host.disk.write_file dir (cache_file server) text w
  ]

  -- `saveCache`; no message is success
  unfoldable pub save_cache : Text → Text → List Tool → W → Option Text × W
  save_cache dir server tools w =
      let (e, w') = host.disk.mkdir_all dir w in write_cached e dir server tools w'

  unfoldable pub decode_cached : Text → List Tool
  decode_cached text =
      elim (decode_struct host.shape (set_cached_field host.shape)
        (record { server = []; tools = [] }) text) [ none ↦ [] | some c ↦ c.tools ]

  -- `loadCache`
  unfoldable pub load_cache : Text → Text → W → List Tool
  load_cache dir server w = elim (host.disk.read_file dir (cache_file server) w) [
    | none ↦ []
    | some text ↦ decode_cached text
  ]

  -- `Build` and the retry loops save only where a directory is configured, and only log an error.
  unfoldable pub refresh_cache : Text → Text → List Tool → W → W
  refresh_cache dir server tools w =
      let saved = (save_cache dir server tools w).1 in elim dir [ [] ↦ w | c ∷ d ↦ saved ]
