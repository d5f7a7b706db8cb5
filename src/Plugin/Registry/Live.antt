-- ===== src/Plugin/Registry/Live.antt =====
-- plugin/registry.go: what changes a registry after `Build`, and what reads it: `reconnect`, the
-- body of `reconnectOfflineLoop` and of `retryLoop`, `capsSnapshot` and `Close`.
pub mod Reconnect
pub mod Prefix
pub mod Closing
use mcp_plugin.Base.Tests.{
  ℕ, Bool, true, false, ◌||◌, Option, none, some, List, [], ◌∷◌, ◌++◌, nat_eq, if◌then◌else◌,
  Result, ok, err,
}
use mcp_plugin.Base.Text.{Text, codes, ◌==◌, has_prefix, trim_prefix}
use mcp_plugin.Base.Dict.{Dict}
use mcp_plugin.Config.Expand.{ServerConfig}
use mcp_plugin.Mcp.Types.Tools.{Tool}
use mcp_plugin.Plugin.Types.{Entry, ActionMsg, CapabilitiesMsg, Registry, separator}
use mcp_plugin.Plugin.Upstream.{Upstream, Host}
use mcp_plugin.Plugin.Registry.Fetch.{fetch_tools, refresh_cache}
use mcp_plugin.Plugin.Registry.Build.{offline_mark}

-- The loop of `reconnect`: every entry of the server gets the new client.
unfoldable pub with_client : Text → ℕ → Dict Entry → Dict Entry
with_client server client [] = []
with_client server client ((k, e) ∷ m) =
    (k, (if e.cfg.server == server then record e { client = some client } else e))
    ∷ with_client server client m

unfoldable pub set_client : Text → ℕ → Registry → Registry
set_client server client r = record r { actions = with_client server client r.actions }

-- `capsSnapshot`: the copy is a value here.
unfoldable pub caps_snapshot : Registry → CapabilitiesMsg
caps_snapshot r = r.caps

-- The loop of `reconnectOfflineLoop` over the announced actions.
unfoldable pub strip_mark : Text → ActionMsg → ActionMsg
strip_mark server a =
    if has_prefix a.name (server ++ separator)
    then record a { description = trim_prefix a.description offline_mark }
    else a

unfoldable pub strip_marks : Text → List ActionMsg → List ActionMsg
strip_marks server [] = []
strip_marks server (a ∷ as') = strip_mark server a ∷ strip_marks server as'

unfoldable pub strip_offline : Text → Registry → Registry
strip_offline server r = record r {
  caps = record (r.caps) { actions = strip_marks server r.caps.actions };
}

-- The clients that `Close` closes, each once, in the order of the entries.
unfoldable pub seen : ℕ → List ℕ → Bool
seen c [] = false
seen c (d ∷ ds) = nat_eq c d || seen c ds

unfoldable pub to_close : List ℕ → Dict Entry → List ℕ
to_close done [] = []
to_close done ((k, e) ∷ m) = elim e.client [
  | none ↦ to_close done m
  | some c ↦
      (let rest = to_close done m in
        let more = c ∷ to_close (c ∷ done) m in if seen c done then rest else more)
]

module _ {W : Type 0} (host : Host W) where
  unfoldable pub reconnected : ServerConfig → Result ℕ → W → Registry → Result ℕ × Registry × W
  reconnected cfg (err e) w r = (err e, r, w)
  reconnected cfg (ok client) w r = (ok client, set_client cfg.server client r, w)

  -- `reconnect`
  unfoldable pub reconnect : ServerConfig → Registry → W → Result ℕ × Registry × W
  reconnect cfg r w = let (c, w') = host.upstream.connect cfg w in reconnected cfg c w' r

  unfoldable pub close_all : List ℕ → W → W
  close_all [] w = w
  close_all (c ∷ cs) w = close_all cs (host.upstream.close c w)

  -- `Close`
  unfoldable pub close : Registry → W → W
  close r w = close_all (to_close [] r.actions) w

  -- After a reconnect in the background: the cache is refreshed where the tools can be listed.
  unfoldable pub relisted : Text → ServerConfig → Result (List Tool) → W → W
  relisted cache_dir cfg (err e) w = w
  relisted cache_dir cfg (ok tools) w = refresh_cache host cache_dir cfg.server tools w

  unfoldable pub relist : Text → ServerConfig → ℕ → W → W
  relist [] cfg client w = w
  relist (c ∷ dir) cfg client w =
      let (r, w') = host.upstream.list_tools client w in relisted (c ∷ dir) cfg r w'

  -- One server of one round of `reconnectOfflineLoop`; the list is `stillOffline`.
  unfoldable pub offline_tried :
      Text
      → ServerConfig
      → Result ℕ × Registry × W
      → List ServerConfig
      → List ServerConfig × Registry × W
  offline_tried cache_dir cfg (err e, r, w) still = (still ++ cfg ∷ [], r, w)
  offline_tried cache_dir cfg (ok client, r, w) still =
      (still, strip_offline cfg.server r, relist cache_dir cfg client w)

  unfoldable pub offline_round :
      Text → List ServerConfig → List ServerConfig × Registry × W → List ServerConfig × Registry × W
  offline_round cache_dir [] s = s
  offline_round cache_dir (cfg ∷ pending) (still, r, w) =
      offline_round cache_dir pending (offline_tried cache_dir cfg (reconnect cfg r w) still)

  -- One server of one round of `retryLoop`; the list is `stillFailing`.
  unfoldable pub retry_tried :
      Text → ServerConfig → Result (List Tool × ℕ) → List ServerConfig → W → List ServerConfig × W
  retry_tried cache_dir cfg (err e) still w = (still ++ cfg ∷ [], w)
  retry_tried cache_dir cfg (ok (tools, client)) still w =
      (still, refresh_cache host cache_dir cfg.server tools w)

  unfoldable pub retry_round :
      Text → List ServerConfig → List ServerConfig × W → List ServerConfig × W
  retry_round cache_dir [] s = s
  retry_round cache_dir (cfg ∷ pending) (still, w) =
      let (r, w') = fetch_tools host.upstream cfg w in
      retry_round cache_dir pending (retry_tried cache_dir cfg r still w')
