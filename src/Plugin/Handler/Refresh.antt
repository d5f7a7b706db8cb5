-- ===== src/Plugin/Handler/Refresh.antt =====
-- plugin/handler.go: the handler's state, `SetRegistry`, `Configure`, `Capabilities` and
-- `RefreshCapabilities`, the latter in the parts between which other calls may run: up to the first
-- unlock, from the second lock to the swap, and the deferred clearing of the flag.
pub mod Outcomes
pub mod System
pub mod Single
pub mod Sound
pub mod Stale
pub mod Sparing
use mcp_plugin.Base.Tests.{
  Bool, true, false, ◌||◌, Option, none, some, List, [], ◌∷◌, if◌then◌else◌, Result, ok, err,
}
use mcp_plugin.Base.Text.{Text, codes}
use mcp_plugin.Config.Expand.{ServerConfig}
use mcp_plugin.Config.Parse.{PluginConfig, parse}
use mcp_plugin.Plugin.Types.{CapabilitiesMsg, Registry, default_caps}
use mcp_plugin.Plugin.Upstream.{Host}
use mcp_plugin.Plugin.Registry.Build.{build}
use mcp_plugin.Plugin.Registry.Live.{caps_snapshot, close}

-- `Handler`, with a nil registry as none
pub record Handler : Type 0 where
  pub registry : Option Registry
  pub server_cfgs : List ServerConfig
  pub refreshing : Bool

-- `NewHandler`
abbrev pub new_handler : Handler
new_handler = record { registry = none; server_cfgs = []; refreshing = false }

-- `SetRegistry`, and the locked part of `Configure`
unfoldable pub set_registry : Registry → List ServerConfig → Handler → Handler
set_registry r cfgs h = record h { registry = some r; server_cfgs = cfgs }

unfoldable pub caps_of : Option Registry → CapabilitiesMsg
caps_of none = default_caps
caps_of (some r) = caps_snapshot r

-- `Capabilities`
unfoldable pub capabilities : Handler → CapabilitiesMsg
capabilities h = caps_of h.registry

unfoldable pub is_nil {ℓ} : {A : Type ℓ} → List A → Bool
is_nil [] = true
is_nil (x ∷ xs) = false

unfoldable pub unconfigured : Option Registry → Bool
unconfigured none = true
unconfigured (some r) = false

-- The test of the early return.
unfoldable pub coalesces : Handler → Bool
coalesces h = h.refreshing || (unconfigured h.registry || is_nil h.server_cfgs)

-- The first locked part of `RefreshCapabilities`: the configuration to build from, or none if the
-- call is answered from what is there.
unfoldable pub refresh_begin : Handler → Handler × Option (List ServerConfig)
refresh_begin h =
    if coalesces h then (h, none) else (record h { refreshing = true }, some h.server_cfgs)

-- Every server of the build answered.
unfoldable pub fully_live : Registry → Bool
fully_live r = elim r.failed_servers [ [] ↦ is_nil r.offline_servers | c ∷ cs ↦ false ]

-- The second locked part: the new registry is swapped in, unless it is degraded.
unfoldable pub refresh_commit : Registry → Handler → Handler
refresh_commit new h = if fully_live new then record h { registry = some new } else h

-- The build, if it is not kept.
unfoldable pub degraded : Registry → Option Registry
degraded new = if fully_live new then none else some new

-- The registry whose connections the refresh ends: a degraded build at once, the replaced registry
-- by `graceCloseRegistry`.
unfoldable pub closed_by : Registry → Handler → Option Registry
closed_by new h = elim (degraded new) [ none ↦ h.registry | some r ↦ some r ]

-- The deferred part.
unfoldable pub refresh_end : Handler → Handler
refresh_end h = record h { refreshing = false }

module _ {W : Type 0} (host : Host W) (cache_dir : Text) where
  -- What `closed_by` has of it now: a degraded build. A replaced registry is closed after a delay, by a goroutine
  -- of its own, which is no part of the call.
  unfoldable pub drop_degraded : Registry → W → W
  drop_degraded new w = elim (degraded new) [ none ↦ w | some r ↦ close host r w ]

  unfoldable pub rebuild : List ServerConfig → Handler → W → CapabilitiesMsg × Handler × W
  rebuild cfgs h w =
      let (new, w') = build host cache_dir cfgs w in
      let h' = refresh_commit new h in (capabilities h', refresh_end h', drop_degraded new w')

  unfoldable pub refresh_started :
      Handler × Option (List ServerConfig) → W → CapabilitiesMsg × Handler × W
  refresh_started (h, none) w = (capabilities h, h, w)
  refresh_started (h, some cfgs) w = rebuild cfgs h w

  -- `RefreshCapabilities`, when no other call runs in between
  unfoldable pub refresh_capabilities : Handler → W → CapabilitiesMsg × Handler × W
  refresh_capabilities h w = refresh_started (refresh_begin h) w

  unfoldable pub configure_with :
      List ServerConfig → Handler → W → Result (List ServerConfig) × Handler × W
  configure_with [] h w = (err (codes "mcp-plugin: no servers in config"), h, w)
  configure_with (cfg ∷ cfgs) h w =
      let (r, w') = build host cache_dir (cfg ∷ cfgs) w in
      (ok (cfg ∷ cfgs), set_registry r (cfg ∷ cfgs) h, w')

  unfoldable pub configure_parsed :
      Result PluginConfig → Handler → W → Result (List ServerConfig) × Handler × W
  configure_parsed (err e) h w = (err e, h, w)
  configure_parsed (ok cfg) h w = configure_with cfg.servers h w

  -- `Configure`; success gives the servers. The background loops that it starts are the rounds of
  -- Registry/Loops.
  unfoldable pub configure :
      (Text → Text) → Text → Handler → W → Result (List ServerConfig) × Handler × W
  configure getenv config_json h w = configure_parsed (parse host.shape getenv config_json) h w
