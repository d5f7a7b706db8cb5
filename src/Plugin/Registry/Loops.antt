-- ===== src/Plugin/Registry/Loops.antt =====
-- plugin/registry.go: `StartBackgroundRetry`, `retryLoop` and `reconnectOfflineLoop`. A loop runs for
-- at most `fuel` rounds; without an outcome, the fuel was too little.
pub mod Retry
pub mod Pending
pub mod Online
use mcp_plugin.Base.Tests.{ℕ, zero, suc, Option, none, some, List, [], ◌∷◌, ◌++◌}
use mcp_plugin.Base.Text.{Text}
use mcp_plugin.Config.Expand.{ServerConfig}
use mcp_plugin.Plugin.Types.{Registry}
use mcp_plugin.Plugin.Upstream.{Host}
use mcp_plugin.Plugin.Registry.Backoff.{next_retry_backoff, next_offline_backoff}
use mcp_plugin.Plugin.Registry.Live.{offline_round, retry_round}

-- A goroutine that is started, with the servers that it has pending.
pub data Loop : Type 0 where
  retrying : List ServerConfig → Loop
  reconnecting : List ServerConfig → Loop

unfoldable pub retrying_failed : List ServerConfig → List Loop
retrying_failed [] = []
retrying_failed (cfg ∷ cfgs) = retrying (cfg ∷ cfgs) ∷ []

unfoldable pub reconnecting_offline : List ServerConfig → List Loop
reconnecting_offline [] = []
reconnecting_offline (cfg ∷ cfgs) = reconnecting (cfg ∷ cfgs) ∷ []

-- `StartBackgroundRetry`
unfoldable pub start_background_retry : Registry → List Loop
start_background_retry r =
    retrying_failed r.failed_servers ++ reconnecting_offline r.offline_servers

-- How `retryLoop` ends: by returning, or by ending the process.
pub data RetryEnd : Type 0 where
  returned : RetryEnd
  exited : RetryEnd

-- How `reconnectOfflineLoop` ends: the context is done, or no server is pending.
pub data OfflineEnd : Type 0 where
  cancelled : OfflineEnd
  all_online : OfflineEnd

module _ {W : Type 0} (host : Host W) (cache_dir : Text) where
  -- The `select` of `retryLoop` for a wait of so many seconds; `none` when the context is done.
  module _ (pause : ℕ → W → Option W) where
    -- The loop of `retryLoop` from a wait and the servers that are pending.
    unfoldable pub retry_from : ℕ → ℕ → List ServerConfig → W → Option (RetryEnd × W)
    retry_from fuel backoff [] w = some (returned, w)
    retry_from zero backoff (cfg ∷ cfgs) w = none
    retry_from (suc fuel) backoff (cfg ∷ cfgs) w = elim (pause backoff w) [
      | none ↦ some (returned, w)
      | some w1 ↦
          (let (still, w2) = retry_round host cache_dir (cfg ∷ cfgs) ([], w1) in
            elim still [
              | [] ↦ some (exited, w2)
              | c ∷ cs ↦ retry_from fuel (next_retry_backoff backoff) (c ∷ cs) w2
            ])
    ]

    -- `retryLoop`
    unfoldable pub retry_loop : ℕ → Registry → W → Option (RetryEnd × W)
    retry_loop fuel r w = retry_from fuel 1 r.failed_servers w

  -- The `select` of `reconnectOfflineLoop`: meanwhile other goroutines may change the registry.
  module _ (pause : ℕ → Registry → W → Option (Registry × W)) where
    -- The loop of `reconnectOfflineLoop` from a wait and the servers that are pending.
    unfoldable pub reconnect_from :
        ℕ → ℕ → List ServerConfig → Registry → W → Option (OfflineEnd × Registry × W)
    reconnect_from fuel backoff [] r w = some (all_online, r, w)
    reconnect_from zero backoff (cfg ∷ cfgs) r w = none
    reconnect_from (suc fuel) backoff (cfg ∷ cfgs) r w = elim (pause backoff r w) [
      | none ↦ some (cancelled, r, w)
      | some (r1, w1) ↦
          (let (still, r2, w2) = offline_round host cache_dir (cfg ∷ cfgs) ([], r1, w1) in
            reconnect_from fuel (next_offline_backoff backoff) still r2 w2)
    ]

    -- `reconnectOfflineLoop`
    unfoldable pub reconnect_offline_loop : ℕ → Registry → W → Option (OfflineEnd × Registry × W)
    reconnect_offline_loop fuel r w = reconnect_from fuel 5 r.offline_servers r w
