-- ===== src/Plugin/Handler/Calls/Owned.antt =====
-- What holds of a client that was connected, holds of every client of the handler's registry after
-- any calls.
use mcp_plugin.Base.Tests.{ℕ, inl, inr, true, some, List, [], ◌∷◌, Result, ok, err, Bool-cases}
use mcp_plugin.Base.Text.{Text}
use mcp_plugin.Config.Expand.{ServerConfig}
use mcp_plugin.Config.Parse.{PluginConfig, parse}
use mcp_plugin.Plugin.Types.{Registry}
use mcp_plugin.Plugin.Upstream.{Host}
use mcp_plugin.Plugin.Registry.Build.{build}
use mcp_plugin.Plugin.Registry.Fetch.Owned.{Contract, Kept}
use mcp_plugin.Plugin.Registry.Build.Owned.{build-HasClients, build-Kept}
use mcp_plugin.Plugin.Registry.Live.{to_close, close_all, close}
use mcp_plugin.Plugin.Handler.Refresh.{
  Handler, set_registry, coalesces, fully_live, refresh_commit, refresh_end, refresh_started,
  rebuild, degraded, drop_degraded, refresh_capabilities, configure_with, configure_parsed,
  configure,
}
use mcp_plugin.Plugin.Handler.Refresh.Outcomes.{begin_coalesced, begin_started}
use mcp_plugin.Plugin.Handler.Calls.{Call, answer, answer_all}
use mcp_plugin.Plugin.Handler.Execute.Owned.{IsOwned, later-IsOwned, execute-IsLeft}

module _ {W : Type 0} (host : Host W) (P : ℕ → W → Type 0) (c : Contract host P) where
  close_all-Kept : (cs : List ℕ) (w : W) → Kept host P c w (close_all host cs w)
  unfolding close_all
  close_all-Kept [] w m has = has
  close_all-Kept (n ∷ cs) w m has =
      close_all-Kept cs (host.upstream.close n w) m (c.close n m w has)

  drop_degraded-Kept :
      (cache_dir : Text) (new : Registry) (w : W)
      → Kept host P c w (drop_degraded host cache_dir new w)
  unfolding drop_degraded degraded close
  drop_degraded-Kept cache_dir new w = elim (Bool-cases (fully_live new)) [
    | inl live ↦ rw (live, drop_degraded) (λ m has. has)
    | inr bad ↦ rw (bad, drop_degraded) (close_all-Kept (to_close [] new.actions) w)
  ]

  commit-IsOwned :
      (new : Registry) (h : Handler) (w : W)
      → IsOwned host P c (some new) w
      → IsOwned host P c h.registry w
      → IsOwned host P c (refresh_commit new h).registry w
  unfolding refresh_commit
  commit-IsOwned new h w fresh old = elim (Bool-cases (fully_live new)) [
    | inl live ↦ rw live fresh
    | inr bad ↦ rw bad old
  ]

  module _ (cache_dir : Text) where
    rebuild-IsOwned :
        (cfgs : List ServerConfig) (h : Handler) (w : W)
        → IsOwned host P c h.registry w
        → let (caps, h', w') = rebuild host cache_dir cfgs h w in IsOwned host P c h'.registry w'
    unfolding rebuild refresh_end
    rebuild-IsOwned cfgs h w owned =
        let (new, w1) = build host cache_dir cfgs w in
        later-IsOwned host P c (refresh_commit new h).registry w1
          (drop_degraded host cache_dir new w1) (drop_degraded-Kept cache_dir new w1)
          (commit-IsOwned new h w1 (build-HasClients host P c cache_dir cfgs w)
            (later-IsOwned host P c h.registry w w1 (build-Kept host P c cache_dir cfgs w) owned))

    refresh-IsOwned :
        (h : Handler) (w : W)
        → IsOwned host P c h.registry w
        → let (caps, h', w') = refresh_capabilities host cache_dir h w in
          IsOwned host P c h'.registry w'
    unfolding refresh_capabilities refresh_started
    refresh-IsOwned h w owned = elim (Bool-cases (coalesces h)) [
      | inl busy ↦ rw (begin_coalesced h busy, refresh_capabilities) owned
      | inr free ↦
          rw (begin_started h free, refresh_capabilities)
            (rebuild-IsOwned h.server_cfgs (record h { refreshing = true }) w owned)
    ]

    configure_with-IsOwned :
        (cfgs : List ServerConfig) (h : Handler) (w : W)
        → IsOwned host P c h.registry w
        → let (r, h', w') = configure_with host cache_dir cfgs h w in
          IsOwned host P c h'.registry w'
    unfolding configure_with set_registry
    configure_with-IsOwned [] h w owned = owned
    configure_with-IsOwned (cfg ∷ cfgs) h w owned =
        build-HasClients host P c cache_dir (cfg ∷ cfgs) w

    module _ (getenv : Text → Text) where
      configure-IsOwned :
          (parsed : Result PluginConfig) (h : Handler) (w : W)
          → IsOwned host P c h.registry w
          → let (r, h', w') = configure_parsed host cache_dir parsed h w in
            IsOwned host P c h'.registry w'
      unfolding configure_parsed
      configure-IsOwned (err e) h w owned = owned
      configure-IsOwned (ok cfg) h w owned = configure_with-IsOwned cfg.servers h w owned

      answer-IsOwned :
          (call : Call) (h : Handler) (w : W)
          → IsOwned host P c h.registry w
          → let (h', w') = answer host getenv cache_dir call h w in IsOwned host P c h'.registry w'
      unfolding answer configure
      answer-IsOwned (Call.configure config_json) h w owned =
          configure-IsOwned (parse host.shape getenv config_json) h w owned
      answer-IsOwned Call.capabilities h w owned = owned
      answer-IsOwned Call.refresh_capabilities h w owned = refresh-IsOwned h w owned
      answer-IsOwned (Call.execute req) h w owned = execute-IsLeft host P c req h.registry w owned

      -- Calls of the methods, one after another, keep the property of the clients.
      pub answer_all-IsOwned :
          (calls : List Call) (h : Handler) (w : W)
          → IsOwned host P c h.registry w
          → let (h', w') = answer_all host getenv cache_dir calls (h, w) in
            IsOwned host P c h'.registry w'
      unfolding answer_all
      answer_all-IsOwned [] h w owned = owned
      answer_all-IsOwned (call ∷ calls) h w owned =
          let (h', w') = answer host getenv cache_dir call h w in
          answer_all-IsOwned calls h' w' (answer-IsOwned call h w owned)
