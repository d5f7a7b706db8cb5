-- ===== src/Plugin/Handler/Refresh/Outcomes.antt =====
-- What a refresh or a configuration leaves behind.
use mcp_plugin.Base.Tests.{
  ◌≡◌, refl, sym, ap, ◌⊎◌, inl, inr, true, false, none, some, List, arith, Bool-cases,
}
use mcp_plugin.Base.Text.{Text}
use mcp_plugin.Config.Expand.{ServerConfig}
use mcp_plugin.Plugin.Types.{Registry}
use mcp_plugin.Plugin.Upstream.{Host}
use mcp_plugin.Plugin.Registry.Build.{build}
use mcp_plugin.Plugin.Handler.Refresh.{
  Handler, capabilities, refresh_begin, fully_live, refresh_commit, refresh_end, rebuild,
  refresh_capabilities, refresh_started, coalesces,
}

-- How a handler may differ after a refresh: it has the registry that it had, or one that was built
-- from its configuration and in which every server answered.
pub record IsRefreshed (h h' : Handler) (new : Registry) : Type 0 where
  pub registry : (h'.registry ≡ h.registry) ⊎ ((h'.registry ≡ some new) × (fully_live new ≡ true))
  pub server_cfgs : h'.server_cfgs ≡ h.server_cfgs
  pub refreshing : h'.refreshing ≡ h.refreshing

pub begin_coalesced : (h : Handler) → coalesces h ≡ true → refresh_begin h ≡ (h, none)
unfolding refresh_begin
begin_coalesced h busy = rw busy

pub begin_started :
    (h : Handler)
    → coalesces h ≡ false
    → refresh_begin h ≡ (record h { refreshing = true }, some h.server_cfgs)
unfolding refresh_begin
begin_started h free = rw free

module _ {W : Type 0} (host : Host W) (cache_dir : Text) where
  idle_of_started : (h : Handler) → coalesces h ≡ false → h.refreshing ≡ false
  unfolding coalesces
  idle_of_started h free = ground arith

  commit_cases :
      (new : Registry) (h : Handler)
      → (refresh_commit new h ≡ h)
        ⊎ ((refresh_commit new h ≡ record h { registry = some new }) × (fully_live new ≡ true))
  unfolding refresh_commit
  commit_cases new h = elim (Bool-cases (fully_live new)) [
    | inl live ↦ inr (rw live, live)
    | inr degraded ↦ inl (rw degraded)
  ]

  rebuild-IsRefreshed :
      (cfgs : List ServerConfig) (h : Handler) (w : W)
      → h.refreshing ≡ false
      → IsRefreshed h
          (rebuild host cache_dir cfgs (record h { refreshing = true }) w).1
          (build host cache_dir cfgs w).0
  unfolding rebuild refresh_end
  rebuild-IsRefreshed cfgs h w idle =
      elim (commit_cases (build host cache_dir cfgs w).0 (record h { refreshing = true })) [
        | inl kept ↦ record {
          registry = inl (ap (λ (g : Handler). g.registry) kept);
          server_cfgs = ap (λ (g : Handler). g.server_cfgs) kept;
          refreshing = sym idle;
        }
        | inr (swapped, live) ↦ record {
          registry = inr (ap (λ (g : Handler). g.registry) swapped, live);
          server_cfgs = ap (λ (g : Handler). g.server_cfgs) swapped;
          refreshing = sym idle;
        }
      ]

  -- A refresh returns the capabilities of the registry that it leaves. That is the old one, or a
  -- new one with no server offline or failed, so a transient outage never replaces live
  -- capabilities; the configuration is kept and the flag is as before the call.
  pub refresh_capabilities-IsRefreshed :
      (h : Handler) (w : W)
      → ((refresh_capabilities host cache_dir h w).0
          ≡ capabilities (refresh_capabilities host cache_dir h w).1)
        × IsRefreshed h
            (refresh_capabilities host cache_dir h w).1
            (build host cache_dir h.server_cfgs w).0
  unfolding refresh_capabilities refresh_started
  refresh_capabilities-IsRefreshed h w = elim (Bool-cases (coalesces h)) [
    | inl busy ↦
        rw (begin_coalesced h busy, refresh_capabilities)
          (refl, record { registry = inl refl; server_cfgs = refl; refreshing = refl })
    | inr free ↦
        rw (begin_started h free, refresh_capabilities)
          (
            unfold rebuild refresh_end capabilities in refl,
            rebuild-IsRefreshed h.server_cfgs h w (idle_of_started h free),
          )
  ]
