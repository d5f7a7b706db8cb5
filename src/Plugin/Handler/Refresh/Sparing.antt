-- ===== src/Plugin/Handler/Refresh/Sparing.antt =====
-- Whose connections a refresh ends.
use mcp_plugin.Base.Tests.{
  ℕ, ◌≡◌, sym, ap, ◌∙◌, ◌⊎◌, inl, inr, true, false, some, List, [], Bool-cases,
}
use mcp_plugin.Base.Text.{Text}
use mcp_plugin.Base.Dict.{Dict}
use mcp_plugin.Config.Expand.{ServerConfig}
use mcp_plugin.Plugin.Types.{Entry, Registry}
use mcp_plugin.Plugin.Upstream.{Host}
use mcp_plugin.Plugin.Registry.Fetch.Owned.{Contract}
use mcp_plugin.Plugin.Registry.Build.{build}
use mcp_plugin.Plugin.Registry.Build.Fresh.{holds-build}
use mcp_plugin.Plugin.Registry.Live.{seen, to_close}
use mcp_plugin.Plugin.Registry.Live.Closing.{holds, seen-to_close}
use mcp_plugin.Plugin.Handler.Refresh.{Handler, fully_live, refresh_commit, degraded, closed_by}

closes : (x : ℕ) (m : Dict Entry) → seen x (to_close [] m) ≡ holds x m
unfolding seen
closes x m = seen-to_close x [] m

module _ {W : Type 0} (host : Host W) (P : ℕ → W → Type 0) (c : Contract host P) where
  -- The registry that is closed and the one that is kept, whichever is the new one.
  apart :
      (new gone kept : Registry) (h : Handler)
      → closed_by new h ≡ some gone
      → (refresh_commit new h).registry ≡ some kept
      → ((h.registry ≡ some gone) × (kept ≡ new)) ⊎ ((h.registry ≡ some kept) × (gone ≡ new))
  unfolding closed_by refresh_commit degraded
  apart new gone kept h = elim (Bool-cases (fully_live new)) [
    | inl live ↦ rw (live, closed_by) (λ e f. inl (e, cc f))
    | inr bad ↦ rw (bad, closed_by) (λ e f. inr (f, cc e))
  ]

  -- Where the clients of the handler's registry were there before the build, a refresh ends no
  -- connection of the registry that the handler has afterwards: neither the close of a degraded build
  -- nor the delayed close of a replaced registry closes a client of it.
  pub refresh_spares_clients :
      (cache_dir : Text) (cfgs : List ServerConfig) (h : Handler) (w : W) (gone kept : Registry)
      → ((r : Registry) (x : ℕ) → h.registry ≡ some r → holds x r.actions ≡ true → P x w)
      → closed_by (build host cache_dir cfgs w).0 h ≡ some gone
      → (refresh_commit (build host cache_dir cfgs w).0 h).registry ≡ some kept
      → (x : ℕ) → seen x (to_close [] gone.actions) ≡ true
      → seen x (to_close [] kept.actions) ≡ false
  refresh_spares_clients cache_dir cfgs h w gone kept there ended left x closed =
      elim (apart (build host cache_dir cfgs w).0 gone kept h ended left) [
        | inl (old, new) ↦
            closes x kept.actions
            ∙ ap (λ (r : Registry). holds x r.actions) new
            ∙ holds-build host P c cache_dir cfgs x w
                (there gone x old (sym (closes x gone.actions) ∙ closed))
        | inr (old, new) ↦ closes x kept.actions ∙ absent new old
      ]
    where
      absent :
          gone ≡ (build host cache_dir cfgs w).0
          → h.registry ≡ some kept
          → holds x kept.actions ≡ false
      absent new old = elim (Bool-cases (holds x kept.actions)) [
        | inl shared ↦ absurd (
            cc (
              sym (closes x gone.actions) ∙ closed,
              ap (λ (r : Registry). holds x r.actions) new,
              holds-build host P c cache_dir cfgs x w (there kept x old shared),
            ))
        | inr free ↦ free
      ]
