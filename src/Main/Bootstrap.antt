-- ===== src/Main/Bootstrap.antt =====
-- The handler that `main` serves, and what becomes of it.
use mathlib.Core.Path.{subst}
use mcp_plugin.Base.Tests.{◌≡◌, refl, inl, inr, List, [], ◌∷◌, Result, ok, err, Bool-cases}
use mcp_plugin.Base.Text.{Text, codes, ◌==◌}
use mcp_plugin.Config.Expand.{ServerConfig}
use mcp_plugin.Config.Parse.{load, cache_dir}
use mcp_plugin.Plugin.Upstream.{Host}
use mcp_plugin.Plugin.Registry.Build.{build}
use mcp_plugin.Plugin.Handler.Refresh.{Handler}
use mcp_plugin.Plugin.Handler.Refresh.System.{configured, Reach, here, next}
use mcp_plugin.Plugin.Handler.Calls.{Call, answer_all}
use mcp_plugin.Plugin.Handler.Calls.Runs.{idle, answer_all-Reach}
use mcp_plugin.Main.{bootstrap_with, bootstrap}

module _ {W : Type 0} (host : Host W) (getenv : Text → Text) where
  abbrev dir : Text
  dir = cache_dir host.shape getenv

  abbrev IsServed : Result Handler × W → Type 0
  IsServed (ok h, w) = Reach host dir (idle h)
  IsServed (err e, w) = Unit

  bootstrap_with-IsServed :
      (loaded : Result (List ServerConfig)) (w : W) → IsServed (bootstrap_with host getenv loaded w)
  unfolding bootstrap_with
  bootstrap_with-IsServed (err e) w = tt
  bootstrap_with-IsServed (ok []) w = tt
  bootstrap_with-IsServed (ok (cfg ∷ cfgs)) w =
      next here
        (configured (cfg ∷ cfgs) (build host dir (cfg ∷ cfgs) w).0 (w, refl) (λ e. absurd (cc e)))

  bootstrap-IsServed : (w : W) → IsServed (bootstrap host getenv w)
  unfolding bootstrap
  bootstrap-IsServed w = elim (Bool-cases (getenv (codes "OPENTALON_MCP_SERVERS") == [])) [
    | inl unset ↦ rw unset here
    | inr set ↦ rw set (bootstrap_with-IsServed (load host.shape getenv) w)
  ]

  handed_over :
      (r : Result Handler × W) (h : Handler) → IsServed r → r.0 ≡ ok h → Reach host dir (idle h)
  handed_over (ok g, w) h served e = subst (λ x. Reach host dir (idle x)) (cc e) served
  handed_over (err m, w) h served e = absurd (cc e)

  -- The handler that `main` serves, bootstrapped or not, and what any calls of its methods, one after
  -- another, make of it are states that the step system of the handler reaches, with no call left
  -- running.
  pub bootstrap-Reach :
      (calls : List Call) (h : Handler) (w w' : W)
      → (bootstrap host getenv w).0 ≡ ok h
      → Reach host dir (idle (answer_all host getenv dir calls (h, w')).0)
  bootstrap-Reach calls h w w' e =
      answer_all-Reach host getenv dir calls h w'
        (handed_over (bootstrap host getenv w) h (bootstrap-IsServed w) e)
